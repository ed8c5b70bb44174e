-- ===== src/Engine/Reconcile/Sums.antt =====
-- What booking a bypass event and dropping a pending observation change.
use ctc.Common.{
  ◌≡◌, refl, inl, inr, Option, none, Option-cases, ℤ, ◌+ℤ◌, find_first-update_where,
  find_first-update_where-none, int_laws,
}
use ctc.Domain.{UserId, CycleId, EventId, Time, bypass}
use ctc.Store.{Db, with_event, with_pending, is_row, get_giver_cycle}
use ctc.Store.Query.{own_consumed, bypass_consumed, pool_consumed_from, grants_consumed_from}
use ctc.Store.Events.{
  own_consumed-with_event, pool_consumed_from-with_event, grants_consumed_from-with_event,
  bypass_consumed-with_event,
}
use ctc.Engine.Consume.{Tags, event_of}
use ctc.Engine.Reconcile.{tracked_burn, baseline_of}

module _ (s : Db) (c : CycleId) (u : UserId) where
  -- A bypass event adds its credits to the burn that is attributed to its giver.
  pub tracked_burn-bypass :
      (id : EventId) (x : ℤ) (ts : Time) (tags : Tags)
      → tracked_burn (with_event s (event_of id c u u bypass x none ts tags)) c u
        ≡ tracked_burn s c u +ℤ x
  unfolding tracked_burn
  tracked_burn-bypass id x ts tags =
      let e = event_of id c u u bypass x none ts tags in
      grind (
        int_laws,
        own_consumed-with_event s e c u,
        pool_consumed_from-with_event s e c u,
        grants_consumed_from-with_event s e c u,
        bypass_consumed-with_event s e c u,
      )

  pub baseline_of-with_pending :
      (d : Option ℤ) (t : Option Time)
      → baseline_of (get_giver_cycle (with_pending s c u d t) c u)
        ≡ baseline_of (get_giver_cycle s c u)
  unfolding get_giver_cycle with_pending
  baseline_of-with_pending d t = elim (Option-cases (get_giver_cycle s c u)) [
    | inl absent ↦
        rw
          (
            absent,
            find_first-update_where-none (is_row c u)
                (λ gc. record gc { pending_drift = d; pending_drift_at = t }) s.giver_cycles absent,
          )
          refl
    | inr (gc, e) ↦
        rw
          (
            e,
            find_first-update_where (is_row c u)
                (λ gc. record gc { pending_drift = d; pending_drift_at = t }) s.giver_cycles
                (λ y k. k) e,
          )
          refl
  ]

  pub tracked_burn-with_pending :
      (d : Option ℤ) (t : Option Time)
      → tracked_burn (with_pending s c u d t) c u ≡ tracked_burn s c u
  unfolding tracked_burn own_consumed pool_consumed_from grants_consumed_from bypass_consumed
      with_pending
  tracked_burn-with_pending d t = refl
