-- ===== src/Tools/Repair/Anchored.antt =====
-- An immediate reconcile on a row that was anchored at 0.
use ctc.Common.{
  ◌≡◌, ◌∙◌, refl, inl, inr, ◌&&◌, is_none, Bool, true, false, Bool-cases, Option, none, some,
  Option-cases, ℤ, pos, ◌+ℤ◌, ◌-ℤ◌, ◌≤ℤ◌, ◌<ℤ◌, leb_ℤ, ltb_ℤ, max_ℤ, find_first, update_where,
  find_first-update_where, find_first-update_where-none, int_laws, arith,
}
use ctc.Domain.{UserId, CycleId, EventId, Time, bypass, GiverCycle, Event}
use ctc.Store.{Db, ok, with_event, with_baseline, with_pending, get_giver_cycle, get_event, is_row}
use ctc.Engine.Consume.{Tags, event_of}
use ctc.Engine.Reconcile.{
  tracked_burn, drift_of, baseline_of, base_or_zero, pending_of, book_bypass, anchor, reconcile_row,
  reconcile_burn,
}
use ctc.Engine.Reconcile.Sums.{tracked_burn-bypass, tracked_burn-with_pending}
use ctc.Store.Query.{own_consumed, bypass_consumed, pool_consumed_from, grants_consumed_from}
use ctc.Tools.Repair.{re_anchor}

module _ (s : Db) (c : CycleId) (u : UserId) where
  abbrev pub anchored : Db
  anchored = with_pending (with_baseline s c u (pos 0)) c u none none

  pub re_anchor_run : re_anchor c u s ≡ (ok tt, anchored)
  unfolding re_anchor
  re_anchor_run = refl

  pub tracked_burn-anchored : tracked_burn anchored c u ≡ tracked_burn s c u
  unfolding tracked_burn own_consumed pool_consumed_from grants_consumed_from bypass_consumed
      with_pending with_baseline
  tracked_burn-anchored = refl

  tracked_burn-with_baseline :
      (x : ℤ) → tracked_burn (with_baseline s c u x) c u ≡ tracked_burn s c u
  unfolding tracked_burn own_consumed pool_consumed_from grants_consumed_from bypass_consumed
      with_baseline
  tracked_burn-with_baseline x = refl

  -- The row after the anchoring.
  abbrev anchored_row : Option GiverCycle → Option GiverCycle
  anchored_row none = none
  anchored_row (some gc) =
      some
        (record gc { burn_baseline = some (pos 0); pending_drift = none; pending_drift_at = none })

  get_giver_cycle-anchored : get_giver_cycle anchored c u ≡ anchored_row (get_giver_cycle s c u)
  unfolding get_giver_cycle with_pending with_baseline
  get_giver_cycle-anchored =
      let p = is_row c u in
      let based = λ (gc : GiverCycle). record gc { burn_baseline = some (pos 0) } in
      let dropped =
        λ (gc : GiverCycle). record gc { pending_drift = none; pending_drift_at = none } in
      let rows = update_where p based s.giver_cycles in
      elim (Option-cases (find_first p s.giver_cycles)) [
        | inl absent ↦ rw absent (
            find_first-update_where-none p dropped rows
              (find_first-update_where-none p based s.giver_cycles absent))
        | inr (gc, there) ↦ rw there (
            find_first-update_where p dropped rows (λ y k. k)
              (find_first-update_where p based s.giver_cycles (λ y k. k) there))
      ]

  row_base : (o : Option GiverCycle) → base_or_zero (baseline_of (anchored_row o)) ≡ pos 0
  row_base none = refl
  row_base (some gc) = refl

  row_pending : (o : Option GiverCycle) → pending_of (anchored_row o) ≡ none
  row_pending none = refl
  row_pending (some gc) = refl

module _ (s : Db) (c : CycleId) (u : UserId) where
  pub anchored_base : base_or_zero (baseline_of (get_giver_cycle (anchored s c u) c u)) ≡ pos 0
  anchored_base = rw (get_giver_cycle-anchored s c u) (row_base s c u (get_giver_cycle s c u))

  pub anchored_pending : pending_of (get_giver_cycle (anchored s c u) c u) ≡ none
  anchored_pending = rw (get_giver_cycle-anchored s c u) (row_pending s c u (get_giver_cycle s c u))

no_drift : (b t : ℤ) → b ≤ℤ t → leb_ℤ (b -ℤ pos 0 -ℤ t) (pos 0) ≡ true
no_drift b t h = grind (int_laws, h)

a_drift : (b t : ℤ) → t <ℤ b → leb_ℤ (b -ℤ pos 0 -ℤ t) (pos 0) ≡ false
a_drift b t h = grind (int_laws, h)

not_below : (b t : ℤ) → pos 0 ≤ℤ t → t <ℤ b → ltb_ℤ b (pos 0) ≡ false
not_below b t p h = grind (int_laws, p, h)

without_zero : (b t : ℤ) → b -ℤ pos 0 -ℤ t ≡ b -ℤ t
without_zero b t = omega int_laws

made_up : (b t : ℤ) → t +ℤ (b -ℤ pos 0 -ℤ t) ≡ b
made_up b t = omega int_laws

fresh_still :
    (s : Db) (c : CycleId) (u : UserId) (id : EventId)
    → get_event s id ≡ none
    → get_event (with_pending s c u none none) id ≡ none
unfolding get_event with_pending
fresh_still s c u id h = h

never : (b : Bool) → (b && false) ≡ false
never true = refl
never false = refl

abbrev no_tags : Tags
no_tags = record { run_tag = none; model = none; exchange_id = none }

module _ (s : Db) (c : CycleId) (u : UserId) (id : EventId) (ts : Time) (burn : ℤ) where
  -- With no baseline to subtract and no pending observation, an immediate reconcile that finds no drift
  -- leaves the burn accounted for as it is.
  pub none_left :
      base_or_zero (baseline_of (get_giver_cycle s c u)) ≡ pos 0
      → pending_of (get_giver_cycle s c u) ≡ none
      → burn ≤ℤ tracked_burn s c u
      → (t : Db) × (reconcile_burn id c u burn ts true s ≡ (ok none, t))
        × (tracked_burn t c u ≡ tracked_burn s c u)
  unfolding reconcile_burn reconcile_row anchor
  none_left base pending le = elim (Bool-cases (ltb_ℤ burn (pos 0))) [
    | inl below ↦ (
      with_pending (with_baseline s c u (max_ℤ (pos 0) (burn -ℤ tracked_burn s c u))) c u none none,
      rw (base, below, never (is_none (baseline_of (get_giver_cycle s c u)))) refl,
      tracked_burn-with_pending (with_baseline s c u (max_ℤ (pos 0) (burn -ℤ tracked_burn s c u))) c
            u none none
          ∙ tracked_burn-with_baseline s c u (max_ℤ (pos 0) (burn -ℤ tracked_burn s c u)),
    )
    | inr above ↦ (
      s,
      rw
          (
            base,
            above,
            never (is_none (baseline_of (get_giver_cycle s c u))),
            no_drift burn (tracked_burn s c u) le,
            pending,
          )
          refl,
      refl,
    )
  ]

  -- A booking of a drift that is there.
  book_run :
      (d : ℤ)
      → drift_of s c u burn ≡ d
      → leb_ℤ d (pos 0) ≡ false
      → get_event (with_pending s c u none none) id ≡ none
      → book_bypass id c u burn ts none s ≡ (
        ok (some (event_of id c u u bypass d none ts no_tags)),
        with_event (with_pending s c u none none) (event_of id c u u bypass d none ts no_tags),
      )
  unfolding book_bypass
  book_run d h some_drift fresh = ground (arith, h, some_drift, fresh)

  measured :
      base_or_zero (baseline_of (get_giver_cycle s c u)) ≡ pos 0
      → drift_of s c u burn ≡ burn -ℤ pos 0 -ℤ tracked_burn s c u
  unfolding drift_of
  measured base = rw base refl

  pub some_left :
      base_or_zero (baseline_of (get_giver_cycle s c u)) ≡ pos 0
      → pos 0 ≤ℤ tracked_burn s c u
      → tracked_burn s c u <ℤ burn
      → get_event s id ≡ none
      → (e : Event) × (t : Db) × (reconcile_burn id c u burn ts true s ≡ (ok (some e), t))
        × (e.credits ≡ burn -ℤ tracked_burn s c u)
        × (tracked_burn t c u ≡ burn)
  unfolding reconcile_burn reconcile_row
  some_left base p lt fresh =
      let d = burn -ℤ pos 0 -ℤ tracked_burn s c u in
      let e = event_of id c u u bypass d none ts no_tags in
      (
        e,
        with_event (with_pending s c u none none) e,
        rw
            (
              base,
              never (is_none (baseline_of (get_giver_cycle s c u))),
              not_below burn (tracked_burn s c u) p lt,
              a_drift burn (tracked_burn s c u) lt,
            )
            (book_run d (measured base) (a_drift burn (tracked_burn s c u) lt)
              (fresh_still s c u id fresh)),
        without_zero burn (tracked_burn s c u),
        rw
            (
              tracked_burn-bypass (with_pending s c u none none) c u id d ts no_tags,
              tracked_burn-with_pending s c u none none,
            )
            (made_up burn (tracked_burn s c u)),
      )
