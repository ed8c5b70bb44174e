-- ===== src/Engine/Consume/Limits.antt =====
-- A draw within its limit lowers the balance that it is checked against by exactly its credits, and
-- never below zero.
use ctc.Common.{
  ◌≡◌, inl, inr, refl, false, Option, some, ℤ, pos, ◌-ℤ◌, ◌≤ℤ◌, ◌<ℤ◌, Option-cases, int_laws, arith,
}
use ctc.Domain.{UserId, CycleId, GrantId, EventId, Time, own, grant, personal, Event, Grant}
use ctc.Store.{Db, ok, with_event, get_grant, get_request, get_giver_cycle}
use ctc.Store.Query.{granted_out, contributed_out}
use ctc.Store.Events.{
  own_consumed-with_event, bypass_consumed-with_event, granted_out_by_source-with_event_other,
  grant_consumed-with_event, transferred_out-with_event, ComeFromOthers,
}
use ctc.Engine.{personal_remaining, left_of_grant, grant_remaining}
use ctc.Engine.Consume.{Tags, event_of, record_consumption}
use ctc.Engine.Consume.Booking.{record_consumption_inv, check_bucket-own, check_bucket-grant}

module _ (s : Db) (id : EventId) (c : CycleId) (u : UserId) (credits : ℤ) (g : Option GrantId)
    (ts : Time) (tags : Tags) where
  personal_remaining-own_event :
      (v : UserId)
      → u ≡ v
      → pos 0 <ℤ credits
      → credits ≤ℤ personal_remaining s c v
      → personal_remaining (with_event s (event_of id c u v own credits g ts tags)) c v
        ≡ personal_remaining s c v -ℤ credits
  unfolding personal_remaining granted_out get_giver_cycle
  personal_remaining-own_event v same p h = elim (Option-cases (get_giver_cycle s c v)) [
    | inl absent ↦ absurd (ground arith)
    | inr (gc, e) ↦ grind (
      int_laws,
      own_consumed-with_event s (event_of id c u v own credits g ts tags) c v,
      bypass_consumed-with_event s (event_of id c u v own credits g ts tags) c v,
      granted_out_by_source-with_event_other s (event_of id c u v own credits g ts tags) c v
          personal refl,
    )
  ]

  grant_remaining-grant_event :
      (v : UserId) (i : GrantId) (row : Grant)
      → ComeFromOthers s.grants
      → get_grant s i ≡ some row
      → pos 0 <ℤ credits
      → credits ≤ℤ grant_remaining s c i
      → grant_remaining (with_event s (event_of id c u v grant credits (some i) ts tags)) c i
        ≡ grant_remaining s c i -ℤ credits
  unfolding grant_remaining left_of_grant contributed_out get_grant get_request
  grant_remaining-grant_event v i row valid found p h = grind (
    int_laws,
    grant_consumed-with_event s (event_of id c u v grant credits (some i) ts tags) c i,
    transferred_out-with_event s (event_of id c u v grant credits (some i) ts tags) i valid refl,
  )

  -- Own consumption that is booked within the limit is self-sourced; it lowers the giver's personal
  -- credit by exactly its credits, and never below zero.
  pub record_consumption-own :
      (v : UserId) {e : Event} {s' : Db}
      → record_consumption id c u v own credits g ts false tags s ≡ (ok e, s')
      → (u ≡ v)
        × (personal_remaining s' c v ≡ personal_remaining s c v -ℤ credits)
        × (pos 0 ≤ℤ personal_remaining s' c v)
  record_consumption-own v h =
      let (_, booked, p, checked) =
        record_consumption_inv id c u v own credits g ts false tags s h in
      let (same, covered) = check_bucket-own c u v credits g s checked in
      let moves = personal_remaining-own_event v same p covered in
      rw booked (same, moves, rw moves (omega int_laws))

  -- On tables in which no grant comes out of itself, a grant draw that is booked within the limit names
  -- a grant of the giver that it charges; it lowers what is left of that grant by exactly its credits,
  -- and never below zero.
  pub record_consumption-grant :
      (v : UserId) {e : Event} {s' : Db}
      → ComeFromOthers s.grants
      → record_consumption id c u v grant credits g ts false tags s ≡ (ok e, s')
      → (i : GrantId) × (row : Grant) × (g ≡ some i)
        × (get_grant s i ≡ some row)
        × (row.donor_id ≡ v)
        × (grant_remaining s' c i ≡ grant_remaining s c i -ℤ credits)
        × (pos 0 ≤ℤ grant_remaining s' c i)
  record_consumption-grant v valid h =
      let (_, booked, p, checked) =
        record_consumption_inv id c u v grant credits g ts false tags s h in
      let d = check_bucket-grant c u v credits g s checked in
      let moves = grant_remaining-grant_event v d.grant_id d.row valid d.found p d.covered in
      rw (booked, d.chosen)
        (d.grant_id, d.row, refl, d.found, d.donor, moves, rw moves (omega int_laws))
