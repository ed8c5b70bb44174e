-- ===== src/Engine/Reconcile/Booked.antt =====
-- A booked bypass event covers out-of-band burn that GitHub reports, and never more.
use ctc.Common.{
  ◌≡◌, ◌+◌, ◌≤◌, refl, ◌⊎◌, inl, inr, Bool, true, false, Option, none, some, ℤ, pos, ◌-ℤ◌, ◌≤ℤ◌,
  ◌<ℤ◌, min_ℤ, min_ℤ_lem, int_laws, arith,
}
use ctc.Domain.{UserId, CycleId, EventId, Time, bypass, GiverCycle, Event}
use ctc.Store.{Db, ok, with_event, with_pending, get_giver_cycle}
use ctc.Store.Events.{get_giver_cycle-with_event}
use ctc.Engine.Consume.{Tags, event_of}
use ctc.Engine.Reconcile.{
  tracked_burn, drift_of, baseline_of, base_or_zero, capped, book_bypass, capture, anchor,
  note_drift, debounce, reconcile_row, reconcile_burn, confirm_min_s, confirm_window_max,
  pending_of, pending_at_of,
}
use ctc.Engine.Reconcile.Sums.{
  tracked_burn-bypass, tracked_burn-with_pending, baseline_of-with_pending,
}

module _ (s : Db) (id : EventId) (c : CycleId) (u : UserId) (burn : ℤ) (ts : Time) where
  abbrev no_tags : Tags
  no_tags = record { run_tag = none; model = none; exchange_id = none }

  abbrev bypass_event : ℤ → Event
  bypass_event x = event_of id c u u bypass x none ts no_tags

  book_bypass_inv :
      (limit : Option ℤ) {e : Event} {s' : Db}
      → book_bypass id c u burn ts limit s ≡ (ok (some e), s')
      → let x = capped limit (drift_of s c u burn) in
        (pos 0 <ℤ x)
        × (e ≡ bypass_event x)
        × (s' ≡ with_event (with_pending s c u none none) (bypass_event x))
  unfolding book_bypass
  book_bypass_inv limit h = ground arith

  -- The drift that is left after a booking.
  drift_of-booked :
      (x : ℤ)
      → drift_of (with_event (with_pending s c u none none) (bypass_event x)) c u burn
        ≡ drift_of s c u burn -ℤ x
  unfolding drift_of
  drift_of-booked x =
      let s₁ = with_pending s c u none none in
      rw
        (
          get_giver_cycle-with_event s₁ (bypass_event x) c u,
          baseline_of-with_pending s c u none none,
          tracked_burn-bypass s₁ c u id x ts no_tags,
          tracked_burn-with_pending s c u none none,
        )
        (omega int_laws)

  capped-le : (limit : Option ℤ) (d : ℤ) → capped limit d ≤ℤ d
  capped-le none d = omega arith
  capped-le (some l) d = grind (arith, min_ℤ_lem d l)

  -- What a booking for `u` on a measured burn has done.
  pub record Books (limit : Option ℤ) (e : Event) (s' : Db) : Type 0 where
    pub event : e ≡ bypass_event e.credits
    pub positive : pos 0 <ℤ e.credits
    pub amount : e.credits ≡ capped limit (drift_of s c u burn)
    pub attributed : drift_of s' c u burn ≡ drift_of s c u burn -ℤ e.credits
    pub not_beyond : pos 0 ≤ℤ drift_of s' c u burn

  book_bypass-Books :
      (limit : Option ℤ) {e : Event} {s' : Db}
      → book_bypass id c u burn ts limit s ≡ (ok (some e), s')
      → Books limit e s'
  book_bypass-Books limit {e} {s'} h =
      let x = capped limit (drift_of s c u burn) in
      let (p, same, after) = book_bypass_inv limit h in
      let moved = drift_of-booked x in
      rw (same, after)
        (record {
          event = refl;
          positive = p;
          amount = refl;
          attributed = moved;
          not_beyond = rw moved (omega (int_laws, capped-le limit (drift_of s c u burn)));
        })

  -- How a reconcile comes to book: at once, or on a second observation in the window.
  pub data Because (immediate : Bool) : Option ℤ → Type 0 where
    at_once : immediate ≡ true → Because immediate none
    confirmed :
        (gc : GiverCycle) (pending : ℤ) (at : Time)
        → immediate ≡ false
        → get_giver_cycle s c u ≡ some gc
        → gc.pending_drift ≡ some pending
        → gc.pending_drift_at ≡ some at
        → at + confirm_min_s ≤ ts
        → ts ≤ at + confirm_window_max
        → Because immediate (some (min_ℤ pending (drift_of s c u burn)))

  debounce_inv :
      (d : ℤ) (p : Option ℤ) (a : Option Time) {e : Event} {s' : Db}
      → debounce id c u burn d ts p a s ≡ (ok (some e), s')
      → (pending : ℤ) × (at : Time) × (p ≡ some pending)
        × (a ≡ some at)
        × (at + confirm_min_s ≤ ts)
        × (ts ≤ at + confirm_window_max)
        × (book_bypass id c u burn ts (some (min_ℤ pending d)) s ≡ (ok (some e), s'))
  unfolding debounce note_drift
  debounce_inv d (some p) (some a) h = (p, a, refl, refl, ground arith, ground arith, ground arith)
  debounce_inv d none a h = absurd (ground arith)
  debounce_inv d (some p) none h = absurd (ground arith)

  reconcile_row_inv :
      (immediate : Bool) (o : Option GiverCycle) (t : ℤ) {e : Event} {s' : Db}
      → reconcile_row id c u burn ts immediate o t s ≡ (ok (some e), s')
      → let d = burn -ℤ base_or_zero (baseline_of o) -ℤ t in
        (immediate ≡ true) × (book_bypass id c u burn ts none s ≡ (ok (some e), s'))
        ⊎ (immediate ≡ false)
          × (debounce id c u burn d ts (pending_of o) (pending_at_of o) s ≡ (ok (some e), s'))
  unfolding reconcile_row capture anchor note_drift
  reconcile_row_inv true o t h = inl (refl, ground arith)
  reconcile_row_inv false o t h = inr (refl, ground arith)

  pending_row :
      (o : Option GiverCycle) {p : ℤ} {t : Time}
      → pending_of o ≡ some p
      → pending_at_of o ≡ some t
      → (gc : GiverCycle) × (o ≡ some gc)
        × (gc.pending_drift ≡ some p)
        × (gc.pending_drift_at ≡ some t)
  pending_row none h k = absurd (ground arith)
  pending_row (some gc) h k = (gc, refl, h, k)

  abbrev pub BooksBecause : Bool → Event → Db → Type 0
  BooksBecause immediate e s' = (limit : Option ℤ) × Because immediate limit × Books limit e s'

  confirmed_books :
      {e : Event} {s' : Db}
      → debounce id c u burn
          (drift_of s c u burn)
          ts
          (pending_of (get_giver_cycle s c u))
          (pending_at_of (get_giver_cycle s c u))
          s
        ≡ (ok (some e), s')
      → BooksBecause false e s'
  confirmed_books h =
      let (p, t, ep, et, lo, hi, booked) =
        debounce_inv (drift_of s c u burn) (pending_of (get_giver_cycle s c u))
          (pending_at_of (get_giver_cycle s c u)) h in
      let (gc, eg, gp, gt) = pending_row (get_giver_cycle s c u) ep et in
      let limit = some (min_ℤ p (drift_of s c u burn)) in
      (limit, confirmed gc p t refl eg gp gt lo hi, book_bypass-Books limit booked)

  pub reconcile_burn_because :
      (immediate : Bool) {e : Event} {s' : Db}
      → reconcile_burn id c u burn ts immediate s ≡ (ok (some e), s')
      → BooksBecause immediate e s'
  unfolding reconcile_burn drift_of
  reconcile_burn_because immediate h =
      elim (reconcile_row_inv immediate (get_giver_cycle s c u) (tracked_burn s c u) h) [
        | inl (now, booked) ↦ (none, at_once now, book_bypass-Books none booked)
        | inr (later, waited) ↦ rw later (confirmed_books waited)
      ]

  -- Without drift nothing is booked.
  pub reconcile_burn-none :
      (immediate : Bool)
      → drift_of s c u burn ≤ℤ pos 0
      → (reconcile_burn id c u burn ts immediate s).0 ≡ ok none
  unfolding reconcile_burn reconcile_row drift_of capture anchor note_drift
  reconcile_burn-none immediate h = ground arith
