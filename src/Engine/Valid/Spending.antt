-- ===== src/Engine/Valid/Spending.antt =====
-- A reconcile and a debit leave valid tables.
use ctc.Common.{
  ℕ, suc, ◌+◌, ◌≡◌, refl, inl, inr, Bool, true, false, not, ◌&&◌, Bool-cases, Option, none, some,
  List, [], ◌∷◌, ℤ, pos, ◌-ℤ◌, leb_ℤ, ltb_ℤ, leb_ℤ→lt, min_ℤ, max_ℤ, is_none, ltb, arith,
}
use ctc.Domain.{UserId, CycleId, GrantId, EventId, Time, grant, bypass, GiverCycle, Event}
use ctc.Store.{
  Db, pure, get_event, with_event, with_pending, add_event, set_pending_drift, set_burn_baseline,
  with_baseline,
}
use ctc.Store.Frame.{Keeps}
use ctc.Store.Valid.{with_event-IsValid}
use ctc.Engine.{grant_remaining, active_grants}
use ctc.Engine.Consume.{Tags, event_of, record_consumption}
use ctc.Engine.Reconcile.{
  drift_of, capped, book_bypass, capture, anchor, note_drift, debounce, pending_of, pending_at_of,
  baseline_of, base_or_zero, reconcile_row, confirm_min_s, confirm_window_max,
}
use ctc.Engine.Valid.{ledger, IsValid-ledger, Safe, >>=-Safe}
use ctc.Engine.Valid.Booking.{record_consumption-Safe}
use ctc.Routing.{Source, ConsumerIdentity, draw_order, spill, book_residual, debit}

abbrev bypass_event : EventId → CycleId → UserId → Time → ℤ → Event
bypass_event id c u ts x =
    event_of id c u u bypass x none ts (record { run_tag = none; model = none; exchange_id = none })

with_pending-ledger :
    (s : Db) (c : CycleId) (u : UserId) (d : Option ℤ) (at : Option Time)
    → ledger (with_pending s c u d at) ≡ ledger s
unfolding with_pending
with_pending-ledger s c u d at = refl

book_bypass-nothing :
    (id : EventId) (c : CycleId) (u : UserId) (burn : ℤ) (ts : Time) (limit : Option ℤ) (s : Db)
    → leb_ℤ (capped limit (drift_of s c u burn)) (pos 0) ≡ true
    → (book_bypass id c u burn ts limit s).1 ≡ with_pending s c u none none
unfolding book_bypass set_pending_drift
book_bypass-nothing id c u burn ts limit s h = ground arith

book_bypass-books :
    (id : EventId) (c : CycleId) (u : UserId) (burn : ℤ) (ts : Time) (limit : Option ℤ) (s : Db)
    → leb_ℤ (capped limit (drift_of s c u burn)) (pos 0) ≡ false
    → is_none (get_event (with_pending s c u none none) id) ≡ true
    → (book_bypass id c u burn ts limit s).1
      ≡ with_event
          (with_pending s c u none none)
          (bypass_event id c u ts (capped limit (drift_of s c u burn)))
unfolding book_bypass set_pending_drift add_event
book_bypass-books id c u burn ts limit s h k = ground arith

book_bypass-taken :
    (id : EventId) (c : CycleId) (u : UserId) (burn : ℤ) (ts : Time) (limit : Option ℤ) (s : Db)
    → leb_ℤ (capped limit (drift_of s c u burn)) (pos 0) ≡ false
    → is_none (get_event (with_pending s c u none none) id) ≡ false
    → (book_bypass id c u burn ts limit s).1 ≡ s
unfolding book_bypass set_pending_drift add_event
book_bypass-taken id c u burn ts limit s h k = ground arith

book_bypass-Safe :
    (id : EventId) (c : CycleId) (u : UserId) (burn : ℤ) (ts : Time) (limit : Option ℤ)
    → Safe (book_bypass id c u burn ts limit)
book_bypass-Safe id c u burn ts limit s v =
    let s₁ = with_pending s c u none none in
    let v₁ = IsValid-ledger (with_pending-ledger s c u none none) v in
    let x = capped limit (drift_of s c u burn) in
    elim (Bool-cases (leb_ℤ x (pos 0))) [
      | inl nothing ↦ rw (book_bypass-nothing id c u burn ts limit s nothing) v₁
      | inr more ↦ elim (Bool-cases (is_none (get_event s₁ id))) [
        | inl new ↦
            rw (book_bypass-books id c u burn ts limit s more new)
              (with_event-IsValid s₁ (bypass_event id c u ts x) v₁ (leb_ℤ→lt x (pos 0) more))
        | inr taken ↦ rw (book_bypass-taken id c u burn ts limit s more taken) v
      ]
    ]

capture-Keeps : (c : CycleId) (u : UserId) (b : ℤ) → Keeps ledger (capture c u b)
unfolding capture set_burn_baseline with_baseline
capture-Keeps c u b s = ground arith

anchor-Keeps : (c : CycleId) (u : UserId) (b : ℤ) → Keeps ledger (anchor c u b)
unfolding anchor set_burn_baseline with_baseline set_pending_drift with_pending
anchor-Keeps c u b s = ground arith

note_drift-Keeps :
    (c : CycleId) (u : UserId) (d : Option ℤ) (at : Option Time)
    → Keeps ledger (note_drift c u d at)
unfolding note_drift set_pending_drift with_pending
note_drift-Keeps c u d at s = ground arith

spill-Safe :
    (new_id : ℕ → EventId) (c : CycleId) (u : UserId) (ts : Time) (tags : Tags) (n : ℕ) (x : ℤ)
    (order : List (UserId × GrantId))
    → Safe (spill new_id c u ts tags n x order)
unfolding spill
spill-Safe new_id c u ts tags n x [] s v = v
spill-Safe new_id c u ts tags n x ((g, i) ∷ order) s v = elim (Bool-cases (leb_ℤ x (pos 0))) [
  | inl done ↦ rw done v
  | inr more ↦ elim (Bool-cases (leb_ℤ (grant_remaining s c i) (pos 0))) [
    | inl spent ↦ rw (more, spent) (spill-Safe new_id c u ts tags (suc n) x order s v)
    | inr room ↦
        let take = min_ℤ (grant_remaining s c i) x in
        rw (more, room)
          (>>=-Safe (record_consumption (new_id n) c u g grant take (some i) ts false tags)
            (λ _. spill new_id c u ts tags (suc n) (x -ℤ take) order) s
            (record_consumption-Safe (new_id n) c u g grant take (some i) ts false tags s v)
            (λ e t ran w. spill-Safe new_id c u ts tags (suc n) (x -ℤ take) order t w))
  ]
]

book_residual-Safe :
    (id : EventId) (c : CycleId) (u : UserId) (source : Source) (ts : Time) (tags : Tags) (x : ℤ)
    → Safe (book_residual id c u source ts tags x)
unfolding book_residual
book_residual-Safe id c u source ts tags x s v = elim (Bool-cases (ltb_ℤ (pos 0) x)) [
  | inl more ↦ rw more (
      >>=-Safe
        (record_consumption id c u source.giver_id source.bucket x source.grant_id ts true tags)
        (λ _. pure tt) s
        (record_consumption-Safe id c u source.giver_id source.bucket x source.grant_id ts true tags
          s v)
        (λ _ t _ w. w))
  | inr none_left ↦ rw none_left v
]

pub debit-Safe :
    (last_id : EventId) (new_id : ℕ → EventId) (c : CycleId) (consumer : ConsumerIdentity)
    (source : Source) (cost : ℤ) (ts : Time) (tags : Tags)
    → Safe (debit last_id new_id c consumer source cost ts tags)
unfolding debit
debit-Safe last_id new_id c consumer source cost ts tags s v =
    elim (Bool-cases (leb_ℤ cost (pos 0))) [
      | inl free ↦ rw free v
      | inr owed ↦
          let order = draw_order source (active_grants s c consumer.user_id) in
          rw owed (
            >>=-Safe (spill new_id c consumer.user_id ts tags 0 cost order)
              (book_residual last_id c consumer.user_id source ts tags) s
              (spill-Safe new_id c consumer.user_id ts tags 0 cost order s v)
              (λ x t _ w. book_residual-Safe last_id c consumer.user_id source ts tags x t w))
    ]

debounce-Safe :
    (id : EventId) (c : CycleId) (u : UserId) (burn drift : ℤ) (ts : Time) (pending : Option ℤ)
    (at : Option Time)
    → Safe (debounce id c u burn drift ts pending at)
unfolding debounce
debounce-Safe id c u burn drift ts none at s v =
    IsValid-ledger (note_drift-Keeps c u (some drift) (some ts) s) v
debounce-Safe id c u burn drift ts (some p) none s v =
    IsValid-ledger (note_drift-Keeps c u (some drift) (some ts) s) v
debounce-Safe id c u burn drift ts (some p) (some at) s v =
    elim (Bool-cases (ltb ts (at + confirm_min_s))) [
      | inl early ↦ rw early v
      | inr later ↦ elim (Bool-cases (ltb (at + confirm_window_max) ts)) [
        | inl stale ↦
            rw (later, stale) (IsValid-ledger (note_drift-Keeps c u (some drift) (some ts) s) v)
        | inr timely ↦
            rw (later, timely) (book_bypass-Safe id c u burn ts (some (min_ℤ p drift)) s v)
      ]
    ]

pub reconcile_row-Safe :
    (id : EventId) (c : CycleId) (u : UserId) (burn : ℤ) (ts : Time) (now : Bool)
    (gc : Option GiverCycle) (tracked : ℤ)
    → Safe (reconcile_row id c u burn ts now gc tracked)
unfolding reconcile_row
reconcile_row-Safe id c u burn ts now gc tracked s v =
    let base = base_or_zero (baseline_of gc) in
    elim (Bool-cases (is_none (baseline_of gc) && not now)) [
      | inl first ↦
          rw first (IsValid-ledger (capture-Keeps c u (max_ℤ (pos 0) (burn -ℤ tracked)) s) v)
      | inr known ↦ elim (Bool-cases (ltb_ℤ burn base)) [
        | inl lower ↦
            rw (known, lower)
              (IsValid-ledger (anchor-Keeps c u (max_ℤ (pos 0) (burn -ℤ tracked)) s) v)
        | inr higher ↦ elim (Bool-cases (leb_ℤ (burn -ℤ base -ℤ tracked) (pos 0))) [
          | inl even ↦ elim (Bool-cases (is_none (pending_of gc))) [
            | inl quiet ↦ rw (known, higher, even, quiet) v
            | inr noted ↦
                rw (known, higher, even, noted)
                  (IsValid-ledger (note_drift-Keeps c u none none s) v)
          ]
          | inr drifts ↦ elim (Bool-cases now) [
            | inl at_once ↦
                rw (known, higher, drifts, at_once) (book_bypass-Safe id c u burn ts none s v)
            | inr wait ↦
                rw (known, higher, drifts, wait)
                  (debounce-Safe id c u burn (burn -ℤ base -ℤ tracked) ts (pending_of gc)
                    (pending_at_of gc) s v)
          ]
        ]
      ]
    ]
