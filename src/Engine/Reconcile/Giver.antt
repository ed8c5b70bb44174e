-- ===== src/Engine/Reconcile/Giver.antt =====
-- reconcile_giver as a whole: the guards on the live data, the throttle, the debounce, the booking.
use ctc.Common.{
  ◌≡◌, refl, inl, inr, Bool, true, false, Bool-cases, Option, none, some, ℤ, pos, ◌≤ℤ◌, int_laws,
  arith,
}
use ctc.Domain.{UserId, CycleId, EventId, Time, Event}
use ctc.Store.{Db, ok}
use ctc.Engine.Pledge.{Live}
use ctc.Engine.Reconcile.{
  drift_of, github_burn, reconcile_burn, is_throttled, seen_at, Seen, reconcile_giver,
  reconcile_known,
}
use ctc.Engine.Reconcile.Booked.{
  BooksBecause, Because, at_once, confirmed, Books, reconcile_burn_because, reconcile_burn-none,
}

module _ (s : Db) (id : EventId) (c : CycleId) (u : UserId) (ts : Time) (seen : Seen) where
  reconcile_known_inv :
      (o : Option ℤ) (immediate : Bool) {e : Event} {s' : Db} {seen' : Seen}
      → reconcile_known id c u o ts immediate seen s ≡ (seen', (ok (some e), s'))
      → (burn : ℤ) × (o ≡ some burn)
        × (reconcile_burn id c u burn ts immediate s ≡ (ok (some e), s'))
  reconcile_known_inv none immediate h = absurd (ground arith)
  reconcile_known_inv (some burn) true h = (burn, refl, ground arith)
  reconcile_known_inv (some burn) false h = (burn, refl, ground arith)

  -- An event that a reconcile returns is a positive, self-sourced bypass event of the giver. Its
  -- credits are the burn that GitHub reports and nothing accounts for, cut down to the pending
  -- observation unless the call is immediate; so the burn accounted for never passes what GitHub
  -- reports. A call that is not immediate books only on an observation made 90 to 900 seconds ago.
  pub reconcile_giver-booked :
      (live : Option Live) (immediate : Bool) {e : Event} {s' : Db} {seen' : Seen}
      → reconcile_giver id c u live ts immediate seen s ≡ (seen', (ok (some e), s'))
      → (burn : ℤ) × (github_burn live ≡ some burn) × BooksBecause s id c u burn ts immediate e s'
  unfolding reconcile_giver
  reconcile_giver-booked live immediate h =
      let (burn, known, booked) = reconcile_known_inv (github_burn live) immediate h in
      (burn, known, reconcile_burn_because s id c u burn ts immediate booked)

  reconcile_known-none :
      (o : Option ℤ) (immediate : Bool)
      → ((b : ℤ) → o ≡ some b → drift_of s c u b ≤ℤ pos 0)
      → (reconcile_known id c u o ts immediate seen s).1.0 ≡ ok none
  reconcile_known-none none immediate h = refl
  reconcile_known-none (some b) true h = reconcile_burn-none s id c u b ts true (h b refl)
  reconcile_known-none (some b) false h = elim (Bool-cases (is_throttled (seen_at seen c u) ts)) [
    | inl e ↦ rw e refl
    | inr e ↦ rw e (reconcile_burn-none s id c u b ts false (h b refl))
  ]

module _ (s : Db) (id : EventId) (c : CycleId) (u : UserId) (ts : Time) (seen : Seen) where
  at_once_limit : (burn : ℤ) (limit : Option ℤ) → Because s id c u burn ts true limit → limit ≡ none
  at_once_limit burn limit (at_once _) = refl
  at_once_limit burn limit (confirmed gc p t h _ _ _ _ _) = absurd (ground arith)

  no_drift_left :
      (burn : ℤ) (limit : Option ℤ) {e : Event} {s' : Db}
      → limit ≡ none
      → Books s id c u burn ts limit e s'
      → drift_of s' c u burn ≤ℤ pos 0
  no_drift_left burn limit h b = rw (b.attributed, b.amount, h) (omega int_laws)

  same_burn : {o : Option ℤ} {a b : ℤ} → o ≡ some a → o ≡ some b → a ≡ b
  same_burn h k = cc

  -- After an immediate reconcile that books, a second one on the same live data books nothing,
  -- whether immediate or not, at any time.
  pub reconcile_giver_converges :
      (live : Option Live) {e : Event} {s' : Db} {seen' : Seen}
      → reconcile_giver id c u live ts true seen s ≡ (seen', (ok (some e), s'))
      → (id' : EventId) (ts' : Time) (immediate : Bool) (seen'' : Seen)
      → (reconcile_giver id' c u live ts' immediate seen'' s').1.0 ≡ ok none
  unfolding reconcile_giver
  reconcile_giver_converges live {s' = s'} h id' ts' immediate seen'' =
      let (burn, known, why) = reconcile_giver-booked s id c u ts seen live true h in
      let settled = no_drift_left burn why.0 (at_once_limit burn why.0 why.1) why.2 in
      reconcile_known-none s' id' c u ts' seen'' (github_burn live) immediate
        (λ b e. rw (same_burn known e) at settled)
