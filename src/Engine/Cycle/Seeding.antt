-- ===== src/Engine/Cycle/Seeding.antt =====
-- Seeding the rows of a new month always returns, and writes no cycle.
use ctc.Common.{
  ℕ, ◌≡◌, refl, inl, inr, Bool-cases, Option, none, some, Option-cases, List, [], ◌∷◌, is_none,
  contains, ◌∙◌, ◌+ℤ◌, ℤ, pos, leb_ℤ, if◌then◌else◌,
}
use ctc.Domain.{UserId, CycleId, GiverCycle, nano}
use ctc.Store.{
  Db, GiverPat, ok, >>=-ok, get_giver_cycle, with_row, with_baseline, upsert_giver_cycle,
  set_burn_baseline,
}
use ctc.Engine.Cycle.{percent, row_before, burn_before, carry, seed_row, seed_one, seed}

module _ (cycle_id : CycleId) (prev : Option CycleId) (dead : List UserId) (pct : ℕ) where
  carry-cycles :
      (giver_id : UserId) (gc : Option GiverCycle) (burn : ℤ) (s : Db)
      → (s' : Db) × (carry cycle_id giver_id gc burn s ≡ (ok tt, s')) × (s'.cycles ≡ s.cycles)
  unfolding set_burn_baseline with_baseline
  carry-cycles giver_id none burn s = (s, refl, refl)
  carry-cycles giver_id (some gc) burn s = elim (Option-cases gc.burn_baseline) [
    | inl e ↦ (s, rw e refl, refl)
    | inr (b, e) ↦ (with_baseline s cycle_id giver_id (b +ℤ burn), rw e refl, refl)
  ]

  -- Seeding a row returns, and leaves the cycles.
  seed_row-cycles :
      (giver_id : UserId) (ent : ℤ) (s : Db)
      → (s' : Db) × (seed_row cycle_id prev dead pct giver_id ent s ≡ (ok tt, s'))
        × (s'.cycles ≡ s.cycles)
  unfolding seed_row upsert_giver_cycle set_burn_baseline with_row with_baseline
  seed_row-cycles giver_id ent s = elim (Bool-cases (leb_ℤ ent (pos 0))) [
    | inl e ↦ (s, rw e refl, refl)
    | inr e ↦ elim (Bool-cases (is_none (get_giver_cycle s cycle_id giver_id))) [
      | inl new ↦
          let quota = nano ent in
          let pledge = if contains dead giver_id then pos 0 else percent quota pct in
          let s₁ = with_row s cycle_id giver_id quota pledge in
          let (s', ran, same) =
            carry-cycles giver_id (row_before s prev giver_id) (burn_before s₁ prev giver_id) s₁ in
          (s', rw (e, new) ran, same)
      | inr there ↦ (s, rw (e, there) refl, refl)
    ]
  ]

  seed_one-cycles :
      (giver_id : UserId) (ent : Option ℤ) (s : Db)
      → (s' : Db) × (seed_one cycle_id prev dead pct giver_id ent s ≡ (ok tt, s'))
        × (s'.cycles ≡ s.cycles)
  unfolding seed_one
  seed_one-cycles giver_id none s = (s, refl, refl)
  seed_one-cycles giver_id (some ent) s = seed_row-cycles giver_id ent s

  -- So does seeding every row.
  pub seed-cycles :
      (ps : List GiverPat) (s : Db)
      → (s' : Db) × (seed cycle_id prev dead pct ps s ≡ (ok tt, s')) × (s'.cycles ≡ s.cycles)
  unfolding seed
  seed-cycles [] s = (s, refl, refl)
  seed-cycles (p ∷ ps) s =
      let (s₁, ran, same) = seed_one-cycles p.user_id p.entitlement s in
      let (s₂, rest, same_too) = seed-cycles ps s₁ in
      (
        s₂,
        >>=-ok (seed_one cycle_id prev dead pct p.user_id p.entitlement)
              (λ _. seed cycle_id prev dead pct ps) ran
            ∙ rest,
        same_too ∙ same,
      )
