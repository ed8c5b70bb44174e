-- ===== src/Engine/Pledge/Ceiling.antt =====
-- sync_quota_ceiling raises a quota to a higher live entitlement, never lowers one, and never raises
-- an error.
use ctc.Common.{
  ◌≡◌, refl, sym, leb_ℤ→le, leb_ℤ→lt, ◌⊎◌, inl, inr, Option, none, some, Bool-cases, ℤ, pos, negsuc,
  min_left, max_left, max_right, ◌≤ℤ◌, ◌<ℤ◌, ltb_ℤ, leb_ℤ, min_ℤ, max_ℤ, arith,
}
use ctc.Domain.{UserId, CycleId, GiverCycle, nano}
use ctc.Store.{Db, ok, err, invalid_pledge, with_row, get_giver_cycle}
use ctc.Engine.Pledge.{
  set_quota, with_entitlement, raise_ceiling, sync_quota_ceiling, Live, quota_or_zero,
}
use ctc.Engine.Pledge.Rows.{get_giver_cycle-with_row}
use ctc.Engine.Pledge.Range.{IsPledged, Pledges, Pledges-with_row, row_fields}

module _ (s : Db) (c : CycleId) (u : UserId) where
  set_quota_cases :
      (q : ℤ) (gc : GiverCycle)
      → get_giver_cycle s c u ≡ some gc
      → (set_quota c u q s ≡ (err invalid_pledge, s))
        ⊎ (set_quota c u q s ≡ (ok tt, with_row s c u q (min_ℤ gc.pledge q)))
  unfolding set_quota
  set_quota_cases q gc e = ground arith

  raise_ceiling_mono :
      (q : ℤ) (o : Option GiverCycle)
      → get_giver_cycle s c u ≡ o
      → ((raise_ceiling c u q o s).0 ≡ ok tt)
        × (quota_or_zero o ≤ℤ quota_or_zero (get_giver_cycle (raise_ceiling c u q o s).1 c u))
  unfolding raise_ceiling
  raise_ceiling_mono q none e = rw e (refl, omega arith)
  raise_ceiling_mono q (some gc) e = elim (Bool-cases (leb_ℤ q gc.quota)) [
    | inl low ↦ ground arith
    | inr high ↦ elim (set_quota_cases q gc e) [
      | inl refused ↦ ground arith
      | inr done ↦ ground (
        arith,
        get_giver_cycle-with_row s c u q (min_ℤ gc.pledge q),
        row_fields s c u (get_giver_cycle s c u) q (min_ℤ gc.pledge q),
      )
    ]
  ]

  with_entitlement_mono :
      (o : Option ℤ)
      → ((with_entitlement c u o s).0 ≡ ok tt)
        × (quota_or_zero (get_giver_cycle s c u)
            ≤ℤ quota_or_zero (get_giver_cycle (with_entitlement c u o s).1 c u))
  with_entitlement_mono none = (refl, omega arith)
  with_entitlement_mono (some ent) = elim (Bool-cases (ltb_ℤ ent (pos 0))) [
    | inl e ↦ rw e (refl, omega arith)
    | inr e ↦ rw e (raise_ceiling_mono (nano ent) (get_giver_cycle s c u) refl)
  ]

  nano_nonneg : (a : ℤ) → pos 0 ≤ℤ a → pos 0 ≤ℤ nano a
  unfolding nano
  nano_nonneg (pos n) h = omega arith
  nano_nonneg (negsuc n) h = absurd (omega arith)

  raise_ceiling-high :
      {row : GiverCycle} (q : ℤ)
      → IsPledged s c u row
      → row.quota <ℤ q
      → pos 0 ≤ℤ q
      → raise_ceiling c u q (some row) s ≡ (ok tt, with_row s c u q row.pledge)
  unfolding raise_ceiling set_quota
  raise_ceiling-high {row} q v h n = ground (arith, min_left row.pledge q)

  -- Whatever the live data, a sync returns with no error, and the giver's quota is at least what it
  -- was.
  pub sync_quota_ceiling_mono :
      (live : Option Live)
      → ((sync_quota_ceiling c u live s).0 ≡ ok tt)
        × (quota_or_zero (get_giver_cycle s c u)
            ≤ℤ quota_or_zero (get_giver_cycle (sync_quota_ceiling c u live s).1 c u))
  unfolding sync_quota_ceiling
  sync_quota_ceiling_mono none = (refl, omega arith)
  sync_quota_ceiling_mono (some live) = with_entitlement_mono live.entitlement

  -- From a row in range, live data with an entitlement that is not negative moves the quota to the
  -- larger of the two, and leaves the pledge as it was.
  pub sync_quota_ceiling-max :
      {row : GiverCycle} (live : Live) (ent : ℤ)
      → IsPledged s c u row
      → live.entitlement ≡ some ent
      → pos 0 ≤ℤ ent
      → (s' : Db) × (sync_quota_ceiling c u (some live) s ≡ (ok tt, s'))
        × Pledges s c u s' (max_ℤ row.quota (nano ent)) row.pledge
  unfolding sync_quota_ceiling
  sync_quota_ceiling-max {row} live ent v e h = elim (Bool-cases (leb_ℤ (nano ent) row.quota)) [
    | inl low ↦ (
      s,
      rw e (ground (arith, v.found)),
      (row, v, sym (max_left row.quota (nano ent) (leb_ℤ→le (nano ent) row.quota low)), refl),
    )
    | inr high ↦
        let above = leb_ℤ→lt (nano ent) row.quota high in
        (
          with_row s c u (nano ent) row.pledge,
          rw e (ground (arith, v.found, raise_ceiling-high (nano ent) v above (nano_nonneg ent h))),
          rw (max_right row.quota (nano ent) above)
              (Pledges-with_row s c u (nano ent) row.pledge v.covers (omega (arith, v.within))),
        )
  ]
