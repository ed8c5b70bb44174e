-- ===== src/Engine/Pledge/Range.antt =====
-- The pledge of a giver stays between what was drawn from it and the giver's quota.
use ctc.Common.{◌≡◌, ◌↔◌, refl, Option, none, some, ℤ, ◌≤ℤ◌, min_ℤ, min_ℤ_lem, arith}
use ctc.Domain.{UserId, CycleId, GiverCycle}
use ctc.Store.{Db, ok, with_row, get_giver_cycle}
use ctc.Engine.{pledge_used}
use ctc.Engine.Pledge.{set_quota, set_pledge, quota_or_zero}
use ctc.Engine.Pledge.Rows.{written, get_giver_cycle-with_row, pledge_used-with_row}

-- A giver's row whose pledge covers what was drawn from it and is covered by the quota.
pub record IsPledged (s : Db) (c : CycleId) (u : UserId) (row : GiverCycle) : Type 0 where
  pub found : get_giver_cycle s c u ≡ some row
  pub covers : pledge_used s c u ≤ℤ row.pledge
  pub within : row.pledge ≤ℤ row.quota

module _ (s : Db) (c : CycleId) (u : UserId) where
  set_pledge_inv :
      (p : ℤ) {s' : Db}
      → set_pledge c u p s ≡ (ok tt, s')
      → (s' ≡ with_row s c u (quota_or_zero (get_giver_cycle s c u)) p)
        × (pledge_used s c u ≤ℤ p)
        × (p ≤ℤ quota_or_zero (get_giver_cycle s c u))
  unfolding set_pledge
  set_pledge_inv p h = ground arith

  set_quota_inv :
      (q : ℤ) {s' : Db} (gc : GiverCycle)
      → get_giver_cycle s c u ≡ some gc
      → set_quota c u q s ≡ (ok tt, s')
      → (s' ≡ with_row s c u q (min_ℤ gc.pledge q)) × (pledge_used s c u ≤ℤ q)
  unfolding set_quota
  set_quota_inv q gc e h = ground arith

  -- The row after an upsert, whichever row was there before.
  pub row_fields :
      (o : Option GiverCycle) (q p : ℤ)
      → ((written c u q p o).quota ≡ q) × ((written c u q p o).pledge ≡ p)
  unfolding written
  row_fields none q p = (refl, refl)
  row_fields (some gc) q p = (refl, refl)

  -- A row in range with the given quota and pledge.
  abbrev pub Pledges : Db → ℤ → ℤ → Type 0
  Pledges s' q p = (row : GiverCycle) × IsPledged s' c u row × (row.quota ≡ q) × (row.pledge ≡ p)

  pub Pledges-with_row :
      (q p : ℤ) → pledge_used s c u ≤ℤ p → p ≤ℤ q → Pledges (with_row s c u q p) q p
  Pledges-with_row q p lo hi =
      let (eq, ep) = row_fields (get_giver_cycle s c u) q p in
      (
        written c u q p (get_giver_cycle s c u),
        record {
          found = get_giver_cycle-with_row s c u q p;
          covers = rw (ep, pledge_used-with_row s c u q p c u) lo;
          within = rw (eq, ep) hi;
        },
        eq,
        ep,
      )

  -- A pledge is accepted exactly when it covers what was already drawn from it and is within the
  -- quota.
  pub set_pledge-ok_iff :
      (p : ℤ)
      → ((set_pledge c u p s).0 ≡ ok tt)
        ↔ ((pledge_used s c u ≤ℤ p) × (p ≤ℤ quota_or_zero (get_giver_cycle s c u)))
  unfolding set_pledge
  set_pledge-ok_iff p = ground arith

  -- An accepted pledge leaves a row with that pledge and the old quota, whose pledge covers what was
  -- drawn from it and is within the quota.
  pub set_pledge-Pledges :
      (p : ℤ) {s' : Db}
      → set_pledge c u p s ≡ (ok tt, s')
      → Pledges s' (quota_or_zero (get_giver_cycle s c u)) p
  set_pledge-Pledges p h =
      let (after, lo, hi) = set_pledge_inv p h in rw after (Pledges-with_row _ p lo hi)

  min_between : (a b l : ℤ) → l ≤ℤ a → l ≤ℤ b → (l ≤ℤ min_ℤ a b) × (min_ℤ a b ≤ℤ b)
  min_between a b l h k = grind (arith, min_ℤ_lem a b)

  -- From a row in range, a new quota that is accepted leaves a row in range, with that quota and
  -- with the pledge cut down to the quota where it was above.
  pub set_quota-Pledges :
      (q : ℤ) {row : GiverCycle} {s' : Db}
      → IsPledged s c u row
      → set_quota c u q s ≡ (ok tt, s')
      → Pledges s' q (min_ℤ row.pledge q)
  set_quota-Pledges q {row} v h =
      let (after, lo) = set_quota_inv q row v.found h in
      let (l, r) = min_between row.pledge q (pledge_used s c u) v.covers lo in
      rw after (Pledges-with_row q (min_ℤ row.pledge q) l r)
