-- ===== src/Engine/Pledge/Rows.antt =====
-- What upsert_giver_cycle writes: the row that it names, and no balance of the events and grants.
use ctc.Common.{
  ◌≡◌, refl, ==_refl, Option, none, some, ℤ, find_first-update_where, find_first-append_new,
}
use ctc.Domain.{UserId, CycleId, GiverCycle}
use ctc.Store.{Db, is_row, with_row, get_giver_cycle, get_request}
use ctc.Store.Query.{
  pool_consumed_from, pool_granted_out, granted_out_by_source, donor_charge, moved, leaf_charge,
  used,
}
use ctc.Engine.{pledge_used}

-- The row that an upsert leaves behind.
unfoldable pub written : CycleId → UserId → ℤ → ℤ → Option GiverCycle → GiverCycle
written c u quota pledge none = record {
  cycle_id = c;
  giver_id = u;
  quota = quota;
  pledge = pledge;
  burn_baseline = none;
  pending_drift = none;
  pending_drift_at = none;
}
written c u quota pledge (some gc) = record gc { quota = quota; pledge = pledge }

module _ (s : Db) (c : CycleId) (u : UserId) (quota pledge : ℤ) where
  get_giver_cycle-with_row_of :
      (o : Option GiverCycle)
      → get_giver_cycle s c u ≡ o
      → get_giver_cycle (with_row s c u quota pledge) c u ≡ some (written c u quota pledge o)
  unfolding get_giver_cycle with_row written
  get_giver_cycle-with_row_of none h =
      rw h (rw (find_first-append_new (is_row c u) s.giver_cycles _ h, ==_refl c, ==_refl u) refl)
  get_giver_cycle-with_row_of (some gc) h = rw h (
      find_first-update_where (is_row c u) (λ r. record r { quota = quota; pledge = pledge })
        s.giver_cycles (λ y k. k) h)

  -- An upsert writes the quota and the pledge of its row and keeps the reconcile columns.
  pub get_giver_cycle-with_row :
      get_giver_cycle (with_row s c u quota pledge) c u
      ≡ some (written c u quota pledge (get_giver_cycle s c u))
  get_giver_cycle-with_row = get_giver_cycle-with_row_of (get_giver_cycle s c u) refl

  pub pledge_used-with_row :
      (d : CycleId) (v : UserId) → pledge_used (with_row s c u quota pledge) d v ≡ pledge_used s d v
  unfolding pledge_used pool_consumed_from pool_granted_out granted_out_by_source donor_charge moved
      leaf_charge used get_request with_row
  pledge_used-with_row d v = refl
