-- ===== src/Engine/Pledge.antt =====
-- ctc/accounting/engine.py: set_quota, sync_quota_ceiling, set_pledge and retract_pledge.
use ctc.Common.{
  Bool, true, false, Option, none, some, ℤ, pos, ◌-ℤ◌, ltb_ℤ, leb_ℤ, min_ℤ, ◌||◌, if◌then◌else◌,
}
use ctc.Domain.{UserId, CycleId, GiverCycle, nano}
use ctc.Store.{
  Db, Result, ok, err, Action, invalid_pledge, pure, gets, raise_if, transaction, ◌>>=◌, ◌>>◌,
  get_giver_cycle, upsert_giver_cycle,
}
use ctc.Engine.{pledge_used}
pub mod Rows
pub mod Range
pub mod Retract
pub mod Ceiling

-- `min(gc.pledge, quota) if gc else 0`
abbrev clipped : Option GiverCycle → ℤ → ℤ
clipped none quota = pos 0
clipped (some gc) quota = min_ℤ gc.pledge quota

unfoldable pub set_quota : CycleId → UserId → ℤ → Action (Unit {0})
unfolding transaction upsert_giver_cycle
set_quota cycle_id giver_id quota = do
  raise_if (ltb_ℤ quota (pos 0)) invalid_pledge
  transaction do
    consumed ← gets (λ s. pledge_used s cycle_id giver_id)
    raise_if (ltb_ℤ quota consumed) invalid_pledge
    gc ← gets (λ s. get_giver_cycle s cycle_id giver_id)
    upsert_giver_cycle cycle_id giver_id quota (clipped gc quota)

-- The live quota that GitHub reports, with the keys that the accounting reads.
pub record Live : Type 0 where
  pub entitlement : Option ℤ
  pub remaining : Option ℤ

-- `try: self.set_quota(...) except InvalidPledge: pass`
abbrev best_effort : Result (Unit {0}) × Db → Result (Unit {0}) × Db
best_effort (err invalid_pledge, s) = (ok tt, s)
best_effort (r, s) = (r, s)

-- Past the guards on `live`: raise the row's quota to `ent_nano` if it is higher.
unfoldable pub raise_ceiling : CycleId → UserId → ℤ → Option GiverCycle → Action (Unit {0})
raise_ceiling cycle_id giver_id ent_nano none s = pure tt s
raise_ceiling cycle_id giver_id ent_nano (some gc) s =
    if leb_ℤ ent_nano gc.quota
    then pure tt s
    else best_effort (set_quota cycle_id giver_id ent_nano s)

abbrev pub with_entitlement : CycleId → UserId → Option ℤ → Action (Unit {0})
with_entitlement cycle_id giver_id none = pure tt
with_entitlement cycle_id giver_id (some ent) = if ltb_ℤ ent (pos 0) then pure tt else do
  gc ← gets (λ s. get_giver_cycle s cycle_id giver_id)
  raise_ceiling cycle_id giver_id (nano ent) gc

unfoldable pub sync_quota_ceiling : CycleId → UserId → Option Live → Action (Unit {0})
unfolding raise_ceiling
sync_quota_ceiling cycle_id giver_id none = pure tt
sync_quota_ceiling cycle_id giver_id (some live) =
    with_entitlement cycle_id giver_id live.entitlement

-- `gc.quota if gc else 0`
abbrev pub quota_or_zero : Option GiverCycle → ℤ
quota_or_zero none = pos 0
quota_or_zero (some gc) = gc.quota

unfoldable pub set_pledge : CycleId → UserId → ℤ → Action (Unit {0})
unfolding transaction upsert_giver_cycle
set_pledge cycle_id giver_id pledge = transaction do
  gc ← gets (λ s. get_giver_cycle s cycle_id giver_id)
  consumed ← gets (λ s. pledge_used s cycle_id giver_id)
  raise_if (ltb_ℤ pledge consumed || ltb_ℤ (quota_or_zero gc) pledge) invalid_pledge
  upsert_giver_cycle cycle_id giver_id (quota_or_zero gc) pledge

unfoldable pub retract_pledge : CycleId → UserId → Action ℤ
retract_pledge cycle_id giver_id = do
  floor ← gets (λ s. pledge_used s cycle_id giver_id)
  gc ← gets (λ s. get_giver_cycle s cycle_id giver_id)
  elim gc [
    | none ↦ pure (pos 0)
    | some row ↦
        if leb_ℤ row.pledge floor
        then pure (pos 0)
        else (set_pledge cycle_id giver_id floor >> pure (row.pledge -ℤ floor))
  ]
