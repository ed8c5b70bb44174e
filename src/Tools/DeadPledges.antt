-- ===== src/Tools/DeadPledges.antt =====
-- tools/retract_dead_pledges.py: find_dead_pledges and the loop that applies the report.
use ctc.Common.{
  ℕ, ◌+◌, Bool, true, not, ◌&&◌, Option, none, some, List, [], ◌∷◌, ℤ, pos, ◌-ℤ◌, leb_ℤ, max_ℤ,
  contains, if◌then◌else◌,
}
use ctc.Domain.{UserId, CycleId, GiverCycle}
use ctc.Store.{Db, Result, ok, err, HealthStatus, GiverPat, all_giver_cycles}
use ctc.Store.Pats.{get_giver_pat}
use ctc.Engine.{dead_pat_givers, pledge_used}
use ctc.Engine.Pledge.{retract_pledge}

-- The login is left out.
pub record DeadPledge : Type 0 where
  pub giver_id : UserId
  pub health : Option HealthStatus
  pub pledge : ℤ
  pub used : ℤ
  pub retractable : ℤ

-- `only is None or giver_id in only`
abbrev pub is_selected : Option (List UserId) → UserId → Bool
is_selected none i = true
is_selected (some only) i = contains only i

abbrev pub health_of : Option GiverPat → Option HealthStatus
health_of none = none
health_of (some p) = p.health_status

unfoldable pub dead_pledges_in :
    Db → CycleId → Option (List UserId) → List GiverCycle → List DeadPledge
dead_pledges_in s cycle_id only [] = []
dead_pledges_in s cycle_id only (gc ∷ gcs) =
    let rest = dead_pledges_in s cycle_id only gcs in
    let retractable = max_ℤ (pos 0) (gc.pledge -ℤ pledge_used s cycle_id gc.giver_id) in
    if contains (dead_pat_givers s) gc.giver_id
      && is_selected only gc.giver_id
      && not (leb_ℤ retractable (pos 0))
    then record {
      giver_id = gc.giver_id;
      health = health_of (get_giver_pat s gc.giver_id);
      pledge = gc.pledge;
      used = pledge_used s cycle_id gc.giver_id;
      retractable = retractable;
    }
      ∷ rest
    else rest

unfoldable pub find_dead_pledges : Db → CycleId → Option (List UserId) → List DeadPledge
find_dead_pledges s cycle_id only = dead_pledges_in s cycle_id only (all_giver_cycles s cycle_id)

-- The loop of `--apply`: a retraction that raises is counted and the loop goes on.
abbrev pub count_failure : Result ℤ → ℕ → ℕ
count_failure (ok n) failures = failures
count_failure (err e) failures = failures + 1

unfoldable pub apply_all : CycleId → List DeadPledge → ℕ × Db → ℕ × Db
apply_all cycle_id [] (failures, s) = (failures, s)
apply_all cycle_id (r ∷ rows) (failures, s) =
    let (result, t) = retract_pledge cycle_id r.giver_id s in
    apply_all cycle_id rows (count_failure result failures, t)
