-- ===== src/Examples/Sweeping.antt =====
-- Checks of the team's one PAT: by a GitHub that refuses it, and by one that cannot be reached.
use ctc.Common.{ℕ, ◌+◌, ◌≡◌, refl, true, none, some, [], find, find_first}
use ctc.Store.{expired_pat, unexpected_status}
use ctc.Store.Pats.{get_giver_pat}
use ctc.Engine.{is_dead_verdict, dead_pat_givers}
use ctc.Health.{
  Checker, State, unreachable, classify, classify_copilot_api, copilot_api_verdict, display_status,
  check_one, run_once,
}
use ctc.Health.Outage.{IsIndefinite, verdicts, run_once_outage}
use ctc.Health.Dead.{Withdrawn, check_one-Withdrawn}
use ctc.Examples.{host_row, host_pat, team}
use ctc.Examples.Quotas.{host-IsPledged}
use ctc.Examples.Rolling.{short_months}

abbrev refused : Checker
refused = record {
  pat_for = λ u. some u;
  fetch_raw = λ n pat. some (401, none);
  fetch_copilot_api = none;
  now = λ n. 60;
  new_id = λ n. 90 + n;
  has_engine = true;
  cal = short_months;
  pct = 10;
}

abbrev down : Checker
down = record refused { fetch_raw = λ n pat. some (502, none) }

abbrev start : State
start = record { seen = []; db = team }

-- What a verdict computes with.
program : Unit {0}
unfolding classify classify_copilot_api copilot_api_verdict display_status is_dead_verdict
    get_giver_pat find find_first IsIndefinite
program = tt

found : get_giver_pat team 10 ≡ some host_pat
unfolding program
found = refl

dead : is_dead_verdict (some expired_pat) ≡ true
unfolding program
dead = refl

verdict : classify 401 none ≡ some expired_pat
unfolding program
verdict = refl

-- An error hides the verdict that stays below it.
shown :
    display_status (some (record host_pat { health_error = some (unexpected_status 502) }))
    ≡ some unreachable
unfolding program
shown = refl

check_one-Withdrawn_example :
    Withdrawn refused 0 10 1 expired_pat host_row start (check_one refused 0 10 (some 1) start)
check_one-Withdrawn_example =
    check_one-Withdrawn refused 0 10 1 start refl refl refl verdict dead host-IsPledged found

down-IsIndefinite : (n : ℕ) (pat : ℕ) → IsIndefinite (down.fetch_raw n pat)
unfolding program
down-IsIndefinite n pat = refl

run_once_outage_example :
    (verdicts (run_once down 0 1 start).1.db.giver_pats ≡ verdicts team.giver_pats)
    × (dead_pat_givers (run_once down 0 1 start).1.db ≡ dead_pat_givers team)
run_once_outage_example = run_once_outage down down-IsIndefinite 0 1 start
