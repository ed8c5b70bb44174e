-- ===== src/Examples/Gating.antt =====
-- The gate on the team's tables, with no live data.
use ctc.Common.{
  ◌≡◌, refl, Option, none, some, [], contains, filter, find, find_first, sort_by, insert_by,
  sum_where, ◌+ℤ◌, ◌-ℤ◌,
}
use ctc.Store.{active_cycle, get_grant, get_request, grants_for_recipient}
use ctc.Store.Query.{leaf_charge, used, grant_consumed, transferred_out, contributed_out}
use ctc.Engine.{grant_remaining, left_of_grant, active_grants}
use ctc.Engine.Cycle.{ensure_active_cycle}
use ctc.Quota.{get}
use ctc.Routing.{Source, is_dead}
use ctc.Routing.Select.{first_grant, grant_source, select_source, givers_and_consumers}
use ctc.Routing.Pin.{pinned_source, usable_pin, sweep_expired_pins}
use ctc.Proxy.Gate.{
  Outside, GateState, Verdict, blocked, admitted, donors_of, candidate_givers, reconcile_candidate,
  prefetch, choose, gate,
}
use ctc.Proxy.Gate.Sound.{IsSound, gate-IsSound}
use ctc.Examples.{funded_team}
use ctc.Examples.Attribution.{registry, user, by_chip}
use ctc.Examples.Rolling.{short_months}

abbrev world : Outside
world = record {
  fetch_user = λ n pat. none;
  new_id = λ n. 90;
  now = 60;
  cal = short_months;
  pct = 10;
}

abbrev start : GateState
start = record { db = funded_team; seen = []; cache = λ _. none; pins = [] }

-- What the gate computes with.
program : Unit {0}
unfolding gate choose prefetch reconcile_candidate candidate_givers donors_of get
    ensure_active_cycle active_cycle pinned_source usable_pin sweep_expired_pins select_source
    grant_source first_grant is_dead active_grants grant_remaining left_of_grant get_grant
    get_request grants_for_recipient grant_consumed transferred_out contributed_out leaf_charge used
    contains filter find find_first sort_by insert_by sum_where ◌+ℤ◌ ◌-ℤ◌
program = tt

abbrev source_in : Verdict → Option Source
source_in (admitted cycle consumer health source) = some source
source_in _ = none

let_through :
    source_in (gate world registry 60 givers_and_consumers (some user) (some 3) start).0
    ≡ some by_chip
unfolding program
let_through = refl

no_consumer : (gate world registry 60 givers_and_consumers none none start).0 ≡ blocked 401
unfolding program
no_consumer = refl

gate-IsSound_example :
    IsSound world registry 60 givers_and_consumers
      (some user)
      (some 3)
      start
      (gate world registry 60 givers_and_consumers (some user) (some 3) start).0
gate-IsSound_example =
    gate-IsSound world registry 60 givers_and_consumers (some user) (some 3) start
