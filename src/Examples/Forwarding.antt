-- ===== src/Examples/Forwarding.antt =====
-- The forward loop, on an upstream that refuses the first giver.
use ctc.Common.{
  zero, suc, ◌≡◌, ◌≤◌, refl, false, none, some, List, [], ◌∷◌, contains, length, filter, find,
  sort_by, insert_by, sum_where, ◌+ℤ◌, ◌-ℤ◌, codes,
}
use ctc.Domain.{Grant}
use ctc.Store.{Db, get_grant, get_request, grants_for_recipient}
use ctc.Store.Query.{leaf_charge, used, grant_consumed, transferred_out, contributed_out}
use ctc.Engine.{grant_remaining, left_of_grant, active_grants}
use ctc.Json.{obj, field, empty, str, null, lookup}
use ctc.Quota.{get, set_exhausted}
use ctc.Routing.{Source, is_dead}
use ctc.Routing.Select.{key_of, first_grant, grant_source, select_source, givers_and_consumers}
use ctc.Proxy.{is_quota_exceeded_402, is_falsy}
use ctc.Proxy.Failover.{
  World, Response, answered, Flight, forward, after_reply, after_402, reselect, next_source,
  excluding, reconcile_exhausted,
}
use ctc.Proxy.Failover.Sources.{AreNew, forward-AreNew}
use ctc.Examples.{team, chip}
use ctc.Examples.Attribution.{registry, unknown, user, by_chip}

abbrev other_chip : Grant
other_chip = record chip { id = 8; donor_id = 30 }

abbrev by_other_chip : Source
by_other_chip = record by_chip { giver_id = 30; pat = 30; grant_id = some 8 }

abbrev two_chips : Db
two_chips = record team { grants = chip ∷ other_chip ∷ [] }

abbrev refusal : Response
refusal = record { status = 402; content_type = []; body = codes "{}" }

abbrev answer : Response
answer = record { status = 200; content_type = []; body = codes "{}" }

-- The first attempt is refused for its quota and the second one is answered.
abbrev world : World
world = record {
  upstream = λ n sent. elim n [ zero ↦ answered refusal none | suc _ ↦ answered answer none ];
  post_session = λ n source. none;
  fetch_user = λ n pat. none;
  now = λ n. 60;
  new_id = λ n. 40;
  loads = λ t. some (obj (field "error" (obj (field "code" (str "quota_exceeded") empty)) empty));
  dumps = λ j. [];
}

abbrev start : Flight
start = record {
  db = two_chips;
  seen = [];
  cache = λ _. none;
  pins = [];
  source = by_chip;
  exclude = [];
  token = null;
  body = codes "{}";
}

-- What the loop computes with.
program : Unit {0}
unfolding forward after_reply after_402 reselect next_source excluding reconcile_exhausted get
    set_exhausted is_quota_exceeded_402 is_falsy lookup select_source grant_source first_grant
    is_dead active_grants grant_remaining left_of_grant get_grant get_request grants_for_recipient
    grant_consumed transferred_out contributed_out leaf_charge used contains filter find sort_by
    insert_by sum_where ◌+ℤ◌ ◌-ℤ◌
program = tt

sources_run :
    (forward world registry 60 givers_and_consumers unknown 1 user none 1 0 start).0
    ≡ by_chip ∷ by_other_chip ∷ []
unfolding program
sources_run = refl

new_source : contains start.exclude (key_of start.source) ≡ false
unfolding contains
new_source = refl

forward-AreNew_example :
    (later : List Source) × ((forward world registry 60 givers_and_consumers unknown 1 user none 1 0
        start).0
      ≡ by_chip ∷ later)
    × AreNew [] (by_chip ∷ later)
    × (length later ≤ 1)
forward-AreNew_example =
    forward-AreNew world registry 60 givers_and_consumers unknown 1 user none 1 0 start new_source
