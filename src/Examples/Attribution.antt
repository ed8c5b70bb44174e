-- ===== src/Examples/Attribution.antt =====
-- Selecting and pinning a source, run on the team's tables.
use ctc.Common.{
  ◌≡◌, refl, All, true, false, none, some, [], ◌∷◌, ◌+ℤ◌, ◌-ℤ◌, contains, filter, find, sort_by,
  insert_by, sum_where, arith,
}
use ctc.Domain.{grant}
use ctc.Store.{valid, get_grant, get_request, grants_for_recipient}
use ctc.Store.Query.{leaf_charge, used, grant_consumed, transferred_out, contributed_out}
use ctc.Engine.{grant_remaining, left_of_grant, active_grants}
use ctc.Routing.{Source, ConsumerIdentity, Health, is_dead}
use ctc.Routing.Select.{
  PatRegistry, givers_and_consumers, first_grant, grant_source, select_source, bucket_has_headroom,
}
use ctc.Routing.Select.Gate.{IsUsable, select_source-IsUsable}
use ctc.Routing.Select.Exhausted.{IsSkipped, select_source-none}
use ctc.Routing.Pin.{SessionKey, pin_source, pinned_source}
use ctc.Routing.Pin.Reuse.{pinned_source-pin_source, pinned_source-pin_source_late}
use ctc.Examples.{funded_team}

abbrev pub registry : PatRegistry
registry = record {
  pat_for = λ u. some u;
  list_givers = 10 ∷ [];
  pat_health_status = λ _. some valid;
}

abbrev pub unknown : Health
unknown = λ _. none

abbrev pub user : ConsumerIdentity
user = record { user_id = 20; is_giver = false }

abbrev pub by_chip : Source
by_chip = record { bucket = grant; giver_id = 10; pat = 10; grant_id = some 7 }

abbrev session : SessionKey
session = (20, 1)

-- What a selection computes with.
program : Unit {0}
unfolding select_source grant_source first_grant bucket_has_headroom is_dead active_grants
    grant_remaining left_of_grant get_grant get_request grants_for_recipient grant_consumed
    transferred_out contributed_out leaf_charge used contains filter find sort_by insert_by
    sum_where ◌+ℤ◌ ◌-ℤ◌
program = tt

select_run :
    select_source registry unknown [] givers_and_consumers funded_team 1 user ≡ some by_chip
unfolding program
select_run = refl

-- An excluded grant is passed over.
select_excluded :
    select_source registry unknown (7 ∷ []) givers_and_consumers funded_team 1 user ≡ none
unfolding program
select_excluded = refl

select_source-IsUsable_example : IsUsable registry unknown [] funded_team 1 by_chip
select_source-IsUsable_example =
    select_source-IsUsable registry unknown [] funded_team 1 givers_and_consumers user select_run

chip_headroom : bucket_has_headroom funded_team 1 by_chip ≡ true
unfolding program
chip_headroom = refl

chip_alive : is_dead unknown 10 ≡ false
unfolding program
chip_alive = refl

pinned_source-pin_source_example :
    (pinned_source
      (some session)
      funded_team
      (some 1)
      unknown
      559
      (pin_source (some session) by_chip (some 2) 500 [])).0
    ≡ some by_chip
pinned_source-pin_source_example =
    pinned_source-pin_source session by_chip (some 2) 500 559 funded_team unknown [] 1 (omega arith)
      chip_alive chip_headroom

pinned_source-pin_source_late_example :
    (pinned_source
      (some session)
      funded_team
      none
      unknown
      2300
      (pin_source (some session) by_chip (some 9000) 500 [])).0
    ≡ none
pinned_source-pin_source_late_example =
    pinned_source-pin_source_late session by_chip (some 9000) 500 2300 funded_team unknown [] none
      (omega arith)

select_source-none_example :
    All (IsSkipped registry unknown (7 ∷ [])) (active_grants funded_team 1 20)
select_source-none_example =
    select_source-none registry unknown (7 ∷ []) funded_team 1 givers_and_consumers user refl
      select_excluded
