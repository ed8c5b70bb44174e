-- ===== src/Examples/Funding.antt =====
-- Chip-ins and consumption, run on the team's tables.
use ctc.Common.{
  ℕ, ◌≡◌, ◌<◌, refl, false, Option, none, some, [], ◌∷◌, pos, ◌+ℤ◌, ◌-ℤ◌, ◌≤ℤ◌, ◌<ℤ◌, arith, min_ℤ,
  max_ℤ, sum_where, find, find_first, ◌↔◌,
}
use ctc.Domain.{own, grant, Request, Grant, Event, is_closed, derive_status}
use ctc.Domain.Status.{is_closed-derive_status_iff}
use ctc.Store.{Db, ok, err, insufficient_credit, get_request, get_grant, get_giver_cycle, get_event}
use ctc.Store.Query.{
  request_funded, own_consumed, bypass_consumed, granted_out, granted_out_by_source, donor_charge,
  moved, leaf_charge, used, grant_consumed, transferred_out, contributed_out,
}
use ctc.Store.Valid.{IsValid}
use ctc.Store.Events.{ComeFromOthers}
use ctc.Engine.{personal_remaining, grant_remaining, left_of_grant}
use ctc.Engine.Market.{fund_request}
use ctc.Engine.Market.Funding.{fund_request-exact}
use ctc.Engine.Consume.{Tags, event_of, record_consumption, check_bucket, chosen_grant}
use ctc.Engine.Consume.Limits.{record_consumption-own, record_consumption-grant}
use ctc.Examples.{team, chip, funded_team}

-- Everything that a run of the engine computes with.
program : Unit {0}
unfolding fund_request get_request get_grant get_giver_cycle get_event request_funded
    personal_remaining grant_remaining left_of_grant own_consumed bypass_consumed granted_out
    granted_out_by_source donor_charge moved leaf_charge used grant_consumed transferred_out
    contributed_out record_consumption check_bucket chosen_grant is_closed derive_status sum_where
    find find_first min_ℤ max_ℤ ◌+ℤ◌ ◌-ℤ◌
program = tt

fund_run : fund_request 7 5 10 (pos 100) 50 team ≡ (ok chip, funded_team)
unfolding program
fund_run = refl

fund_request-exact_example :
    (r : Request) × (get_request team 5 ≡ some r)
    × (request_funded funded_team 5 ≡ request_funded team 5 +ℤ pos 100)
    × (request_funded funded_team 5 ≤ℤ r.amount_needed)
    × (personal_remaining funded_team r.cycle_id 10
        ≡ personal_remaining team r.cycle_id 10 -ℤ pos 100)
    × (pos 0 ≤ℤ personal_remaining funded_team r.cycle_id 10)
    × (pos 0 <ℤ pos 100)
    × (pos 100 ≤ℤ pos 100)
fund_request-exact_example = fund_request-exact team 7 5 10 (pos 100) 50 fund_run

is_closed-derive_status_iff_example :
    (is_closed (derive_status (pos 100) (pos 300) 500 50 none) ≡ false)
    ↔ ((◌≡◌ {A = Option ℕ} none none) × (pos 100 <ℤ pos 300) × (50 < 500))
is_closed-derive_status_iff_example = is_closed-derive_status_iff (pos 100) (pos 300) 500 50 none

abbrev no_tags : Tags
no_tags = record { run_tag = none; model = none; exchange_id = none }

abbrev own_use : Event
own_use = event_of 1 1 10 10 own (pos 250) none 60 no_tags

abbrev after_own_use : Db
after_own_use = record team { consumption_events = own_use ∷ [] }

own_run :
    record_consumption 1 1 10 10 own (pos 250) none 60 false no_tags team
    ≡ (ok own_use, after_own_use)
unfolding program
own_run = refl

record_consumption-own_example :
    (◌≡◌ {A = ℕ} 10 10)
    × (personal_remaining after_own_use 1 10 ≡ personal_remaining team 1 10 -ℤ pos 250)
    × (pos 0 ≤ℤ personal_remaining after_own_use 1 10)
record_consumption-own_example =
    record_consumption-own team 1 1 10 (pos 250) none 60 no_tags 10 own_run

abbrev draw : Event
draw = event_of 2 1 20 10 grant (pos 40) (some 7) 60 no_tags

abbrev after_draw : Db
after_draw = record funded_team { consumption_events = draw ∷ [] }

draw_run :
    record_consumption 2 1 20 10 grant (pos 40) (some 7) 60 false no_tags funded_team
    ≡ (ok draw, after_draw)
unfolding program
draw_run = refl

pub funded_team-IsValid : IsValid funded_team
unfolding find
funded_team-IsValid = record {
  events = tt;
  grants = ((omega arith, tt), tt);
  found = (refl, tt);
  contributions = tt;
}

-- The chip-in is no re-donation.
chip_from_nobody : ComeFromOthers funded_team.grants
chip_from_nobody = ((λ h. absurd (cc)), tt)

record_consumption-grant_example :
    (i : ℕ) × (row : Grant) × (some 7 ≡ some i)
    × (get_grant funded_team i ≡ some row)
    × (row.donor_id ≡ 10)
    × (grant_remaining after_draw 1 i ≡ grant_remaining funded_team 1 i -ℤ pos 40)
    × (pos 0 ≤ℤ grant_remaining after_draw 1 i)
record_consumption-grant_example =
    record_consumption-grant funded_team 2 1 20 (pos 40) (some 7) 60 no_tags 10 chip_from_nobody
      draw_run

-- A draw that passes what is left of the grant is refused, and nothing is written.
draw_too_much :
    record_consumption 2 1 20 10 grant (pos 101) (some 7) 60 false no_tags funded_team
    ≡ (err insufficient_credit, funded_team)
unfolding program
draw_too_much = refl
