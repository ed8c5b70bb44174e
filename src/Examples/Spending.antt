-- ===== src/Examples/Spending.antt =====
-- A draw on the pool and a debit, run on the team's tables.
use ctc.Common.{
  ℕ, arith, ◌+◌, ◌≡◌, refl, true, false, none, some, [], ◌∷◌, pos, ◌+ℤ◌, ◌-ℤ◌, min_ℤ, max_ℤ,
  contains, filter, sum_where, sum_by, find, find_first, length, insert_by, sort_by,
}
use ctc.Domain.{own, grant, Request, Grant, Event, is_closed, derive_status}
use ctc.Store.{
  Db, ok, transaction, add_grant, get_request, get_grant, get_giver_cycle, get_event,
  all_giver_cycles, grants_for_recipient,
}
use ctc.Store.Query.{
  request_funded, own_consumed, bypass_consumed, consumed_total, granted_out, granted_out_by_source,
  donor_charge, moved, leaf_charge, used, grant_consumed, transferred_out, contributed_out,
  pool_consumed_from, pool_granted_out, drawn, origin_request, capacity, with_capacity,
  contributions_with_capacity,
}
use ctc.Engine.{
  personal_remaining, grant_remaining, left_of_grant, pledge_used, pledge_remaining,
  is_dead_verdict, dead_in, dead_pat_givers, live_giver_cycles, pool_available, capacities,
  givers_with_pool_capacity, active_grants,
}
use ctc.Engine.Pool.{pledge_draw, fill, draw_pool, fund_request_from_pool}
use ctc.Engine.Pool.Funding.{PoolFunds, fund_request_from_pool-PoolFunds}
use ctc.Engine.Consume.{Tags, event_of, record_consumption, check_bucket, chosen_grant}
use ctc.Routing.{Source, ConsumerIdentity, other_grants, draw_order, spill, book_residual, debit}
use ctc.Routing.Debit.{debit-charges, ledger}
use ctc.Routing.Debit.Bills.{Bill, done, debited, otherwise, charge_all, Billed-charge_all}
use ctc.Routing.Debit.Total.{IsGiven, IsBookable, IsFresh, debit_total}
use ctc.Examples.{ask, team, chip, funded_team}
use ctc.Examples.Funding.{funded_team-IsValid}

-- Everything that a run computes with.
program : Unit {0}
unfolding fund_request_from_pool draw_pool fill pool_available capacities givers_with_pool_capacity
    live_giver_cycles dead_pat_givers dead_in is_dead_verdict pledge_remaining pledge_used
    pool_consumed_from pool_granted_out drawn origin_request capacity with_capacity
    contributions_with_capacity all_giver_cycles contains filter sum_by length insert_by sort_by
    transaction add_grant get_request get_grant get_giver_cycle get_event grants_for_recipient
    request_funded personal_remaining grant_remaining left_of_grant own_consumed bypass_consumed
    granted_out granted_out_by_source donor_charge moved leaf_charge used grant_consumed
    transferred_out contributed_out record_consumption check_bucket chosen_grant is_closed
    derive_status sum_where find find_first min_ℤ max_ℤ ◌+ℤ◌ ◌-ℤ◌ active_grants other_grants
    draw_order spill book_residual debit
program = tt

abbrev new_id : ℕ → ℕ
new_id n = 40 + n

abbrev drawn_grant : Grant
drawn_grant = pledge_draw new_id 5 ask 50 0 10 (pos 150)

abbrev drawn_team : Db
drawn_team = record team { grants = drawn_grant ∷ [] }

pool_run :
    fund_request_from_pool new_id 5 20 (pos 150) 50 team ≡ (ok (drawn_grant ∷ []), drawn_team)
unfolding program
pool_run = refl

-- The pledge of 200 is all that a larger request gets.
pool_run_short : fund_request_from_pool new_id 5 20 (pos 900) 50 team ≡ (
  ok (record drawn_grant { amount = pos 200 } ∷ []),
  record team { grants = record drawn_grant { amount = pos 200 } ∷ [] },
)
unfolding program
pool_run_short = refl

fund_request_from_pool-PoolFunds_example :
    (r : Request) × PoolFunds new_id 5 20 (pos 150) 50 team drawn_team (drawn_grant ∷ []) r
fund_request_from_pool-PoolFunds_example =
    fund_request_from_pool-PoolFunds new_id 5 20 (pos 150) 50 team pool_run

abbrev no_tags : Tags
no_tags = record { run_tag = none; model = none; exchange_id = none }

abbrev user : ConsumerIdentity
user = record { user_id = 20; is_giver = false }

abbrev by_chip : Source
by_chip = record { bucket = grant; giver_id = 10; pat = 3; grant_id = some 7 }

abbrev first_part : Event
first_part = event_of 40 1 20 10 grant (pos 100) (some 7) 60 no_tags

abbrev overshoot : Event
overshoot = event_of 8 1 20 10 grant (pos 30) (some 7) 60 no_tags

abbrev billed_team : Db
billed_team = record funded_team { consumption_events = first_part ∷ overshoot ∷ [] }

debit_run : debit 8 new_id 1 user by_chip (pos 130) 60 no_tags funded_team ≡ (ok tt, billed_team)
unfolding program
debit_run = refl

debit-charges_example :
    consumed_total billed_team 1 20 ≡ consumed_total funded_team 1 20 +ℤ max_ℤ (pos 0) (pos 130)
debit-charges_example =
    debit-charges 8 new_id 1 user by_chip 60 no_tags (pos 130) funded_team debit_run

by_chip-IsBookable : IsBookable funded_team 20 10 grant (some 7)
unfolding IsBookable IsGiven get_grant find
by_chip-IsBookable = (chip, refl, refl)

funded_team-IsFresh : IsFresh 8 new_id 1 20 60 no_tags funded_team 0
unfolding get_event find
funded_team-IsFresh = record {
  unused = λ k p. refl;
  last_unused = refl;
  distinct = λ j k p e. omega (arith, p, e);
  last_distinct = λ k e. omega (arith, e);
}

debit_total_example :
    (s' : Db) × (debit 8 new_id 1 user by_chip (pos 130) 60 no_tags funded_team ≡ (ok tt, s'))
    × (consumed_total s' 1 20 ≡ consumed_total funded_team 1 20 +ℤ max_ℤ (pos 0) (pos 130))
debit_total_example =
    debit_total 8 new_id 1 user by_chip 60 no_tags (pos 130) funded_team funded_team-IsValid
      funded_team-IsFresh by_chip-IsBookable

abbrev host : ConsumerIdentity
host = record { user_id = 10; is_giver = true }

abbrev own_source : Source
own_source = record { bucket = own; giver_id = 10; pat = 3; grant_id = none }

abbrev chip_bill : Bill
chip_bill = record {
  last_id = 8;
  new_id = new_id;
  cycle_id = 1;
  consumer = user;
  source = by_chip;
  cost = pos 130;
  ts = 60;
  tags = no_tags;
}

abbrev own_bill : Bill
own_bill = record chip_bill { last_id = 9; consumer = host; source = own_source; cost = pos 40 }

-- The rows of the cycle are dropped after the first bill.
abbrev rowless_team : Db
rowless_team = record billed_team { giver_cycles = [] }

abbrev own_part : Event
own_part = event_of 9 1 10 10 own (pos 40) none 60 no_tags

abbrev twice_billed_team : Db
twice_billed_team = record rowless_team {
  consumption_events = first_part ∷ overshoot ∷ own_part ∷ [];
}

own_run :
    debit 9 new_id 1 host own_source (pos 40) 60 no_tags rowless_team ≡ (ok tt, twice_billed_team)
unfolding program
own_run = refl

Billed-charge_all_example :
    ledger twice_billed_team ≡ charge_all (chip_bill ∷ own_bill ∷ []) (ledger funded_team)
Billed-charge_all_example = Billed-charge_all (
    debited chip_bill debit_run
      (otherwise {s = billed_team} {s₁ = rowless_team} refl (debited own_bill own_run done)))
