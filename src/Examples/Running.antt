-- ===== src/Examples/Running.antt =====
-- A ledger from empty tables: a month, a host's quota, a request, a chip-in, a draw of it, and a draw
-- that is refused.
use ctc.Common.{
  ℕ, ◌≡◌, refl, false, none, some, List, [], ◌∷◌, pos, ◌+ℤ◌, ◌-ℤ◌, min_ℤ, sum_where, find,
  find_first, update_where, insert_by, sort_by, filter,
}
use ctc.Domain.{consumer, grant, is_closed, derive_status}
use ctc.Store.{
  Db, transaction, add_cycle, add_request, add_grant, get_cycle, get_request, get_grant,
  get_giver_cycle, get_event, upsert_giver_cycle, with_row,
}
use ctc.Store.Valid.{IsValid}
use ctc.Store.Query.{
  request_funded, own_consumed, bypass_consumed, granted_out, granted_out_by_source, donor_charge,
  moved, leaf_charge, used, grant_consumed, transferred_out, contributed_out, pool_consumed_from,
  pool_granted_out,
}
use ctc.Engine.{personal_remaining, grant_remaining, left_of_grant, pledge_used}
use ctc.Engine.Pledge.{set_quota}
use ctc.Engine.Market.{create_request, fund_request}
use ctc.Engine.Cycle.{start_cycle}
use ctc.Engine.Consume.{Tags, record_consumption, check_bucket, chosen_grant}
use ctc.Engine.Reconcile.{Seen}
use ctc.Engine.Valid.Run.{
  Call, call_start_cycle, call_set_quota, call_create_request, call_fund_request,
  call_record_consumption, run, at_start, after, empty_db, Reachable-IsValid,
}
use ctc.Examples.Rolling.{short_months}

abbrev no_tags : Tags
no_tags = record { run_tag = none; model = none; exchange_id = none }

abbrev draw_of : ℕ → ℕ → Call
draw_of id credits =
    call_record_consumption id 1 20 10 grant (pos credits) (some 7) 60 false no_tags

-- The last call comes first.
abbrev calls : List Call
calls =
    draw_of 3 100
    ∷ draw_of 2 40
    ∷ call_fund_request 7 5 10 (pos 100) 50
    ∷ call_create_request 5 1 20 consumer (pos 300) "release week" none 10 500
    ∷ call_set_quota 1 10 (pos 1000)
    ∷ call_start_cycle 1 "July" 0 1000
    ∷ []

abbrev result_of : List Call → Seen × Db
result_of [] = ([], empty_db)
result_of (call ∷ earlier) = run short_months 10 call (result_of earlier)

-- What the calls compute with.
program : Unit {0}
unfolding run start_cycle set_quota create_request fund_request record_consumption transaction
    add_cycle add_request add_grant get_cycle get_request get_grant get_giver_cycle get_event
    upsert_giver_cycle with_row request_funded personal_remaining pledge_used grant_remaining
    left_of_grant own_consumed bypass_consumed pool_consumed_from pool_granted_out granted_out
    granted_out_by_source donor_charge moved leaf_charge used grant_consumed transferred_out
    contributed_out check_bucket chosen_grant is_closed derive_status sum_where find find_first
    update_where insert_by sort_by filter min_ℤ ◌+ℤ◌ ◌-ℤ◌
program = tt

-- The first draw is booked and leaves 60, so the second one is refused.
left_over : grant_remaining (result_of calls).1 1 7 ≡ pos 60
unfolding program
left_over = refl

Reachable-IsValid_example : IsValid (result_of calls).1
Reachable-IsValid_example = Reachable-IsValid short_months 10 (
    after (draw_of 3 100) (
      after (draw_of 2 40) (
        after (call_fund_request 7 5 10 (pos 100) 50) (
          after (call_create_request 5 1 20 consumer (pos 300) "release week" none 10 500) (
            after (call_set_quota 1 10 (pos 1000))
              (after (call_start_cycle 1 "July" 0 1000) at_start))))))
