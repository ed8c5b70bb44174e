-- ===== src/Examples/Reconciling.antt =====
-- Reconciles against live GitHub quotas, run on the team's tables.
use ctc.Common.{
  ◌≡◌, refl, true, false, none, some, [], ◌∷◌, ℤ, pos, ◌+ℤ◌, ◌-ℤ◌, min_ℤ, max_ℤ, sum_where, find,
  find_first, update_where,
}
use ctc.Domain.{bypass, Event, nano}
use ctc.Store.{Db, ok, get_giver_cycle, get_event, with_pending, with_baseline}
use ctc.Store.Query.{own_consumed, bypass_consumed, pool_consumed_from, grants_consumed_from}
use ctc.Engine.Pledge.{Live}
use ctc.Engine.Consume.{event_of}
use ctc.Engine.Reconcile.{
  tracked_burn, drift_of, book_bypass, capture, anchor, note_drift, debounce, reconcile_row,
  reconcile_burn, github_burn, seen_at, reconcile_giver,
}
use ctc.Engine.Reconcile.Booked.{BooksBecause}
use ctc.Engine.Reconcile.Giver.{reconcile_giver-booked, reconcile_giver_converges}
use ctc.Examples.{host_row, team}

program : Unit {0}
unfolding reconcile_giver github_burn seen_at reconcile_burn reconcile_row debounce note_drift
    anchor capture book_bypass drift_of tracked_burn own_consumed bypass_consumed pool_consumed_from
    grants_consumed_from get_giver_cycle get_event with_pending with_baseline sum_where find
    find_first update_where nano min_ℤ max_ℤ ◌+ℤ◌ ◌-ℤ◌
program = tt

-- GitHub reports 3 AIU burned; nothing of it went through the proxy.
abbrev live : Live
live = record { entitlement = some (pos 10); remaining = some (pos 7) }

abbrev burned : Event
burned =
    event_of 1 1 10 10 bypass (pos 3_000_000_000) none 400
      (record { run_tag = none; model = none; exchange_id = none })

abbrev reconciled : Db
reconciled = record team { consumption_events = burned ∷ [] }

immediate_run :
    reconcile_giver 1 1 10 (some live) 400 true [] team ≡ ([], (ok (some burned), reconciled))
unfolding program
immediate_run = refl

-- The first observation at 200 is noted, the second at 400 books.
abbrev noted : Db
noted = record team {
  giver_cycles =
      record host_row { pending_drift = some (pos 3_000_000_000); pending_drift_at = some 200 }
      ∷ [];
}

first_run :
    reconcile_giver 1 1 10 (some live) 200 false [] team ≡ ((1, 10, 200) ∷ [], (ok none, noted))
unfolding program
first_run = refl

second_run :
    reconcile_giver 1 1 10 (some live) 400 false ((1, 10, 200) ∷ []) noted
    ≡ ((1, 10, 400) ∷ (1, 10, 200) ∷ [], (ok (some burned), reconciled))
unfolding program
second_run = refl

reconcile_giver-booked_example :
    (burn : ℤ) × (github_burn (some live) ≡ some burn)
    × BooksBecause noted 1 1 10 burn 400 false burned reconciled
reconcile_giver-booked_example =
    reconcile_giver-booked noted 1 1 10 400 ((1, 10, 200) ∷ []) (some live) false second_run

reconcile_giver_converges_example :
    (reconcile_giver 2 1 10 (some live) 700 false [] reconciled).1.0 ≡ ok none
reconcile_giver_converges_example =
    reconcile_giver_converges team 1 1 10 400 [] (some live) immediate_run 2 700 false []
