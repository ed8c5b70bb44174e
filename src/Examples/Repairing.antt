-- ===== src/Examples/Repairing.antt =====
-- Repairs of a giver's baseline, and the report on dead pledges, on the team's tables.
use ctc.Common.{
  ◌≡◌, refl, true, false, Option, none, some, [], ◌∷◌, ℤ, pos, negsuc, ◌+ℤ◌, ◌-ℤ◌, max_ℤ, sum_where,
  contains, filter, find, find_first, update_where, insert_by, sort_by, arith,
}
use ctc.Domain.{nano}
use ctc.Store.{
  Db, Result, ok, expired_pat, active_cycle, get_giver_cycle, all_giver_cycles, get_event,
  transaction, add_cycle, get_cycle, set_burn_baseline, with_row, with_pending, with_baseline,
  upsert_giver_cycle,
}
use ctc.Store.Query.{
  own_consumed, bypass_consumed, pool_consumed_from, grants_consumed_from, granted_out_by_source,
  pool_granted_out,
}
use ctc.Store.Pats.{get_giver_pat}
use ctc.Engine.{pledge_used, pledge_remaining, dead_pat_givers, dead_in, is_dead_verdict}
use ctc.Engine.Pledge.{set_pledge, retract_pledge}
use ctc.Engine.Cycle.{
  month_cycle, with_status, seed_row, seed_one, seed, open_row, open_month_cycle, roll_from,
  roll_over, ensure_active_cycle,
}
use ctc.Engine.Reconcile.{
  tracked_burn, drift_of, book_bypass, capture, anchor, note_drift, reconcile_row, reconcile_burn,
  github_burn, reconcile_giver,
}
use ctc.Tools.Repair.{
  Repair, Lookup, quota_for, re_anchor, reconcile_now, would_book, repair_row, repair_giver,
}
use ctc.Tools.Repair.Agrees.{repair_giver-agrees}
use ctc.Tools.DeadPledges.{find_dead_pledges, dead_pledges_in, apply_all}
use ctc.Examples.{july, host_row, host_pat, team}
use ctc.Examples.Rolling.{short_months, rolled_team}

-- What a repair computes with.
program : Unit {0}
unfolding repair_giver repair_row would_book reconcile_now re_anchor quota_for reconcile_giver
    github_burn reconcile_burn reconcile_row note_drift anchor capture book_bypass drift_of
    tracked_burn own_consumed bypass_consumed pool_consumed_from grants_consumed_from
    get_giver_cycle get_event with_pending with_baseline sum_where find find_first update_where nano
    max_ℤ ◌+ℤ◌ ◌-ℤ◌ ensure_active_cycle active_cycle filter insert_by sort_by
program = tt

-- No PAT is stored.
abbrev nobody : Lookup
nobody = record { pat_for = λ u. none; fetch_user = λ p. none }

current : ensure_active_cycle short_months 10 500 team ≡ (ok july, team)
unfolding program
current = refl

unused : get_event team 1 ≡ none
unfolding program
unused = refl

known : quota_for nobody 10 (some (pos 10)) (some (pos 7)) ≡ some (pos 10, pos 7)
unfolding program
known = refl

repair_giver-agrees_example :
    (r : Repair) × (t : Db) × (repair_giver short_months 10 nobody 1 10 500
        (some (pos 10))
        (some (pos 7))
        true
        team
      ≡ (ok (some r), team))
    × (repair_giver short_months 10 nobody 1 10 500 (some (pos 10)) (some (pos 7)) false team
        ≡ (ok (some r), t))
    × (tracked_burn t 1 10 ≡ max_ℤ (tracked_burn team 1 10) (nano (pos 10 -ℤ pos 7)))
repair_giver-agrees_example =
    repair_giver-agrees short_months 10 nobody 1 10 500 (some (pos 10)) (some (pos 7)) (pos 10)
      (pos 7) team team known (omega arith) (omega arith) current tt unused

-- A dry run after the month's end rolls the month over, as every reading of the active cycle does.
dry_run_rolls_over :
    (repair_giver short_months 10 nobody 1 10 1500 (some (pos 10)) (some (pos 7)) true team).1
    ≡ rolled_team
unfolding program roll_over roll_from open_month_cycle open_row seed seed_one seed_row with_status
    month_cycle transaction add_cycle get_cycle set_burn_baseline upsert_giver_cycle with_row
    dead_pat_givers dead_in is_dead_verdict contains
dry_run_rolls_over = refl

abbrev booked_in : Result (Option Repair) → Option ℤ
booked_in (ok (some r)) = some r.drift_booked_nano
booked_in _ = none

-- A giver who burned 2 AIU beyond an entitlement of 10: the dry run announces 12 AIU, the run books none.
announced :
    booked_in
      (repair_giver short_months 10 nobody 1 10 500 (some (pos 10)) (some (negsuc 1)) true team).0
    ≡ some (pos 12_000_000_000)
unfolding program
announced = refl

booked :
    booked_in
      (repair_giver short_months 10 nobody 1 10 500 (some (pos 10)) (some (negsuc 1)) false team).0
    ≡ some (pos 0)
unfolding program
booked = refl

-- The PAT of the host has expired: the report shows its pledge, and the loop takes it back.
abbrev expired_team : Db
expired_team = record team {
  giver_pats = record host_pat { health_status = some expired_pat } ∷ [];
}

abbrev swept : Db
swept = record expired_team { giver_cycles = record host_row { pledge = pos 0 } ∷ [] }

dead_pledges_run :
    find_dead_pledges expired_team 1 none
    ≡ record {
      giver_id = 10;
      health = some expired_pat;
      pledge = pos 200;
      used = pos 0;
      retractable = pos 200;
    }
      ∷ []
unfolding find_dead_pledges dead_pledges_in all_giver_cycles filter dead_pat_givers dead_in
    is_dead_verdict contains pledge_used pool_consumed_from pool_granted_out granted_out_by_source
    sum_where get_giver_pat find max_ℤ ◌+ℤ◌ ◌-ℤ◌
dead_pledges_run = refl

apply_all_run : apply_all 1 (find_dead_pledges expired_team 1 none) (0, expired_team) ≡ (0, swept)
unfolding apply_all find_dead_pledges dead_pledges_in all_giver_cycles filter dead_pat_givers
    dead_in is_dead_verdict contains pledge_used pool_consumed_from pool_granted_out
    granted_out_by_source sum_where get_giver_pat find find_first update_where get_giver_cycle max_ℤ
    ◌+ℤ◌ ◌-ℤ◌ retract_pledge set_pledge upsert_giver_cycle with_row transaction pledge_remaining
apply_all_run = refl
