-- ===== src/Examples/Rolling.antt =====
-- A month's end, run on the team's tables: July ends at 1000 and August at 2000.
use ctc.Common.{
  ◌≡◌, refl, [], ◌∷◌, pos, ltb, ◌+ℤ◌, contains, filter, find, find_first, insert_by, sort_by,
  update_where, sum_where, arith, if◌then◌else◌,
}
use ctc.Domain.{active, archived, Cycle, GiverCycle, nano}
use ctc.Store.{
  Db, ok, transaction, add_cycle, get_cycle, active_cycle, get_giver_cycle, with_row, with_baseline,
  upsert_giver_cycle, set_burn_baseline,
}
use ctc.Store.Query.{own_consumed, bypass_consumed, pool_consumed_from, grants_consumed_from}
use ctc.Engine.{is_dead_verdict, dead_in, dead_pat_givers}
use ctc.Engine.Reconcile.{tracked_burn}
use ctc.Engine.Cycle.{
  Calendar, month_cycle, with_status, seed_row, seed_one, seed, open_row, open_month_cycle,
  roll_from, roll_over, ensure_active_cycle,
}
use ctc.Engine.Cycle.Active.{Settles, IsCurrent, ensure_active_cycle-Settles}
use ctc.Engine.Cycle.Others.{others, ensure_active_cycle-Keeps}
use ctc.Examples.{july, host_row, team}

-- Months of a thousand seconds, the first of them the seventh of year 20.
abbrev pub short_months : Calendar
short_months = record {
  year_month = λ now. if ltb now 1000 then (20, 7) else (20, 8);
  first_second = λ y m. if ltb m 8 then 0 else if ltb m 9 then 1000 else 2000;
  title = λ y m. if ltb m 8 then "July" else "August";
}

abbrev august : Cycle
august = record { id = 2008; label = "August"; starts_at = 1000; ends_at = 2000; status = active }

-- The new row has the entitlement as its quota and a pledge of ten percent of it.
abbrev seeded_row : GiverCycle
seeded_row = record host_row {
  cycle_id = 2008;
  quota = pos 1_000_000_000;
  pledge = pos 100_000_000;
}

abbrev pub rolled_team : Db
rolled_team = record team {
  cycles = record july { status = archived } ∷ august ∷ [];
  giver_cycles = host_row ∷ seeded_row ∷ [];
}

rolled_run : ensure_active_cycle short_months 10 1500 team ≡ (ok august, rolled_team)
unfolding ensure_active_cycle roll_over roll_from open_month_cycle open_row seed seed_one seed_row
    with_status month_cycle tracked_burn own_consumed bypass_consumed pool_consumed_from
    grants_consumed_from dead_pat_givers dead_in is_dead_verdict transaction add_cycle get_cycle
    active_cycle get_giver_cycle with_row with_baseline upsert_giver_cycle set_burn_baseline nano
    contains filter find find_first insert_by sort_by update_where sum_where ◌+ℤ◌
rolled_run = refl

ensure_active_cycle-Settles_example :
    Settles short_months 10 1500
      (IsCurrent short_months 10 1500 team)
      (ensure_active_cycle short_months 10 1500)
      team
unfolding month_cycle
ensure_active_cycle-Settles_example =
    ensure_active_cycle-Settles short_months 10 1500 team 1 ((λ _. refl), tt) (omega arith)

ensure_active_cycle-Keeps_example :
    others (ensure_active_cycle short_months 10 1500 team).1 ≡ others team
ensure_active_cycle-Keeps_example = ensure_active_cycle-Keeps short_months 10 1500 team
