-- ===== src/Examples/Reporting.antt =====
-- A dashboard and two readings of the history, on the team's tables after a month has passed.
use ctc.Common.{
  ℕ, ◌≡◌, refl, true, false, Option, none, some, List, [], ◌∷◌, ℤ, pos, ◌+ℤ◌, ◌-ℤ◌, contains,
  filter, length, sum_by, sum_where, find, find_first,
}
use ctc.Domain.{archived, active, Event, Bucket, own, pool, derive_status, UserId}
use ctc.Store.{Db, Result, ok, get_cycle, get_request, all_giver_cycles, get_giver_cycle}
use ctc.Standing.Leaderboard.{LeaderboardUser}
use ctc.Reports.{Format}
use ctc.Reports.Cycle.{Report}
use ctc.Store.Query.{
  own_consumed, bypass_consumed, granted_out, granted_out_by_source, request_funded,
}
use ctc.Engine.{personal_remaining, request_status}
use ctc.Reports.{distinct_ids, requests_of, shared_events}
use ctc.Reports.Dashboard.{
  Dashboard, build_dashboard, dashboard_of, count_requests, tally, giver_ids, identity_in, days_to,
  active_givers_of, all_sources, all_consumers,
}
use ctc.Reports.Dashboard.Totals.{AddsUp, build_dashboard-AddsUp}
use ctc.Reports.History.{history_rows, build_history}
use ctc.Reports.History.Reading.{archived_reports, Read, build_history_read}
use ctc.Reports.History.Frozen.{AgreeWith, build_history-frozen}
use ctc.Examples.{team, july}
use ctc.Examples.Codec.OfReport.{loads_report, dumps_report, loads_report-dumps_report}

-- Every text is the same, and all names are equal.
abbrev format : Format
format = record {
  date = λ t. "date";
  clock = λ t. "clock";
  amount_text = λ x. "amount";
  short_id = λ i. "id";
  id_text = λ i. "id";
  name_le = λ m n. true;
}

abbrev draw_event : ℕ → UserId → Bucket → ℕ → Event
draw_event i u b n = record {
  id = i;
  cycle_id = 1;
  ts = 900_000;
  consumer_id = u;
  source_giver_id = 10;
  bucket = b;
  grant_id = none;
  credits = pos n;
  run_tag = none;
  model = none;
  exchange_id = none;
}

-- July is over: user 20 drew 60 and user 10 drew 5 from the pool, besides 40 of its own.
abbrev past : Db
past = record team {
  cycles =
      record july { status = archived }
      ∷ record { id = 2; label = "August"; starts_at = 1000; ends_at = 2000; status = active }
      ∷ [];
  consumption_events =
      draw_event 1 20 pool 60 ∷ draw_event 2 10 own 40 ∷ draw_event 3 10 pool 5 ∷ [];
}

abbrev users : List LeaderboardUser
users =
    record { user_id = 10; name = "host"; is_giver = true }
    ∷ record { user_id = 20; name = "guest"; is_giver = false }
    ∷ []

-- The host has another name and has become a consumer.
abbrev users_later : List LeaderboardUser
users_later = record { user_id = 10; name = "guest"; is_giver = false } ∷ []

build_dashboard-AddsUp_example :
    (d : Dashboard) × (build_dashboard format users 1 1_000_000 past ≡ (ok d, past))
    × AddsUp past 1 1_000_000 d
build_dashboard-AddsUp_example = build_dashboard-AddsUp format users past 1 1_000_000

-- The first reading freezes July.
abbrev first_reading :
    Read loads_report dumps_report loads_report-dumps_report format users 1500
      (build_history loads_report dumps_report format users 1500 past)
      past
      (history_rows past)
first_reading =
    build_history_read loads_report dumps_report loads_report-dumps_report format users 1500 past tt

build_history-frozen_example :
    (out : List Report) × (t' : Db) × (build_history loads_report dumps_report format users_later
        1600 first_reading.after
      ≡ (ok out, t'))
    × AgreeWith
        (archived_reports (history_rows past) first_reading.reports)
        (archived_reports (history_rows first_reading.after) out)
build_history-frozen_example =
    build_history-frozen loads_report dumps_report loads_report-dumps_report format users
      users_later 1500 1600 past first_reading.after tt first_reading.ran (λ i x h. h)
      first_reading.decodes

abbrev figures_of : Result Dashboard → Option (ℤ × ℤ × ℤ × ℕ × ℕ × ℕ)
figures_of (ok d) =
    some (d.rotated, d.donated_to_non_pat, d.retained, d.open_count, d.active_givers, d.days_left)
figures_of _ = none

-- 5 went to the giver and 60 to the guest, 760 is left to the host, and the one request has expired.
figures_run :
    figures_of (build_dashboard format users 1 950 past).0 ≡ some (pos 5, pos 60, pos 760, 0, 1, 1)
unfolding build_dashboard dashboard_of count_requests requests_of filter request_status get_request
    find derive_status request_funded tally shared_events giver_ids distinct_ids contains length
    sum_by sum_where personal_remaining own_consumed bypass_consumed granted_out
    granted_out_by_source all_giver_cycles get_giver_cycle find_first identity_in get_cycle days_to
    active_givers_of all_sources all_consumers ◌+ℤ◌ ◌-ℤ◌
figures_run = refl
