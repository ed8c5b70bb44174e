-- ===== src/Reports/History.antt =====
-- ctc/accounting/reports.py: build_history, which freezes the report of an archived cycle at its
-- first reading. Python's JSON of a report is a parameter: `none` where json.loads raises.
use ctc.Common.{ℕ, Option, none, some, List, [], ◌∷◌, leb, sort_by}
use ctc.Domain.{Time, CycleStatus, active, archived, Cycle}
use ctc.Store.{Db, Action, value_error, pure, gets, or_raise, ◌>>=◌, ◌>>◌}
use ctc.Store.Snapshots.{get_cycle_report, save_cycle_report}
use ctc.Standing.Leaderboard.{LeaderboardUser}
use ctc.Reports.{Format}
use ctc.Reports.Cycle.{Report, build_cycle_report}
pub mod Snapshots
pub mod Reading
pub mod Frozen

-- `SELECT id, status FROM cycles ORDER BY starts_at DESC`
unfoldable pub history_rows : Db → List Cycle
history_rows s = sort_by (λ a b. leb b.starts_at a.starts_at) s.cycles

module _ (loads : List ℕ → Option Report) (dumps : Report → List ℕ) (format : Format)
    (users : List LeaderboardUser) (now : Time) where
  -- A cycle that is archived and has no snapshot: its report is computed and stored.
  unfoldable pub freeze : Cycle → Action Report
  freeze row = do
    report ← build_cycle_report format users row.id now
    save_cycle_report row.id (dumps report) now
    pure report

  abbrev pub snapshot_or : Cycle → Option (List ℕ) → Action Report
  snapshot_or row none = freeze row
  snapshot_or row (some snapshot) = or_raise (loads snapshot) value_error

  abbrev pub archived_entry : Cycle → Action Report
  archived_entry row = gets (λ s. get_cycle_report s row.id) >>= snapshot_or row

  abbrev pub entry_by : CycleStatus → Cycle → Action Report
  entry_by active row = build_cycle_report format users row.id now
  entry_by archived row = archived_entry row

  unfoldable pub history_entry : Cycle → Action Report
  history_entry row = entry_by row.status row

  unfoldable pub history_of : List Cycle → Action (List Report)
  history_of [] = pure []
  history_of (row ∷ rows) = do
    report ← history_entry row
    reports ← history_of rows
    pure (report ∷ reports)

  unfoldable pub build_history : Action (List Report)
  build_history = gets history_rows >>= history_of
