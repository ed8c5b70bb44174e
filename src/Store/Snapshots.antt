-- ===== src/Store/Snapshots.antt =====
-- ctc/store/accounting_store.py: the frozen reports of archived cycles.
use ctc.Common.{ℕ, Option, none, some, List, [], ◌∷◌, ◌++◌, find}
use ctc.Domain.{CycleId, Time}
use ctc.Store.{Db, CycleReport, Action, modify}

abbrev pub json_of : Option CycleReport → Option (List ℕ)
json_of none = none
json_of (some r) = some r.report_json

unfoldable pub get_cycle_report : Db → CycleId → Option (List ℕ)
get_cycle_report s cycle_id =
    json_of (find (λ (r : CycleReport). r.cycle_id) cycle_id s.cycle_reports)

-- `ON CONFLICT(cycle_id) DO NOTHING`
abbrev pub keep_or_add : Option (List ℕ) → CycleReport → List CycleReport → List CycleReport
keep_or_add none r rows = rows ++ r ∷ []
keep_or_add (some _) r rows = rows

-- The tables after `save_cycle_report`.
unfoldable pub with_report : Db → CycleId → List ℕ → Time → Db
with_report s cycle_id report_json now = record s {
  cycle_reports =
      keep_or_add (get_cycle_report s cycle_id)
        (record { cycle_id = cycle_id; report_json = report_json; created_at = now })
        s.cycle_reports;
}

unfoldable pub save_cycle_report : CycleId → List ℕ → Time → Action (Unit {0})
save_cycle_report cycle_id report_json now = modify (λ s. with_report s cycle_id report_json now)
