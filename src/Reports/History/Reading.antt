-- ===== src/Reports/History/Reading.antt =====
-- What one reading of the history returns and leaves.
use ctc.Common.{
  ℕ, ◌≡◌, ◌∙◌, refl, sym, inl, inr, Option, none, some, Option-cases, List, [], ◌∷◌, find, All,
  All-append, All-sort_by, All-find_self, subst, leb,
}
use ctc.Domain.{Time, CycleId, CycleStatus, active, archived, Cycle}
use ctc.Store.{Db, Result, ok, pure, ◌>>=◌, ◌>>◌, >>=-ok, get_cycle}
use ctc.Store.Snapshots.{get_cycle_report, with_report, save_cycle_report}
use ctc.Standing.Leaderboard.{LeaderboardUser}
use ctc.Reports.{Format}
use ctc.Reports.Cycle.{Report, build_cycle_report}
use ctc.Reports.Cycle.Returns.{build_cycle_report_total}
use ctc.Reports.History.{
  history_rows, freeze, archived_entry, entry_by, history_entry, history_of, build_history,
}
use ctc.Reports.History.Snapshots.{
  Retains, Decodes, HasReport, IsSnapshot, decoded, with_report_first, get_cycle_report-with_report,
  Retains-with_report,
}

-- The reports of the archived cycles among the rows, each with its cycle.
unfoldable pub archived_reports : List Cycle → List Report → List (CycleId × Report)
archived_reports [] reports = []
archived_reports (row ∷ rows) [] = []
archived_reports (row ∷ rows) (r ∷ reports) = elim row.status [
  | active ↦ archived_reports rows reports
  | archived ↦ (row.id, r) ∷ archived_reports rows reports
]

module _ (loads : List ℕ → Option Report) (dumps : Report → List ℕ)
    (round_trip : (r : Report) → loads (dumps r) ≡ some r) (format : Format)
    (users : List LeaderboardUser) (now : Time) where
  abbrev IsStored : CycleStatus → Db → CycleId → Report → Type 0
  IsStored active s i r = Unit
  IsStored archived s i r = IsSnapshot loads s (i, r)

  -- An entry is read: what it leaves keeps the snapshots, and has one of an archived cycle.
  record EntryRead (m : Result Report × Db) (s : Db) (status : CycleStatus) (i : CycleId)
      : Type 0 where
    report : Report
    after : Db
    ran : m ≡ (ok report, after)
    same_cycles : after.cycles ≡ s.cycles
    kept : Retains s after
    decodes : Decodes loads after
    stored : IsStored status after i report

  freeze_read :
      (s : Db) (row c : Cycle)
      → get_cycle s row.id ≡ some c
      → get_cycle_report s row.id ≡ none
      → Decodes loads s
      → EntryRead (freeze loads dumps format users now row s) s archived row.id
  unfolding freeze save_cycle_report with_report
  freeze_read s row c found fresh d =
      let (r, ran) = build_cycle_report_total format users s row.id now found in
      record {
        report = r;
        after = with_report s row.id (dumps r) now;
        ran =
            >>=-ok (build_cycle_report format users row.id now)
              (λ a. save_cycle_report row.id (dumps a) now >> pure a) ran;
        same_cycles = refl;
        kept = Retains-with_report s row.id (dumps r) now fresh;
        decodes =
            rw (with_report_first s row.id (dumps r) now fresh)
              (All-append (HasReport loads) s.cycle_reports _ d (r, round_trip r));
        stored = (dumps r, get_cycle_report-with_report s row.id (dumps r) now fresh, round_trip r);
      }

  archived_read :
      (s : Db) (row c : Cycle)
      → get_cycle s row.id ≡ some c
      → Decodes loads s
      → EntryRead (archived_entry loads dumps format users now row s) s archived row.id
  archived_read s row c found d = elim (Option-cases (get_cycle_report s row.id)) [
    | inl fresh ↦ rw fresh (freeze_read s row c found fresh d)
    | inr (x, there) ↦
        let (r, e) = decoded loads s row.id d there in
        record {
          report = r;
          after = s;
          ran = rw (there, e) refl;
          same_cycles = refl;
          kept = λ j y k. k;
          decodes = d;
          stored = (x, there, e);
        }
  ]

  entry_read :
      (s : Db) (status : CycleStatus) (row c : Cycle)
      → get_cycle s row.id ≡ some c
      → Decodes loads s
      → EntryRead (entry_by loads dumps format users now status row s) s status row.id
  entry_read s archived row c found d = archived_read s row c found d
  entry_read s active row c found d =
      let (r, ran) = build_cycle_report_total format users s row.id now found in
      record {
        report = r;
        after = s;
        ran = ran;
        same_cycles = refl;
        kept = λ j y k. k;
        decodes = d;
        stored = tt;
      }

  -- The rows are read.
  pub record Read (m : Result (List Report) × Db) (s : Db) (rows : List Cycle) : Type 0 where
    pub reports : List Report
    pub after : Db
    pub ran : m ≡ (ok reports, after)
    pub kept : Retains s after
    pub decodes : Decodes loads after
    pub stored : All (IsSnapshot loads after) (archived_reports rows reports)

  abbrev IsThere : List Cycle → Cycle → Type 0
  IsThere cycles row = (c : Cycle) × (find (λ x. x.id) row.id cycles ≡ some c)

  stored_by :
      (status : CycleStatus) (s t : Db) (i : CycleId) (r : Report) (rest : List (CycleId × Report))
      → Retains s t
      → IsStored status s i r
      → All (IsSnapshot loads t) rest
      → All (IsSnapshot loads t) (elim status [ active ↦ rest | archived ↦ (i, r) ∷ rest ])
  stored_by active s t i r rest k h hs = hs
  stored_by archived s t i r rest k (x, there, e) hs = ((x, k i x there, e), hs)

  next_stored :
      (s t : Db) (row : Cycle) (rows : List Cycle) (r : Report) (reports : List Report)
      → Retains s t
      → IsStored row.status s row.id r
      → All (IsSnapshot loads t) (archived_reports rows reports)
      → All (IsSnapshot loads t) (archived_reports (row ∷ rows) (r ∷ reports))
  unfolding archived_reports
  next_stored s t row rows r reports k h hs =
      stored_by row.status s t row.id r (archived_reports rows reports) k h hs

  history_read :
      (s : Db) (rows : List Cycle)
      → All (IsThere s.cycles) rows
      → Decodes loads s
      → Read (history_of loads dumps format users now rows s) s rows
  unfolding history_of history_entry get_cycle archived_reports
  history_read s [] there d = record {
    reports = [];
    after = s;
    ran = refl;
    kept = λ j y k. k;
    decodes = d;
    stored = tt;
  }
  history_read s (row ∷ rows) ((c, found), there) d =
      let e = entry_read s row.status row c found d in
      let k =
        history_read e.after rows (subst (λ cs. All (IsThere cs) rows) (sym e.same_cycles) there)
          e.decodes in
      record {
        reports = e.report ∷ k.reports;
        after = k.after;
        ran =
            >>=-ok (history_entry loads dumps format users now row)
              (λ r. history_of loads dumps format users now rows >>= λ rs. pure (r ∷ rs)) e.ran
            ∙ >>=-ok (history_of loads dumps format users now rows) (λ rs. pure (e.report ∷ rs))
                k.ran;
        kept = λ j y h. k.kept j y (e.kept j y h);
        decodes = k.decodes;
        stored = next_stored e.after k.after row rows e.report k.reports k.kept e.stored k.stored;
      }

  -- The whole history is read.
  pub build_history_read :
      (s : Db)
      → Decodes loads s
      → Read (build_history loads dumps format users now s) s (history_rows s)
  unfolding build_history history_rows
  build_history_read s d =
      history_read s (history_rows s)
        (All-sort_by _ (λ a b. leb b.starts_at a.starts_at) s.cycles
          (All-find_self (λ c. c.id) s.cycles))
        d
