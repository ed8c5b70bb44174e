-- ===== src/Reports/History/Snapshots.antt =====
-- A snapshot that is stored once stays, and decodes.
use ctc.Common.{
  ℕ, ◌≡◌, refl, inl, inr, Option, none, some, List, [], ◌∷◌, ◌++◌, ◌==◌, ==_refl, find,
  find_append_hit, find_append_new, Bool-cases, All, subst, arith,
}
use ctc.Domain.{Time, CycleId}
use ctc.Store.{Db, CycleReport}
use ctc.Store.Snapshots.{json_of, get_cycle_report, with_report}
use ctc.Reports.Cycle.{Report}

-- The tables keep every snapshot that there was.
abbrev pub Retains : Db → Db → Type 0
Retains s t =
    (i : CycleId) (x : List ℕ) → get_cycle_report s i ≡ some x → get_cycle_report t i ≡ some x

abbrev key : CycleReport → CycleId
key r = r.cycle_id

no_row : (o : Option CycleReport) → json_of o ≡ none → o ≡ none
no_row none h = refl
no_row (some r) h = absurd (ground arith)

row_of :
    (o : Option CycleReport) {x : List ℕ} → json_of o ≡ some x → (r : CycleReport) × (o ≡ some r)
row_of none h = absurd (ground arith)
row_of (some r) h = (r, refl)

module _ (rows : List CycleReport) (r : CycleReport) where
  added_first :
      json_of (find key r.cycle_id rows) ≡ none
      → json_of (find key r.cycle_id (rows ++ r ∷ [])) ≡ some r.report_json
  added_first h =
      rw
        (
          find_append_new key r.cycle_id rows r (no_row (find key r.cycle_id rows) h),
          ==_refl r.cycle_id,
        )
        refl

  added_later :
      (j : CycleId) {y : List ℕ}
      → json_of (find key j rows) ≡ some y
      → json_of (find key j (rows ++ r ∷ [])) ≡ some y
  added_later j h =
      let (q, e) = row_of (find key j rows) h in rw (find_append_hit key j rows r e) (rw e at h)

module _ (s : Db) (i : CycleId) (x : List ℕ) (now : Time) where
  abbrev pub new_row : CycleReport
  new_row = record { cycle_id = i; report_json = x; created_at = now }

  -- The table after a first snapshot.
  pub with_report_first :
      get_cycle_report s i ≡ none
      → (with_report s i x now).cycle_reports ≡ s.cycle_reports ++ new_row ∷ []
  unfolding with_report
  with_report_first h = rw h refl

  -- A first snapshot is there, and the others stay.
  pub get_cycle_report-with_report :
      get_cycle_report s i ≡ none → get_cycle_report (with_report s i x now) i ≡ some x
  unfolding get_cycle_report
  get_cycle_report-with_report h = rw (with_report_first h) (added_first s.cycle_reports new_row h)

  pub Retains-with_report : get_cycle_report s i ≡ none → Retains s (with_report s i x now)
  unfolding get_cycle_report
  Retains-with_report h j y k = rw (with_report_first h) (added_later s.cycle_reports new_row j k)

module _ (loads : List ℕ → Option Report) where
  -- The snapshot of a cycle decodes to the report.
  abbrev pub IsSnapshot : Db → CycleId × Report → Type 0
  IsSnapshot s (i, r) = (x : List ℕ) × (get_cycle_report s i ≡ some x) × (loads x ≡ some r)

  -- Every snapshot decodes.
  abbrev pub HasReport : CycleReport → Type 0
  HasReport r = (d : Report) × (loads r.report_json ≡ some d)

  abbrev pub Decodes : Db → Type 0
  Decodes s = All HasReport s.cycle_reports

  decoded_row :
      (rows : List CycleReport) (i : CycleId) {r : CycleReport}
      → All HasReport rows
      → find key i rows ≡ some r
      → HasReport r
  unfolding find
  decoded_row [] i h k = absurd (ground arith)
  decoded_row (r ∷ rows) i (h, hs) k = elim (Bool-cases (r.cycle_id == i)) [
    | inl e ↦ subst HasReport (some_inj (rw e at k)) h
    | inr e ↦ decoded_row rows i hs (rw e at k)
  ]
    where
      some_inj : {a b : CycleReport} → ◌≡◌ {A = Option CycleReport} (some a) (some b) → a ≡ b
      some_inj e = ground (arith, e)

  pub decoded :
      (s : Db) (i : CycleId) {x : List ℕ}
      → Decodes s
      → get_cycle_report s i ≡ some x
      → (d : Report) × (loads x ≡ some d)
  unfolding get_cycle_report
  decoded s i h k =
      let (r, e) = row_of (find key i s.cycle_reports) k in
      subst (λ y. (d : Report) × (loads y ≡ some d)) (some_text (rw e at k))
        (decoded_row s.cycle_reports i h e)
    where
      some_text : {a b : List ℕ} → ◌≡◌ {A = Option (List ℕ)} (some a) (some b) → a ≡ b
      some_text e = ground (arith, e)
