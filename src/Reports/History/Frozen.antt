-- ===== src/Reports/History/Frozen.antt =====
-- The report of an archived cycle stays as it was at its first reading.
use ctc.Common.{
  ==→eq, ℕ, ◌≡◌, ◌≢◌, ◌⊎◌, ◌∙◌, sym, inl, inr, Option, some, List, ◌==◌, Bool-cases, All, All-map,
  subst, arith,
}
use ctc.Domain.{Time, CycleId}
use ctc.Store.{Db, Result, ok}
use ctc.Store.Snapshots.{get_cycle_report}
use ctc.Standing.Leaderboard.{LeaderboardUser}
use ctc.Reports.{Format}
use ctc.Reports.Cycle.{Report}
use ctc.Reports.History.{history_rows, build_history}
use ctc.Reports.History.Snapshots.{Retains, Decodes, IsSnapshot}
use ctc.Reports.History.Reading.{archived_reports, build_history_read}

-- Two reports, each with its cycle, that are the same if their cycles are.
abbrev pub Agrees : CycleId × Report → CycleId × Report → Type 0
Agrees (i, r) (j, r') = (i ≢ j) ⊎ (r' ≡ r)

abbrev pub AgreeWith : List (CycleId × Report) → List (CycleId × Report) → Type 0
AgreeWith xs ys = All (λ x. All (Agrees x) ys) xs

module _ (loads : List ℕ → Option Report) (dumps : Report → List ℕ)
    (round_trip : (r : Report) → loads (dumps r) ≡ some r) where
  one_text : {x y : List ℕ} (o : Option (List ℕ)) → o ≡ some x → o ≡ some y → x ≡ y
  one_text o h k = ground (arith, h, k)

  one_report : {a b : Report} (o : Option Report) → o ≡ some a → o ≡ some b → b ≡ a
  one_report o h k = ground (arith, h, k)

  snapshots-Agree :
      (t : Db) (x y : CycleId × Report) → IsSnapshot loads t x → IsSnapshot loads t y → Agrees x y
  snapshots-Agree t (i, r) (j, r') (a, h, e) (b, k, f) = elim (Bool-cases (i == j)) [
    | inl same ↦
        let k' = subst (λ n. get_cycle_report t n ≡ some b) (sym (==→eq i j same)) k in
        let f' = subst (λ x. loads x ≡ some r') (sym (one_text (get_cycle_report t i) h k')) f in
        inr (one_report (loads a) e f')
    | inr other ↦ inl (ground arith)
  ]

  same_outcome :
      {A : Type 0} {a b : A} {s t : Db}
      → ◌≡◌ {A = Result A × Db} (ok a, s) (ok b, t)
      → (a ≡ b) × (s ≡ t)
  same_outcome h = (cc, cc)

  -- Of two readings of the history, by any users at any times, the first of which returned, on tables
  -- that keep the snapshots it left: the second returns as well, and wherever both report an
  -- archived cycle, they report the same. Every snapshot decodes, and a stored report decodes to
  -- itself.
  pub build_history-frozen :
      (format : Format) (users users' : List LeaderboardUser) (now now' : Time) (s t : Db)
      {out : List Report} {s' : Db}
      → Decodes loads s
      → build_history loads dumps format users now s ≡ (ok out, s')
      → Retains s' t
      → Decodes loads t
      → (out' : List Report) × (t' : Db) × (build_history loads dumps format users' now' t
          ≡ (ok out', t'))
        × AgreeWith (archived_reports (history_rows s) out) (archived_reports (history_rows t) out')
  build_history-frozen format users users' now now' s t {out} {s'} d h keep d' =
      let first = build_history_read loads dumps round_trip format users now s d in
      let second = build_history_read loads dumps round_trip format users' now' t d' in
      let (same, left) = same_outcome (sym first.ran ∙ h) in
      let stored =
        subst (λ o. All (IsSnapshot loads s') (archived_reports (history_rows s) o)) same
          (subst (λ u. All (IsSnapshot loads u) (archived_reports (history_rows s) first.reports))
            left first.stored) in
      (
        second.reports,
        second.after,
        second.ran,
        All-map _ _ (archived_reports (history_rows s) out)
            (λ (i, r) (x, there, e).
              All-map _ _ (archived_reports (history_rows t) second.reports)
                (λ y k.
                  snapshots-Agree second.after (i, r) y (x, second.kept i x (keep i x there), e) k)
                second.stored)
            stored,
      )
