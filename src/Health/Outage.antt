-- ===== src/Health/Outage.antt =====
-- While GitHub cannot be reached, or answers with nothing definitive, a sweep keeps every verdict.
use ctc.Common.{
  ℕ, suc, ◌≡◌, refl, ◌∙◌, inl, inr, Bool, true, false, Bool-cases, Option, none, some, Option-cases,
  List, [], ◌∷◌, ◌==◌, update_where, if◌then◌else◌,
}
use ctc.Domain.{UserId, CycleId, Time}
use ctc.Store.{Db, Result, ok, err, HealthStatus, CheckFailure, GiverPat}
use ctc.Store.Pats.{set_pat_health_error, list_giver_ids}
use ctc.Quota.{UserInfo}
use ctc.Engine.{is_dead_verdict, dead_in, dead_pat_givers}
use ctc.Engine.Cycle.Others.{ensure_active_cycle-Keeps}
use ctc.Health.{
  Checker, State, classify, cycle_of, check_one, on_answer, check_all, run_with, run_once, confirm,
  first_phase, second_phase, pending_in,
}

-- The verdicts that are stored.
unfoldable pub verdicts : List GiverPat → List (UserId × Option HealthStatus)
verdicts [] = []
verdicts (p ∷ ps) = (p.user_id, p.health_status) ∷ verdicts ps

-- An answer that is no verdict.
unfoldable pub IsIndefinite : Option (ℕ × Option UserInfo) → Type 0
IsIndefinite none = Unit
IsIndefinite (some (status, body)) = classify status body ≡ none

verdicts-set_error :
    (u : UserId) (error : CheckFailure) (now : Time) (ps : List GiverPat)
    → verdicts (
        update_where
          (λ p. p.user_id == u)
          (λ p. record p { health_error = some error; health_checked_at = some now })
          ps)
      ≡ verdicts ps
unfolding update_where verdicts
verdicts-set_error u error now [] = refl
verdicts-set_error u error now (p ∷ ps) = elim (Bool-cases (p.user_id == u)) [
  | inl e ↦ rw (e, verdicts-set_error u error now ps) refl
  | inr e ↦ rw (e, verdicts-set_error u error now ps) refl
]

dead_of : List (UserId × Option HealthStatus) → List UserId
dead_of [] = []
dead_of ((u, v) ∷ vs) = if is_dead_verdict v then u ∷ dead_of vs else dead_of vs

dead_in-verdicts : (ps : List GiverPat) → dead_in ps ≡ dead_of (verdicts ps)
unfolding dead_in dead_of verdicts
dead_in-verdicts [] = refl
dead_in-verdicts (p ∷ ps) = rw (dead_in-verdicts ps) refl

module _ (checker : Checker)
    (down : (n : ℕ) (pat : ℕ) → IsIndefinite (checker.fetch_raw n pat)) where
  abbrev Same : State → Db → Type 0
  Same w s = verdicts w.db.giver_pats ≡ verdicts s.giver_pats

  on_answer-Same :
      (n : ℕ) (g : UserId) (c : Option CycleId) (pat : ℕ) (answer : Option (ℕ × Option UserInfo))
      (w : State)
      → IsIndefinite answer
      → Same (on_answer checker n g c pat answer w).1 w.db
  unfolding IsIndefinite set_pat_health_error
  on_answer-Same n g c pat none w h = verdicts-set_error g _ _ w.db.giver_pats
  on_answer-Same n g c pat (some (status, body)) w h =
      rw h (verdicts-set_error g _ _ w.db.giver_pats)

  check_one-Same :
      (n : ℕ) (g : UserId) (c : Option CycleId) (w : State)
      → Same (check_one checker n g c w).1 w.db
  unfolding check_one
  check_one-Same n g c w = elim (Option-cases (checker.pat_for g)) [
    | inl e ↦ rw e refl
    | inr (pat, e) ↦ rw e (on_answer-Same n g c pat (checker.fetch_raw n pat) w (down n pat))
  ]

  check_all-Same :
      (gs : List UserId) (n : ℕ) (c : Option CycleId) (w : State)
      → Same (check_all checker n c gs w) w.db
  unfolding check_all
  check_all-Same [] n c w = refl
  check_all-Same (g ∷ gs) n c w =
      check_all-Same gs (suc n) c (check_one checker n g c w).1 ∙ check_one-Same n g c w

  cycle_of-Same :
      (n : ℕ) (s : Db) → verdicts (cycle_of checker n none s).1.giver_pats ≡ verdicts s.giver_pats
  unfolding cycle_of
  cycle_of-Same n s = λ i.
      verdicts (ensure_active_cycle-Keeps checker.cal checker.pct (checker.now n) s i).giver_pats

  second_phase-Same :
      (n : ℕ) (gs : List UserId) (w : State) (r : Result CycleId) (s : Db)
      → verdicts s.giver_pats ≡ verdicts w.db.giver_pats
      → Same (second_phase checker n gs w.seen (r, s)).1 w.db
  second_phase-Same n gs w (ok c) s h =
      check_all-Same gs n (some c) (record { seen = w.seen; db = s }) ∙ h
  second_phase-Same n gs w (err e) s h = h

  confirm-Same : (n : ℕ) (gs : List UserId) (w : State) → Same (confirm checker n gs w).1 w.db
  confirm-Same n [] w = refl
  confirm-Same n (g ∷ gs) w =
      let (r, s) = cycle_of checker n none w.db in
      second_phase-Same n (g ∷ gs) w r s (cycle_of-Same n w.db)

  first_phase-Same :
      (n m : ℕ) (w : State) (r : Result CycleId) (s : Db)
      → verdicts s.giver_pats ≡ verdicts w.db.giver_pats
      → Same (first_phase checker n m w.seen (r, s)).1 w.db
  first_phase-Same n m w (err e) s h = h
  first_phase-Same n m w (ok c) s h =
      let w₁ =
        check_all checker n (some c) (list_giver_ids s.giver_pats)
          (record { seen = w.seen; db = s }) in
      confirm-Same m (pending_in checker w₁.db c (list_giver_ids w₁.db.giver_pats)) w₁
      ∙ (check_all-Same (list_giver_ids s.giver_pats) n (some c) (record { seen = w.seen; db = s })
          ∙ h)

  run_with-Same : (b : Bool) (n m : ℕ) (w : State) → Same (run_with checker b n m w).1 w.db
  run_with-Same true n m w =
      let (r, s) = cycle_of checker n none w.db in first_phase-Same n m w r s (cycle_of-Same n w.db)
  run_with-Same false n m w = check_all-Same (list_giver_ids w.db.giver_pats) n none w

  run_once-Same : (n m : ℕ) (w : State) → Same (run_once checker n m w).1 w.db
  unfolding run_once
  run_once-Same n m w = run_with-Same checker.has_engine n m w

  -- When every request of a sweep raises or is answered with a status that is no verdict, whether the
  -- sweep returns or raises and whether or not the month rolls over in it, every stored verdict stays,
  -- and so do the givers whose PATs are dead.
  pub run_once_outage :
      (n m : ℕ) (w : State)
      → (verdicts (run_once checker n m w).1.db.giver_pats ≡ verdicts w.db.giver_pats)
        × (dead_pat_givers (run_once checker n m w).1.db ≡ dead_pat_givers w.db)
  unfolding dead_pat_givers
  run_once_outage n m w =
      let same = run_once-Same n m w in
      (
        same,
        rw
            (
              dead_in-verdicts (run_once checker n m w).1.db.giver_pats,
              same,
              dead_in-verdicts w.db.giver_pats,
            )
            refl,
      )
