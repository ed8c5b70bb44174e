-- ===== src/Engine/Cycle/Others.antt =====
-- A roll over writes cycles and the givers' rows, and leaves every other table as it is.
use ctc.Common.{
  ℕ, refl, inl, inr, Bool-cases, Option, none, some, Option-cases, List, [], ◌∷◌, ℤ, pos, leb_ℤ,
  ltb, ◌==◌, is_none,
}
use ctc.Domain.{
  UserId, CycleId, Time, Cycle, GiverCycle, archived, Request, Grant, PoolContribution, Event,
}
use ctc.Store.{
  Db, GiverPat, CycleReport, pure, ◌>>◌, get_cycle, active_cycle, add_cycle, get_giver_cycle,
  upsert_giver_cycle, set_burn_baseline, with_row, with_baseline,
}
use ctc.Store.Frame.{Keeps, >>=-Keeps, transaction-Keeps}
use ctc.Engine.{dead_pat_givers}
use ctc.Engine.Cycle.{
  Calendar, month_cycle, with_status, row_before, carry, seed_row, seed_one, seed, open_row,
  open_month_cycle, roll_from, roll_over, ensure_active_cycle,
}

-- The tables other than `cycles` and `giver_cycles`.
pub record Others : Type 0 where
  pub requests : List Request
  pub grants : List Grant
  pub pool_contributions : List PoolContribution
  pub consumption_events : List Event
  pub giver_pats : List GiverPat
  pub cycle_reports : List CycleReport

abbrev pub others : Db → Others
others s = record {
  requests = s.requests;
  grants = s.grants;
  pool_contributions = s.pool_contributions;
  consumption_events = s.consumption_events;
  giver_pats = s.giver_pats;
  cycle_reports = s.cycle_reports;
}

module _ (cycle_id : CycleId) (prev : Option CycleId) (dead : List UserId) (pct : ℕ) where
  carry-Keeps :
      (giver_id : UserId) (gc : Option GiverCycle) (burn : ℤ)
      → Keeps others (carry cycle_id giver_id gc burn)
  unfolding set_burn_baseline with_baseline
  carry-Keeps giver_id none burn s = refl
  carry-Keeps giver_id (some gc) burn s = elim (Option-cases gc.burn_baseline) [
    | inl e ↦ rw e refl
    | inr (b, e) ↦ rw e refl
  ]

  seed_row-Keeps :
      (giver_id : UserId) (ent : ℤ) → Keeps others (seed_row cycle_id prev dead pct giver_id ent)
  unfolding seed_row upsert_giver_cycle with_row
  seed_row-Keeps giver_id ent s = elim (Bool-cases (leb_ℤ ent (pos 0))) [
    | inl e ↦ rw e refl
    | inr e ↦ elim (Bool-cases (is_none (get_giver_cycle s cycle_id giver_id))) [
      | inl new ↦ rw (e, new) (carry-Keeps giver_id (row_before s prev giver_id) _ _)
      | inr there ↦ rw (e, there) refl
    ]
  ]

  seed-Keeps : (ps : List GiverPat) → Keeps others (seed cycle_id prev dead pct ps)
  unfolding seed seed_one
  seed-Keeps [] s = refl
  seed-Keeps (p ∷ ps) s =
      >>=-Keeps others (seed_one cycle_id prev dead pct p.user_id p.entitlement)
        (λ _. seed cycle_id prev dead pct ps)
        (λ s. elim (Option-cases p.entitlement) [
          | inl e ↦ rw e refl
          | inr (ent, e) ↦ rw e (seed_row-Keeps p.user_id ent s)
        ])
        (λ _. seed-Keeps ps) s

module _ (cal : Calendar) (pct : ℕ) where
  open_row-Keeps : (c : Cycle) → Keeps others (open_row cal pct c)
  unfolding open_row add_cycle with_status
  open_row-Keeps c s = elim (Bool-cases (is_none (get_cycle s c.id))) [
    | inl new ↦ rw (new, new) refl
    | inr known ↦ rw known refl
  ]

  open_month_cycle-Keeps :
      (now : Time) (prev : Option CycleId) → Keeps others (open_month_cycle cal pct now prev)
  unfolding open_month_cycle
  open_month_cycle-Keeps now prev s =
      let c = month_cycle cal now in
      >>=-Keeps others (open_row cal pct c)
        (λ _ t. (seed c.id prev (dead_pat_givers t) pct t.giver_pats >> pure c) t)
        (open_row-Keeps c)
        (λ _ t.
          >>=-Keeps others (seed c.id prev (dead_pat_givers t) pct t.giver_pats) (λ _. pure c)
            (seed-Keeps c.id prev (dead_pat_givers t) pct t.giver_pats) (λ _ _. refl) t)
        s

  roll_from-Keeps : (now : Time) (live : Option Cycle) → Keeps others (roll_from cal pct now live)
  unfolding roll_from with_status
  roll_from-Keeps now none s = open_month_cycle-Keeps now none s
  roll_from-Keeps now (some live) s = elim (Bool-cases (ltb now live.ends_at)) [
    | inl e ↦ rw e refl
    | inr e ↦ elim (Bool-cases ((month_cycle cal now).id == live.id)) [
      | inl same ↦ rw (e, same) refl
      | inr new ↦
          rw (e, new) (open_month_cycle-Keeps now (some live.id) (with_status s archived live.id))
    ]
  ]

  roll_over-Keeps : (now : Time) → Keeps others (roll_over cal pct now)
  unfolding roll_over
  roll_over-Keeps now =
      transaction-Keeps others (λ s. roll_from cal pct now (active_cycle s) s)
        (λ s. roll_from-Keeps now (active_cycle s) s)

  -- Whether it returns or raises, ensure_active_cycle leaves the requests, the grants, the
  -- contributions, the events and the PATs as they are.
  pub ensure_active_cycle-Keeps : (now : Time) → Keeps others (ensure_active_cycle cal pct now)
  unfolding ensure_active_cycle
  ensure_active_cycle-Keeps now s = elim (Option-cases (active_cycle s)) [
    | inl e ↦ rw e (roll_over-Keeps now s)
    | inr (c, e) ↦ elim (Bool-cases (ltb now c.ends_at)) [
      | inl live ↦ rw (e, live) refl
      | inr ended ↦ rw (e, ended) (roll_over-Keeps now s)
    ]
  ]
