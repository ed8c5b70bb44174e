-- ===== src/Engine/Cycle.antt =====
-- ctc/accounting/engine.py: start_cycle, _month_cycle, _open_month_cycle, ensure_active_cycle and
-- _roll_over. The calendar of Python's `datetime`, in UTC, is a parameter.
use ctc.Common.{
  ℕ, suc, ◌+◌, ◌*◌, ◌/◌, ◌≤◌, ◌<◌, String, Bool, true, false, not, Option, none, some, List, [],
  ◌∷◌, ℤ, pos, negsuc, sub_ℕ, ◌+ℤ◌, ltb, leb_ℤ, ◌==◌, is_none, contains, update_where,
  if◌then◌else◌,
}
use ctc.Domain.{UserId, CycleId, Time, CycleStatus, active, archived, Cycle, GiverCycle, nano}
use ctc.Store.{
  Db, GiverPat, Action, pure, gets, modify, transaction, ◌>>=◌, ◌>>◌, get_cycle, active_cycle,
  add_cycle, get_giver_cycle, upsert_giver_cycle, set_burn_baseline,
}
use ctc.Engine.{dead_pat_givers}
use ctc.Engine.Reconcile.{tracked_burn}
pub mod Seeding
pub mod Active
pub mod Others

-- `year_month` is `fromtimestamp`, `first_second` is the timestamp of a month's first second and
-- `title` is `strftime("%B %Y")`.
pub record Calendar : Type 0 where
  pub year_month : Time → ℕ × ℕ
  pub first_second : ℕ → ℕ → Time
  pub title : ℕ → ℕ → String

abbrev pub next_month : ℕ → ℕ → ℕ × ℕ
next_month y m = if m == 12 then (y + 1, 1) else (y, m + 1)

-- A cycle's identifier shows its year and its month, here as the number that the digits spell.
unfoldable pub month_cycle : Calendar → Time → Cycle
month_cycle cal now =
    let (y, m) = cal.year_month now in
    let (ny, nm) = next_month y m in
    record {
      id = y * 100 + m;
      label = cal.title y m;
      starts_at = cal.first_second y m;
      ends_at = cal.first_second ny nm;
      status = active;
    }

unfoldable pub start_cycle : CycleId → String → Time → Time → Action Cycle
start_cycle cycle_id label starts_at ends_at = do
  let c : Cycle = record {
    id = cycle_id;
    label = label;
    starts_at = starts_at;
    ends_at = ends_at;
    status = active;
  }
  add_cycle c
  pure c

-- `quota * pct // 100`, which rounds down.
abbrev pub percent : ℤ → ℕ → ℤ
percent (pos n) pct = pos (n * pct / 100)
percent (negsuc n) pct = sub_ℕ 0 ((suc n * pct + 99) / 100)

-- `UPDATE cycles SET status=? WHERE id=?`
unfoldable pub with_status : Db → CycleStatus → CycleId → Db
with_status s status cycle_id = record s {
  cycles = update_where (λ c. c.id == cycle_id) (λ c. record c { status = status }) s.cycles;
}

-- The row of the month before, if there is one.
abbrev pub row_before : Db → Option CycleId → UserId → Option GiverCycle
row_before s none giver_id = none
row_before s (some prev) giver_id = get_giver_cycle s prev giver_id

abbrev pub burn_before : Db → Option CycleId → UserId → ℤ
burn_before s none giver_id = pos 0
burn_before s (some prev) giver_id = tracked_burn s prev giver_id

-- The carry of the burn baseline, from the giver's row of the month before.
abbrev pub carry : CycleId → UserId → Option GiverCycle → ℤ → Action (Unit {0})
carry cycle_id giver_id none burn = pure tt
carry cycle_id giver_id (some gc) burn = elim gc.burn_baseline [
  | none ↦ pure tt
  | some b ↦ set_burn_baseline cycle_id giver_id (b +ℤ burn)
]

-- One PAT with the entitlement `ent`.
unfoldable pub seed_row :
    CycleId → Option CycleId → List UserId → ℕ → UserId → ℤ → Action (Unit {0})
unfolding upsert_giver_cycle set_burn_baseline
seed_row cycle_id prev dead pct giver_id ent = if leb_ℤ ent (pos 0) then pure tt else do
  row ← gets (λ s. get_giver_cycle s cycle_id giver_id)
  if not (is_none row) then pure tt else do
    let quota = nano ent
    prev_gc ← gets (λ s. row_before s prev giver_id)
    upsert_giver_cycle cycle_id giver_id quota
        (if contains dead giver_id then pos 0 else percent quota pct)
    burn ← gets (λ s. burn_before s prev giver_id)
    carry cycle_id giver_id prev_gc burn

-- `if not ent or ent <= 0: continue`
unfoldable pub seed_one :
    CycleId → Option CycleId → List UserId → ℕ → UserId → Option ℤ → Action (Unit {0})
seed_one cycle_id prev dead pct giver_id none = pure tt
seed_one cycle_id prev dead pct giver_id (some ent) = seed_row cycle_id prev dead pct giver_id ent

-- The loop over the connected PATs.
unfoldable pub seed : CycleId → Option CycleId → List UserId → ℕ → List GiverPat → Action (Unit {0})
seed cycle_id prev dead pct [] = pure tt
seed cycle_id prev dead pct (p ∷ ps) = do
  seed_one cycle_id prev dead pct p.user_id p.entitlement
  seed cycle_id prev dead pct ps

module _ (cal : Calendar) (pct : ℕ) where
  -- Insert or reactivate the month's row.
  unfoldable pub open_row : Cycle → Action (Unit {0})
  unfolding add_cycle
  open_row c = do
    row ← gets (λ s. get_cycle s c.id)
    if is_none row then add_cycle c else modify (λ s. with_status s active c.id)

  unfoldable pub open_month_cycle : Time → Option CycleId → Action Cycle
  open_month_cycle now prev = do
    let c = month_cycle cal now
    open_row c
    dead ← gets dead_pat_givers
    pats ← gets (λ s. s.giver_pats)
    seed c.id prev dead pct pats
    pure c

  -- `_roll_over`, on the active cycle that it reads.
  unfoldable pub roll_from : Time → Option Cycle → Action Cycle
  roll_from now none = open_month_cycle now none
  roll_from now (some live) =
      if ltb now live.ends_at
      then pure live
      else if (month_cycle cal now).id == live.id
      then pure live
      else do modify (λ s. with_status s archived live.id); open_month_cycle now (some live.id)

  unfoldable pub roll_over : Time → Action Cycle
  unfolding transaction
  roll_over now = transaction do live ← gets active_cycle; roll_from now live

  -- The read before the transaction, and the roll over.
  abbrev from_current : Time → Option Cycle → Action Cycle
  from_current now none = roll_over now
  from_current now (some cur) = if ltb now cur.ends_at then pure cur else roll_over now

  unfoldable pub ensure_active_cycle : Time → Action Cycle
  ensure_active_cycle now = do cur ← gets active_cycle; from_current now cur
