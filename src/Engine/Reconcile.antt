-- ===== src/Engine/Reconcile.antt =====
-- ctc/accounting/engine.py: _tracked_burn, reconcile_giver and _book_bypass. The engine's in-memory
-- throttle is the state `Seen`.
use ctc.Common.{
  ℕ, ◌+◌, Bool, true, false, not, ◌&&◌, Option, none, some, List, [], ◌∷◌, ℤ, pos, ◌+ℤ◌, ◌-ℤ◌, ltb,
  leb, ltb_ℤ, leb_ℤ, min_ℤ, max_ℤ, ◌==◌, is_none, if◌then◌else◌,
}
use ctc.Domain.{UserId, CycleId, EventId, Time, bypass, GiverCycle, Event, nano}
use ctc.Store.{
  Db, Result, ok, Action, pure, gets, transaction, ◌>>=◌, ◌>>◌, get_giver_cycle, set_burn_baseline,
  set_pending_drift, add_event,
}
use ctc.Store.Query.{own_consumed, bypass_consumed, pool_consumed_from, grants_consumed_from}
use ctc.Engine.Pledge.{Live}
use ctc.Engine.Consume.{event_of}
pub mod Sums
pub mod Booked
pub mod Giver

-- `RECONCILE_CONFIRM_MIN_S`, `RECONCILE_CONFIRM_WINDOW_MAX` and `RECONCILE_THROTTLE_S`
abbrev pub confirm_min_s : ℕ
confirm_min_s = 90

abbrev pub confirm_window_max : ℕ
confirm_window_max = 900

abbrev pub throttle_s : ℕ
throttle_s = 60

unfoldable pub tracked_burn : Db → CycleId → UserId → ℤ
tracked_burn s cycle_id giver_id =
    own_consumed s cycle_id giver_id
    +ℤ pool_consumed_from s cycle_id giver_id
    +ℤ grants_consumed_from s cycle_id giver_id
    +ℤ bypass_consumed s cycle_id giver_id

-- `gc.burn_baseline if (gc and gc.burn_baseline is not None) else 0`
abbrev pub base_or_zero : Option ℤ → ℤ
base_or_zero none = pos 0
base_or_zero (some b) = b

abbrev pub baseline_of : Option GiverCycle → Option ℤ
baseline_of none = none
baseline_of (some gc) = gc.burn_baseline

-- `if cap is not None: drift = min(drift, cap)`
abbrev pub capped : Option ℤ → ℤ → ℤ
capped none drift = drift
capped (some limit) drift = min_ℤ drift limit

-- The burn that GitHub reports and that is not accounted for.
unfoldable pub drift_of : Db → CycleId → UserId → ℤ → ℤ
drift_of s cycle_id giver_id github_burn =
    github_burn
    -ℤ base_or_zero (baseline_of (get_giver_cycle s cycle_id giver_id))
    -ℤ tracked_burn s cycle_id giver_id

unfoldable pub book_bypass :
    EventId → CycleId → UserId → ℤ → Time → Option ℤ → Action (Option Event)
unfolding transaction add_event set_pending_drift
book_bypass id cycle_id giver_id github_burn ts limit = transaction do
  measured ← gets (λ s. drift_of s cycle_id giver_id github_burn)
  let drift = capped limit measured
  set_pending_drift cycle_id giver_id none none
  if leb_ℤ drift (pos 0) then pure none else do
    let event =
        event_of id cycle_id giver_id giver_id bypass drift none ts
          (record { run_tag = none; model = none; exchange_id = none })
    add_event event
    pure (some event)

-- `max(0, github_burn - tracked)` becomes the baseline; `anchor` also drops a pending observation.
unfoldable pub capture : CycleId → UserId → ℤ → Action (Option Event)
unfolding transaction set_burn_baseline
capture cycle_id giver_id baseline = do
  transaction (set_burn_baseline cycle_id giver_id baseline)
  pure none

unfoldable pub anchor : CycleId → UserId → ℤ → Action (Option Event)
unfolding transaction set_burn_baseline set_pending_drift
anchor cycle_id giver_id baseline = do
  transaction
      do set_burn_baseline cycle_id giver_id baseline; set_pending_drift cycle_id giver_id none none
  pure none

unfoldable pub note_drift : CycleId → UserId → Option ℤ → Option Time → Action (Option Event)
unfolding transaction set_pending_drift
note_drift cycle_id giver_id drift at = do
  transaction (set_pending_drift cycle_id giver_id drift at)
  pure none

-- The debounce of a positive drift, on the pending observation.
unfoldable pub debounce :
    EventId → CycleId → UserId → ℤ → ℤ → Time → Option ℤ → Option Time → Action (Option Event)
debounce id cycle_id giver_id github_burn drift ts (some pending) (some at) =
    if ltb ts (at + confirm_min_s)
    then pure none
    else if ltb (at + confirm_window_max) ts
    then note_drift cycle_id giver_id (some drift) (some ts)
    else book_bypass id cycle_id giver_id github_burn ts (some (min_ℤ pending drift))
debounce id cycle_id giver_id github_burn drift ts _ _ =
    note_drift cycle_id giver_id (some drift) (some ts)

abbrev pub pending_of : Option GiverCycle → Option ℤ
pending_of none = none
pending_of (some gc) = gc.pending_drift

abbrev pub pending_at_of : Option GiverCycle → Option Time
pending_at_of none = none
pending_at_of (some gc) = gc.pending_drift_at

-- `reconcile_giver` from its reading of the tables on.
unfoldable pub reconcile_row :
    EventId → CycleId → UserId → ℤ → Time → Bool → Option GiverCycle → ℤ → Action (Option Event)
reconcile_row id cycle_id giver_id github_burn ts immediate gc tracked =
    let base = base_or_zero (baseline_of gc) in
    let drift = github_burn -ℤ base -ℤ tracked in
    if is_none (baseline_of gc) && not immediate
    then capture cycle_id giver_id (max_ℤ (pos 0) (github_burn -ℤ tracked))
    else if ltb_ℤ github_burn base
    then anchor cycle_id giver_id (max_ℤ (pos 0) (github_burn -ℤ tracked))
    else if leb_ℤ drift (pos 0)
    then if is_none (pending_of gc) then pure none else note_drift cycle_id giver_id none none
    else if immediate
    then book_bypass id cycle_id giver_id github_burn ts none
    else debounce id cycle_id giver_id github_burn drift ts (pending_of gc) (pending_at_of gc)

unfoldable pub reconcile_burn : EventId → CycleId → UserId → ℤ → Time → Bool → Action (Option Event)
reconcile_burn id cycle_id giver_id github_burn ts immediate s =
    reconcile_row id cycle_id giver_id github_burn ts immediate
      (get_giver_cycle s cycle_id giver_id) (tracked_burn s cycle_id giver_id) s

-- The guards on `live`: unknown, unlimited and corrupt data give no burn.
abbrev pub burn_of : Option ℤ → Option ℤ → Option ℤ
burn_of (some ent) (some rem) =
    if ltb_ℤ ent (pos 0) then none else if ltb_ℤ rem (pos 0) then none else some (nano (ent -ℤ rem))
burn_of _ _ = none

unfoldable pub github_burn : Option Live → Option ℤ
github_burn none = none
github_burn (some live) = burn_of live.entitlement live.remaining

-- `_reconcile_seen`
abbrev pub Seen : Type 0
Seen = List (CycleId × UserId × Time)

unfoldable pub seen_at : Seen → CycleId → UserId → Option Time
seen_at [] c u = none
seen_at ((c', u', t) ∷ seen) c u = if c' == c && u' == u then some t else seen_at seen c u

-- `0 <= ts - last < RECONCILE_THROTTLE_S`
abbrev pub is_throttled : Option Time → Time → Bool
is_throttled none ts = false
is_throttled (some last) ts = leb last ts && ltb ts (last + throttle_s)

abbrev pub reconcile_seen :
    EventId → CycleId → UserId → ℤ → Time → Bool → Seen → Db → Seen × (Result (Option Event) × Db)
reconcile_seen id c u burn ts true seen s = (seen, reconcile_burn id c u burn ts true s)
reconcile_seen id c u burn ts false seen s =
    if is_throttled (seen_at seen c u) ts
    then (seen, (ok none, s))
    else ((c, u, ts) ∷ seen, reconcile_burn id c u burn ts false s)

abbrev pub reconcile_known :
    EventId
    → CycleId
    → UserId
    → Option ℤ
    → Time
    → Bool
    → Seen
    → Db
    → Seen × (Result (Option Event) × Db)
reconcile_known id c u none ts immediate seen s = (seen, (ok none, s))
reconcile_known id c u (some burn) ts immediate seen s =
    reconcile_seen id c u burn ts immediate seen s

unfoldable pub reconcile_giver :
    EventId
    → CycleId
    → UserId
    → Option Live
    → Time
    → Bool
    → Seen
    → Db
    → Seen × (Result (Option Event) × Db)
unfolding github_burn
reconcile_giver id c u live ts immediate seen s =
    reconcile_known id c u (github_burn live) ts immediate seen s
