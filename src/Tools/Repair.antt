-- ===== src/Tools/Repair.antt =====
-- tools/repair_baseline.py: repair_giver. The registry of PATs and the fetch from GitHub are parameters.
use ctc.Common.{ℕ, Bool, true, false, Option, none, some, ℤ, pos, [], ◌-ℤ◌, max_ℤ, if◌then◌else◌}
use ctc.Domain.{UserId, CycleId, EventId, Time, Cycle, Event, nano}
use ctc.Store.{
  Db, Action, pure, gets, transaction, ◌>>=◌, ◌>>◌, get_giver_cycle, set_burn_baseline,
  set_pending_drift,
}
use ctc.Engine.Pledge.{Live}
use ctc.Engine.Cycle.{Calendar, ensure_active_cycle}
use ctc.Engine.Reconcile.{tracked_burn, baseline_of, reconcile_giver}
use ctc.Routing.{Pat}
pub mod Anchored
pub mod Agrees

-- The dict that is returned.
pub record Repair : Type 0 where
  pub giver_id : UserId
  pub cycle_id : CycleId
  pub old_baseline : Option ℤ
  pub drift_booked_nano : ℤ

-- `pat_for`, where an empty PAT is none, and `fetch_user`, `none` where the answer is no 200.
pub record Lookup : Type 0 where
  pub pat_for : UserId → Option Pat
  pub fetch_user : Pat → Option Live

abbrev pub both_known : Option ℤ → Option ℤ → Option (ℤ × ℤ)
both_known (some ent) (some rem) = some (ent, rem)
both_known _ _ = none

abbrev pub quota_in : Option Live → Option (ℤ × ℤ)
quota_in none = none
quota_in (some live) = both_known live.entitlement live.remaining

abbrev pub fetched : Lookup → Option Pat → Option (ℤ × ℤ)
fetched from none = none
fetched from (some pat) = quota_in (from.fetch_user pat)

-- The quota that was given, if both its parts were, or else the live one; `none` is RepairError.
abbrev pub given_or : Lookup → UserId → Option (ℤ × ℤ) → Option (ℤ × ℤ)
given_or from giver_id (some quota) = some quota
given_or from giver_id none = fetched from (from.pat_for giver_id)

unfoldable pub quota_for : Lookup → UserId → Option ℤ → Option ℤ → Option (ℤ × ℤ)
quota_for from giver_id entitlement remaining =
    given_or from giver_id (both_known entitlement remaining)

-- The baseline is anchored at 0 and the pending observation is dropped.
unfoldable pub re_anchor : CycleId → UserId → Action (Unit {0})
unfolding transaction set_burn_baseline set_pending_drift
re_anchor cycle_id giver_id =
    transaction
      do set_burn_baseline cycle_id giver_id (pos 0); set_pending_drift cycle_id giver_id none none

-- An immediate reconcile, which neither reads nor writes the throttle.
unfoldable pub reconcile_now : EventId → CycleId → UserId → ℤ × ℤ → Time → Action (Option Event)
reconcile_now id cycle_id giver_id (ent, rem) now s =
    (reconcile_giver id cycle_id giver_id
      (some (record { entitlement = some ent; remaining = some rem })) now true [] s).1

abbrev pub credits_of : Option Event → ℤ
credits_of none = pos 0
credits_of (some e) = e.credits

abbrev pub report : CycleId → UserId → Option ℤ → ℤ → Repair
report cycle_id giver_id old booked = record {
  giver_id = giver_id;
  cycle_id = cycle_id;
  old_baseline = old;
  drift_booked_nano = booked;
}

unfoldable pub would_book : Db → CycleId → UserId → ℤ × ℤ → ℤ
would_book s cycle_id giver_id (ent, rem) =
    max_ℤ (pos 0) (nano (ent -ℤ rem) -ℤ tracked_burn s cycle_id giver_id)

-- What `repair_giver` does to a giver of the cycle once the quota is known.
unfoldable pub repair_row : EventId → CycleId → UserId → ℤ × ℤ → Time → Bool → Action Repair
repair_row id cycle_id giver_id quota now dry_run = do
  old ← gets (λ s. baseline_of (get_giver_cycle s cycle_id giver_id))
  planned ← gets (λ s. would_book s cycle_id giver_id quota)
  if dry_run then pure (report cycle_id giver_id old planned) else do
    re_anchor cycle_id giver_id
    event ← reconcile_now id cycle_id giver_id quota now
    pure (report cycle_id giver_id old (credits_of event))

abbrev pub repair_known :
    EventId → UserId → Time → Bool → Cycle → Option (ℤ × ℤ) → Action (Option Repair)
repair_known id giver_id now dry_run cycle none = pure none
repair_known id giver_id now dry_run cycle (some quota) = do
  r ← repair_row id cycle.id giver_id quota now dry_run
  pure (some r)

module _ (cal : Calendar) (pct : ℕ) (from : Lookup) where
  -- `none` is RepairError, which is raised after the active cycle is there.
  unfoldable pub repair_giver :
      EventId → UserId → Time → Option ℤ → Option ℤ → Bool → Action (Option Repair)
  repair_giver id giver_id now entitlement remaining dry_run = do
    cycle ← ensure_active_cycle cal pct now
    repair_known id giver_id now dry_run cycle (quota_for from giver_id entitlement remaining)
