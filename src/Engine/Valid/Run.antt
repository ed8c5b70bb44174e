-- ===== src/Engine/Valid/Run.antt =====
-- Every state that calls of the engine and debits reach, from empty tables, is valid.
use ctc.Common.{
  ℕ, String, Bool, true, false, arith, Bool-cases, inl, inr, Option, Option-cases, [], ℤ,
}
use ctc.Domain.{UserId, CycleId, RequestId, GrantId, ContributionId, EventId, Time, Role, Bucket}
use ctc.Store.{Db, add_cycle}
use ctc.Store.Frame.{Keeps}
use ctc.Store.Valid.{IsValid}
use ctc.Engine.Pledge.{Live, set_quota, set_pledge, retract_pledge, sync_quota_ceiling}
use ctc.Engine.Market.{create_request, cancel_request, fund_request}
use ctc.Engine.Pool.{fund_request_from_pool, fund_request_from_received, return_received_to_pool}
use ctc.Engine.Consume.{Tags, record_consumption}
use ctc.Engine.Reconcile.{Seen, github_burn, is_throttled, seen_at, reconcile_burn, reconcile_giver}
use ctc.Engine.Cycle.{Calendar, start_cycle, ensure_active_cycle}
use ctc.Engine.Cycle.Others.{ensure_active_cycle-Keeps}
use ctc.Engine.Valid.{ledger, IsValid-ledger, Safe}
use ctc.Engine.Valid.Booking.{
  create_request-Keeps, cancel_request-Keeps, set_quota-Keeps, set_pledge-Keeps,
  retract_pledge-Keeps, sync_quota_ceiling-Keeps, fund_request-Safe, record_consumption-Safe,
}
use ctc.Engine.Valid.Pool.{
  fund_request_from_pool-Safe, fund_request_from_received-Safe, return_received_to_pool-Safe,
}
use ctc.Engine.Valid.Spending.{debit-Safe, reconcile_row-Safe}
use ctc.Routing.{Source, ConsumerIdentity, debit}

-- A call of a method that writes the tables, with its arguments.
pub data Call : Type 0 where
  call_start_cycle : CycleId → String → Time → Time → Call
  call_ensure_active_cycle : Time → Call
  call_set_quota call_set_pledge : CycleId → UserId → ℤ → Call
  call_sync_quota_ceiling : CycleId → UserId → Option Live → Call
  call_retract_pledge : CycleId → UserId → Call
  call_create_request :
      RequestId → CycleId → UserId → Role → ℤ → String → Option String → Time → Time → Call
  call_cancel_request : RequestId → UserId → Time → Call
  call_fund_request : GrantId → RequestId → UserId → ℤ → Time → Call
  call_fund_request_from_pool : (ℕ → GrantId) → RequestId → UserId → ℤ → Time → Call
  call_fund_request_from_received : (ℕ → GrantId) → RequestId → UserId → ℤ → Time → Call
  call_return_received_to_pool : (ℕ → ContributionId) → UserId → CycleId → ℤ → Time → Call
  call_record_consumption :
      EventId → CycleId → UserId → UserId → Bucket → ℤ → Option GrantId → Time → Bool → Tags → Call
  call_debit :
      EventId → (ℕ → EventId) → CycleId → ConsumerIdentity → Source → ℤ → Time → Tags → Call
  call_reconcile_giver : EventId → CycleId → UserId → Option Live → Time → Bool → Call

-- The tables of init_db.
abbrev pub empty_db : Db
empty_db = record {
  cycles = [];
  giver_cycles = [];
  requests = [];
  grants = [];
  pool_contributions = [];
  consumption_events = [];
  giver_pats = [];
  cycle_reports = [];
}

module _ (cal : Calendar) (pct : ℕ) where
  -- What a call leaves behind, whether it returns or raises.
  unfoldable pub run : Call → Seen × Db → Seen × Db
  run (call_start_cycle c label at ends) (seen, s) = (seen, (start_cycle c label at ends s).1)
  run (call_ensure_active_cycle now) (seen, s) = (seen, (ensure_active_cycle cal pct now s).1)
  run (call_set_quota c u x) (seen, s) = (seen, (set_quota c u x s).1)
  run (call_set_pledge c u x) (seen, s) = (seen, (set_pledge c u x s).1)
  run (call_sync_quota_ceiling c u live) (seen, s) = (seen, (sync_quota_ceiling c u live s).1)
  run (call_retract_pledge c u) (seen, s) = (seen, (retract_pledge c u s).1)
  run (call_create_request i c u role x reason target at ends) (seen, s) =
      (seen, (create_request i c u role x reason target at ends s).1)
  run (call_cancel_request i u now) (seen, s) = (seen, (cancel_request i u now s).1)
  run (call_fund_request g i u x now) (seen, s) = (seen, (fund_request g i u x now s).1)
  run (call_fund_request_from_pool new_id i u x now) (seen, s) =
      (seen, (fund_request_from_pool new_id i u x now s).1)
  run (call_fund_request_from_received new_id i u x now) (seen, s) =
      (seen, (fund_request_from_received new_id i u x now s).1)
  run (call_return_received_to_pool new_id u c x now) (seen, s) =
      (seen, (return_received_to_pool new_id u c x now s).1)
  run (call_record_consumption e c u v b x g ts overshoot tags) (seen, s) =
      (seen, (record_consumption e c u v b x g ts overshoot tags s).1)
  run (call_debit e new_id c consumer source cost ts tags) (seen, s) =
      (seen, (debit e new_id c consumer source cost ts tags s).1)
  run (call_reconcile_giver e c u live ts immediate) (seen, s) =
      let (seen', r) = reconcile_giver e c u live ts immediate seen s in (seen', r.1)

  -- The states that calls reach from empty tables.
  pub data Reachable : Seen × Db → Type 0 where
    at_start : Reachable ([], empty_db)
    after : {w : Seen × Db} (call : Call) → Reachable w → Reachable (run call w)

  start_cycle-Keeps :
      (c : CycleId) (label : String) (at ends : Time) → Keeps ledger (start_cycle c label at ends)
  unfolding start_cycle add_cycle
  start_cycle-Keeps c label at ends s = ground arith

  reconcile_burn-Safe :
      (e : EventId) (c : CycleId) (u : UserId) (burn : ℤ) (ts : Time) (immediate : Bool)
      → Safe (reconcile_burn e c u burn ts immediate)
  unfolding reconcile_burn
  reconcile_burn-Safe e c u burn ts immediate s v =
      reconcile_row-Safe e c u burn ts immediate _ _ s v

  reconcile_giver-Safe :
      (e : EventId) (c : CycleId) (u : UserId) (live : Option Live) (ts : Time) (immediate : Bool)
      (seen : Seen) (s : Db)
      → IsValid s
      → IsValid (reconcile_giver e c u live ts immediate seen s).1.1
  unfolding reconcile_giver
  reconcile_giver-Safe e c u live ts immediate seen s v = elim (Option-cases (github_burn live)) [
    | inl unknown ↦ rw unknown v
    | inr (burn, known) ↦ elim (Bool-cases immediate) [
      | inl at_once ↦ rw (known, at_once) (reconcile_burn-Safe e c u burn ts true s v)
      | inr later ↦ elim (Bool-cases (is_throttled (seen_at seen c u) ts)) [
        | inl soon ↦ rw (known, later, soon) v
        | inr due ↦ rw (known, later, due) (reconcile_burn-Safe e c u burn ts false s v)
      ]
    ]
  ]

  run-IsValid : (call : Call) (w : Seen × Db) → IsValid w.1 → IsValid (run call w).1
  unfolding run
  run-IsValid (call_start_cycle c label at ends) (seen, s) v =
      IsValid-ledger (start_cycle-Keeps c label at ends s) v
  run-IsValid (call_ensure_active_cycle now) (seen, s) v =
      IsValid-ledger
        (λ i.
          let t = ensure_active_cycle-Keeps cal pct now s i in
          (t.grants, (t.pool_contributions, t.consumption_events)))
        v
  run-IsValid (call_set_quota c u x) (seen, s) v = IsValid-ledger (set_quota-Keeps c u x s) v
  run-IsValid (call_set_pledge c u x) (seen, s) v = IsValid-ledger (set_pledge-Keeps c u x s) v
  run-IsValid (call_sync_quota_ceiling c u live) (seen, s) v =
      IsValid-ledger (sync_quota_ceiling-Keeps c u live s) v
  run-IsValid (call_retract_pledge c u) (seen, s) v = IsValid-ledger (retract_pledge-Keeps c u s) v
  run-IsValid (call_create_request i c u role x reason target at ends) (seen, s) v =
      IsValid-ledger (create_request-Keeps i c u role x reason target at ends s) v
  run-IsValid (call_cancel_request i u now) (seen, s) v =
      IsValid-ledger (cancel_request-Keeps i u now s) v
  run-IsValid (call_fund_request g i u x now) (seen, s) v = fund_request-Safe g i u x now s v
  run-IsValid (call_fund_request_from_pool new_id i u x now) (seen, s) v =
      fund_request_from_pool-Safe new_id i u x now s v
  run-IsValid (call_fund_request_from_received new_id i u x now) (seen, s) v =
      fund_request_from_received-Safe new_id i u x now s v
  run-IsValid (call_return_received_to_pool new_id u c x now) (seen, s) v =
      return_received_to_pool-Safe new_id u c x now s v
  run-IsValid (call_record_consumption e c u w b x g ts overshoot tags) (seen, s) v =
      record_consumption-Safe e c u w b x g ts overshoot tags s v
  run-IsValid (call_debit e new_id c consumer source cost ts tags) (seen, s) v =
      debit-Safe e new_id c consumer source cost ts tags s v
  run-IsValid (call_reconcile_giver e c u live ts immediate) (seen, s) v =
      reconcile_giver-Safe e c u live ts immediate seen s v

  -- Whatever calls were made, in any order and with any arguments, and whichever of them raised: every
  -- booked amount is positive, every grant is found by its identifier, and a grant that was re-donated or
  -- whose credit was returned to the pool is there and is no re-donation itself.
  pub Reachable-IsValid : {w : Seen × Db} → Reachable w → IsValid w.1
  Reachable-IsValid at_start = record { events = tt; grants = tt; found = tt; contributions = tt }
  Reachable-IsValid (after {w} call r) = run-IsValid call w (Reachable-IsValid r)
