-- ===== src/Engine/Market.antt =====
-- ctc/accounting/engine.py: create_request, cancel_request and fund_request. `uuid.uuid4().hex` is
-- an argument, the new row's identifier.
use ctc.Common.{
  Bool, true, false, not, Option, none, some, String, ℤ, pos, ◌-ℤ◌, leb_ℤ, min_ℤ, ◌==◌, is_none,
  if◌then◌else◌,
}
use ctc.Domain.{
  UserId, CycleId, RequestId, GrantId, Time, Role, RequestStatus, fulfilled, personal, Request,
  Grant, derive_status, is_closed,
}
use ctc.Store.{
  Db, Action, invalid_consumption, insufficient_credit, request_closed, pure, gets, or_raise,
  raise_if, transaction, ◌>>=◌, ◌>>◌, get_request, add_request, mark_cancelled, add_grant,
}
use ctc.Store.Query.{request_funded}
use ctc.Engine.{personal_remaining}
pub mod Funding

unfoldable pub create_request :
    RequestId → CycleId → UserId → Role → ℤ → String → Option String → Time → Time → Action Request
unfolding add_request
create_request id cycle_id requester_id role amount_needed reason target created_at expires_at = do
  let r : Request = record {
    id = id;
    cycle_id = cycle_id;
    requester_id = requester_id;
    requester_role = role;
    amount_needed = amount_needed;
    reason = reason;
    target = target;
    created_at = created_at;
    expires_at = expires_at;
    cancelled_at = none;
  }
  add_request r
  pure r

abbrev pub is_fulfilled : RequestStatus → Bool
is_fulfilled fulfilled = true
is_fulfilled _ = false

-- A request's status in the middle of a method.
abbrev pub status_at : Request → ℤ → Time → RequestStatus
status_at r funded now = derive_status funded r.amount_needed r.expires_at now r.cancelled_at

unfoldable pub cancel_request : RequestId → UserId → Time → Action (Unit {0})
unfolding transaction mark_cancelled
cancel_request request_id user_id now = transaction do
  r ← or_raise (← gets (λ s. get_request s request_id)) invalid_consumption
  raise_if (not (user_id == r.requester_id)) invalid_consumption
  if not (is_none r.cancelled_at) then pure tt else do
    funded ← gets (λ s. request_funded s request_id)
    raise_if (is_fulfilled (status_at r funded now)) (request_closed fulfilled)
    mark_cancelled request_id now

-- The grant that `fund_request` books.
abbrev pub chip_in : GrantId → RequestId → Request → UserId → ℤ → Time → Grant
chip_in id request_id r donor_id amount now = record {
  id = id;
  cycle_id = r.cycle_id;
  request_id = request_id;
  donor_id = donor_id;
  recipient_id = r.requester_id;
  amount = amount;
  created_at = now;
  source = personal;
  origin_grant_id = none;
  via_user_id = none;
  contribution_id = none;
}

unfoldable pub fund_request : GrantId → RequestId → UserId → ℤ → Time → Action Grant
unfolding transaction add_grant
fund_request id request_id donor_id amount now = transaction do
  r ← or_raise (← gets (λ s. get_request s request_id)) invalid_consumption
  raise_if (donor_id == r.requester_id) invalid_consumption
  funded ← gets (λ s. request_funded s request_id)
  raise_if (is_closed (status_at r funded now)) (request_closed (status_at r funded now))
  room ← gets (λ s. personal_remaining s r.cycle_id donor_id)
  let headroom = min_ℤ (min_ℤ amount (r.amount_needed -ℤ funded)) room
  raise_if (leb_ℤ headroom (pos 0)) insufficient_credit
  let g = chip_in id request_id r donor_id headroom now
  add_grant g
  pure g
