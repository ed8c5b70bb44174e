-- ===== src/Web/Market.antt =====
-- ctc/api/web_routes.py: list_requests, create_request, donate, pool_return, pool_fund and
-- delete_request. A session without a user is answered 401 first; a body's fields are checked as
-- pydantic checks them.
use ctc.Common.{
  ℕ, ◌+◌, ◌*◌, String, Bool, true, false, not, ◌&&◌, Option, none, some, List, ℤ, pos, negsuc,
  leb_ℤ, ltb_ℤ, leb, ◌==◌, codes, length, filter, map, if◌then◌else◌,
}
use ctc.Domain.{
  UserId, RequestId, GrantId, ContributionId, Time, Role, giver, consumer, Request, Cycle, nano,
}
use ctc.Store.{Db, ok, err, get_request}
use ctc.Store.Query.{list_requests}
use ctc.Engine.{personal_remaining, re_donatable_remaining, pool_available}
use ctc.Engine.Cycle.{Calendar, ensure_active_cycle}
use ctc.Engine.Market.{create_request, cancel_request, fund_request}
use ctc.Engine.Pool.{fund_request_from_pool, fund_request_from_received, return_received_to_pool}
use ctc.Web.{
  Answer, sent, refused, Viewer, answered, fund_status, return_status, delete_status, uncaught,
}
use ctc.Web.Requests.{Names, PublicRequest, build_public_request}
pub mod Refused

-- What the handlers read of the effective configuration.
pub record MarketConfig : Type 0 where
  pub shared_pool_enabled : Bool
  pub request_expiry_hours : ℤ
  pub request_expiry_max_hours : ℤ

pub record RequestList : Type 0 where
  pub requests : List PublicRequest
  pub all : ℕ
  pub pro : ℕ
  pub noob : ℕ
  pub pool_enabled : Bool
  pub pool_available : ℤ
  pub viewer_personal_remaining : ℤ
  pub viewer_received_remaining : ℤ

pub record CreateRequest : Type 0 where
  pub amount_needed : ℤ
  pub reason : String
  pub target : Option String
  pub expiry_hours : Option ℤ

-- `source == "received"` and the amount.
pub record Donate : Type 0 where
  pub amount : ℤ
  pub is_received : Bool

pub record Returned : Type 0 where
  pub pool_available : ℤ
  pub received_remaining : ℤ

abbrev pub is_giver_role : Role → Bool
is_giver_role giver = true
is_giver_role consumer = false

abbrev pub with_user :
    {A : Type 0} → Option Viewer → (Viewer → Db → Answer A × Db) → Db → Answer A × Db
with_user none f s = (refused 401, s)
with_user (some user) f s = f user s

-- `gt=0`
abbrev pub if_valid : {A : Type 0} → Bool → (Db → Answer A × Db) → Db → Answer A × Db
if_valid true f s = f s
if_valid false f s = (refused 422, s)

abbrev pub is_short : ℕ → Option String → Bool
is_short n none = true
is_short n (some t) = leb (length (codes t)) n

unfoldable pub is_valid_create : CreateRequest → Bool
is_valid_create b =
    ltb_ℤ (pos 0) b.amount_needed
    && leb_ℤ b.amount_needed (nano (pos 10_000))
    && leb 1 (length (codes b.reason))
    && leb (length (codes b.reason)) 500
    && is_short 200 b.target

-- The request, or 404.
abbrev pub with_request :
    {A : Type 0} → RequestId → (Request → Db → Answer A × Db) → Db → Answer A × Db
with_request request_id f s = elim (get_request s request_id) [
  | none ↦ (refused 404, s)
  | some r ↦ f r s
]

abbrev pub guard : {A : Type 0} → Bool → ℕ → (Db → Answer A × Db) → Db → Answer A × Db
guard true status f s = f s
guard false status f s = (refused status, s)

abbrev pub or_hours : ℤ → Option ℤ → ℤ
or_hours default none = default
or_hours default (some h) = h

-- `min(ts + hours * 3600, ends_at)`; the hours are at least 1 where this is read.
abbrev pub expiry : Time → ℤ → Time → Time
expiry ts (pos h) ends_at = if leb (ts + h * 3600) ends_at then ts + h * 3600 else ends_at
expiry ts (negsuc h) ends_at = ends_at

module _ (names : Names) (config : MarketConfig) (cal : Calendar) (pct : ℕ) where
  abbrev pub with_active_cycle :
      {A : Type 0} → Time → (Cycle → Db → Answer A × Db) → Db → Answer A × Db
  with_active_cycle now f s =
      let (r, t) = ensure_active_cycle cal pct now s in
      elim r [ ok cycle ↦ f cycle t | err e ↦ (refused 500, t) ]

  -- The request as it is after the call, for the viewer.
  abbrev pub shown : RequestId → Time → Option UserId → Db → Answer PublicRequest
  shown request_id ts viewer_id s = elim (get_request s request_id) [
    | none ↦ refused 500
    | some r ↦ sent (build_public_request names s r ts viewer_id)
  ]

  abbrev pub list_for : Option Role → Time → Viewer → Cycle → Db → RequestList
  list_for only ts user cycle s =
      let dtos =
        map (λ r. build_public_request names s r ts (some user.id)) (list_requests s cycle.id) in
      record {
        requests = elim only [
          | none ↦ dtos
          | some giver ↦ filter (λ d. is_giver_role d.requester_role) dtos
          | some consumer ↦ filter (λ d. not (is_giver_role d.requester_role)) dtos
        ];
        all = length dtos;
        pro = length (filter (λ d. is_giver_role d.requester_role) dtos);
        noob = length (filter (λ d. not (is_giver_role d.requester_role)) dtos);
        pool_enabled = config.shared_pool_enabled;
        pool_available = if config.shared_pool_enabled then pool_available s cycle.id else pos 0;
        viewer_personal_remaining = personal_remaining s cycle.id user.id;
        viewer_received_remaining = re_donatable_remaining s cycle.id user.id;
      }

  -- `filter` is "pro", "noob" or anything else.
  unfoldable pub get_requests : Option Viewer → Option Role → Time → Db → Answer RequestList × Db
  get_requests user only ts =
      with_user user λ u. with_active_cycle ts λ cycle s. (sent (list_for only ts u cycle s), s)

  unfoldable pub post_request :
      RequestId → Option Viewer → CreateRequest → Time → Db → Answer PublicRequest × Db
  post_request id user b ts = with_user user λ u. if_valid (is_valid_create b) (
      with_active_cycle ts λ cycle.
        let hours = or_hours config.request_expiry_hours b.expiry_hours in
        guard (leb_ℤ (pos 1) hours && leb_ℤ hours config.request_expiry_max_hours) 422 λ s.
          answered uncaught (λ r t. sent (build_public_request names t r ts (some u.id)))
            (create_request id cycle.id u.id u.role b.amount_needed b.reason b.target ts
              (expiry ts hours cycle.ends_at) s))

  unfoldable pub donate :
      GrantId
      → (ℕ → GrantId)
      → Option Viewer
      → RequestId
      → Donate
      → Time
      → Db
      → Answer PublicRequest × Db
  donate id new_id user request_id b ts = with_user user λ u. if_valid (ltb_ℤ (pos 0) b.amount) (
      with_request request_id λ r s.
        if b.is_received
        then answered fund_status (λ _ t. shown request_id ts none t)
            (fund_request_from_received new_id request_id u.id b.amount ts s)
        else answered fund_status (λ _ t. shown request_id ts none t)
            (fund_request id request_id u.id b.amount ts s))

  unfoldable pub pool_return :
      (ℕ → ContributionId) → Option Viewer → ℤ → Time → Db → Answer Returned × Db
  pool_return new_id user amount ts = with_user user λ u. if_valid (ltb_ℤ (pos 0) amount) (
      guard config.shared_pool_enabled 409 (
        with_active_cycle ts λ cycle s.
          answered return_status
            (λ _ t. sent (record {
              pool_available = pool_available t cycle.id;
              received_remaining = re_donatable_remaining t cycle.id u.id;
            }))
            (return_received_to_pool new_id u.id cycle.id amount ts s)))

  unfoldable pub pool_fund :
      (ℕ → GrantId) → Option Viewer → RequestId → ℤ → Time → Db → Answer PublicRequest × Db
  pool_fund new_id user request_id amount ts = with_user user λ u. if_valid (ltb_ℤ (pos 0) amount) (
      with_request request_id λ r. guard (r.requester_id == u.id) 403 (
        guard config.shared_pool_enabled 409 λ s.
          answered fund_status (λ _ t. shown request_id ts (some u.id) t)
            (fund_request_from_pool new_id request_id u.id amount ts s)))

-- 204 has no body.
unfoldable pub delete_request : Option Viewer → RequestId → Time → Db → Answer (Unit {0}) × Db
delete_request user request_id ts = with_user user λ u. with_request request_id λ r.
    guard (r.requester_id == u.id) 403
      λ s. answered delete_status (λ _ t. sent tt) (cancel_request request_id u.id ts s)
