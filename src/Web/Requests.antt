-- ===== src/Web/Requests.antt =====
-- ctc/api/serializers.py: build_public_request. The initials of a name are left out.
use ctc.Common.{
  ℕ, String, Bool, true, false, ◌&&◌, ◌||◌, Option, none, some, List, [], ◌∷◌, ℤ, leb, ◌==◌, codes,
  length, if◌then◌else◌,
}
use ctc.Domain.{UserId, RequestId, Time, Role, RequestStatus, Request, derive_status}
use ctc.Store.{Db}
use ctc.Store.Query.{request_funded, request_pool_funded}
use ctc.Store.Display.{request_consumed, request_donor_count}

-- `get_user(...)["display_name"]`, by an identifier and by a request's target.
pub record Names : Type 0 where
  pub name_of : UserId → Option String
  pub target_name : String → Option String
  pub id_text : UserId → String

pub record PublicRequest : Type 0 where
  pub id : RequestId
  pub requester_id : UserId
  pub requester_name : String
  pub requester_role : Role
  pub amount_needed : ℤ
  pub amount_funded : ℤ
  pub funded_consumed : ℤ
  pub reason : String
  pub target : Option String
  pub created_at : Time
  pub expires_at : Time
  pub status : RequestStatus
  pub donor_count : ℕ
  pub is_own : Bool
  pub pool_funded : ℤ

-- `all(c in "0123456789abcdef" for c in target)`
unfoldable pub all_hex : List ℕ → Bool
all_hex [] = true
all_hex (c ∷ t) = (leb b'0' c && leb c b'9' || leb b'a' c && leb c b'f') && all_hex t

abbrev pub or_text : String → Option String → String
or_text text none = text
or_text text (some name) = name

-- A target that names no user: one that has the shape of an identifier is a deleted user's.
unfoldable pub unresolved : String → String
unresolved target =
    if length (codes target) == 32 && all_hex (codes target) then "Unknown user" else target

-- An empty target stays as it is.
unfoldable pub shown_target : Names → Option String → Option String
shown_target names none = none
shown_target names (some target) =
    if length (codes target) == 0
    then some target
    else some (or_text (unresolved target) (names.target_name target))

abbrev pub is_viewer : Option UserId → UserId → Bool
is_viewer none u = false
is_viewer (some v) u = v == u

unfoldable pub build_public_request : Names → Db → Request → Time → Option UserId → PublicRequest
build_public_request names s r now viewer_id =
    let funded = request_funded s r.id in
    record {
      id = r.id;
      requester_id = r.requester_id;
      requester_name = or_text (names.id_text r.requester_id) (names.name_of r.requester_id);
      requester_role = r.requester_role;
      amount_needed = r.amount_needed;
      amount_funded = funded;
      funded_consumed = request_consumed s r.id;
      reason = r.reason;
      target = shown_target names r.target;
      created_at = r.created_at;
      expires_at = r.expires_at;
      status = derive_status funded r.amount_needed r.expires_at now r.cancelled_at;
      donor_count = request_donor_count s r.id;
      is_own = is_viewer viewer_id r.requester_id;
      pool_funded = request_pool_funded s r.id;
    }
