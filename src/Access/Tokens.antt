-- ===== src/Access/Tokens.antt =====
-- ctc/auth/registry.py and the statements of ctc/store/auth_store.py on users and proxy tokens, with the
-- cap of api_token_create in api_server.py. A token's hash stands for the token, as sha256 does in the
-- table; the secret, its hash and the row's identifier are arguments. After a refusal by the database the
-- tables are not modelled.
use ctc.Common.{
  ℕ, zero, suc, ◌+◌, ◌≤◌, ◌<◌, ◌≡◌, Bool, true, false, not, ◌&&◌, Option, none, some, List, [], ◌∷◌,
  ◌++◌, length, filter, find, find_first, leb, ltb, ◌==◌, is_none, if◌then◌else◌,
}
use ctc.Domain.{UserId, Time}
use ctc.Routing.{ConsumerIdentity}
pub mod Issue
pub mod Cap

pub record User : Type 0 where
  pub id : UserId
  pub is_giver : Bool

pub record ProxyToken : Type 0 where
  pub id : ℕ
  pub token_hash : ℕ
  pub user_id : UserId
  pub created_at : Time
  pub revoked_at : Option Time

pub record AuthDb : Type 0 where
  pub users : List User
  pub proxy_tokens : List ProxyToken

abbrev pub is_live : ℕ → ProxyToken → Bool
is_live token_hash t = t.token_hash == token_hash && is_none t.revoked_at

unfoldable pub get_active_proxy_token : AuthDb → ℕ → Option ProxyToken
get_active_proxy_token s token_hash = find_first (is_live token_hash) s.proxy_tokens

unfoldable pub get_user_by_id : AuthDb → UserId → Option User
get_user_by_id s user_id = find (λ u. u.id) user_id s.users

abbrev identity_of : Option User → Option ConsumerIdentity
identity_of none = none
identity_of (some u) = some (record { user_id = u.id; is_giver = u.is_giver })

abbrev owner_of : AuthDb → Option ProxyToken → Option ConsumerIdentity
owner_of s none = none
owner_of s (some t) = identity_of (get_user_by_id s t.user_id)

unfoldable pub resolve : AuthDb → ℕ → Option ConsumerIdentity
resolve s token_hash = owner_of s (get_active_proxy_token s token_hash)

-- `token_hash` is UNIQUE and `id` the primary key; `none` is the database's refusal.
abbrev pub is_taken : ProxyToken → ProxyToken → Bool
is_taken t u = if u.id == t.id then true else u.token_hash == t.token_hash

unfoldable pub add_proxy_token : ProxyToken → AuthDb → Option AuthDb
add_proxy_token t s =
    if is_none (find_first (is_taken t) s.proxy_tokens)
    then some (record s { proxy_tokens = s.proxy_tokens ++ t ∷ [] })
    else none

-- `WHERE id = ? AND user_id = ?`
abbrev pub is_own : ℕ → UserId → ProxyToken → Bool
is_own id user_id t = t.id == id && t.user_id == user_id

unfoldable pub delete_proxy_token : ℕ → UserId → AuthDb → AuthDb
delete_proxy_token id user_id s = record s {
  proxy_tokens = filter (λ t. not (is_own id user_id t)) s.proxy_tokens;
}

unfoldable pub issue_proxy_token : ℕ → ℕ → UserId → Time → AuthDb → Option AuthDb
issue_proxy_token id token_hash user_id now s =
    add_proxy_token
      (record {
        id = id;
        token_hash = token_hash;
        user_id = user_id;
        created_at = now;
        revoked_at = none;
      })
      s

abbrev pub is_active_of : UserId → ProxyToken → Bool
is_active_of user_id t = t.user_id == user_id && is_none t.revoked_at

-- The tokens of the user that are not revoked.
unfoldable pub active_tokens : UserId → AuthDb → List ProxyToken
active_tokens user_id s = filter (is_active_of user_id) s.proxy_tokens

-- `min(active, key=created_at)` of a list with a first token; the earliest of equals.
unfoldable pub oldest : ProxyToken → List ProxyToken → ProxyToken
oldest t [] = t
oldest t (u ∷ us) = if ltb u.created_at t.created_at then oldest u us else oldest t us

-- `active.remove(oldest)`, by the identifier.
unfoldable pub remove : ℕ → List ProxyToken → List ProxyToken
remove id [] = []
remove id (t ∷ ts) = if t.id == id then ts else t ∷ remove id ts

-- `while len(active) >= MAX_ACTIVE_PROXY_TOKENS`, on fuel; each turn removes one token.
unfoldable pub evict : ℕ → ℕ → UserId → List ProxyToken → AuthDb → AuthDb
evict fuel max_active user_id [] s = s
evict zero max_active user_id (t ∷ ts) s = s
evict (suc fuel) max_active user_id (t ∷ ts) s =
    let victim = oldest t ts in
    let rest =
      evict fuel max_active user_id (remove victim.id (t ∷ ts))
        (delete_proxy_token victim.id user_id s) in
    if leb max_active (length (t ∷ ts)) then rest else s

abbrev pub max_active_proxy_tokens : ℕ
max_active_proxy_tokens = 10

-- The handler past the session and the rate limit.
unfoldable pub api_token_create : ℕ → ℕ → UserId → Time → AuthDb → Option AuthDb
api_token_create id token_hash user_id now s =
    let active = active_tokens user_id s in
    issue_proxy_token id token_hash user_id now
      (evict (length active) max_active_proxy_tokens user_id active s)
