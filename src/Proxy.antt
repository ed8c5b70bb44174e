-- ===== src/Proxy.antt =====
-- proxy.py: which requests are billed, and what a rejection by the upstream means. GHE_DOMAIN and the
-- JSON decoder are parameters; a path is its text before the query.
use ctc.Common.{
  ℕ, suc, ◌+◌, String, Bool, true, false, not, ◌&&◌, ◌||◌, Option, none, some, List, [], ◌∷◌, ℤ,
  pos, negsuc, same_text, codes, ◌==◌, if◌then◌else◌,
}
use ctc.Json.{
  Text, Json, null, bool, int, float, str, arr, obj, Float, Fields, Items, lookup, empty, field,
  nothing, item, finite, infinite, not_a_number,
}
use ctc.Metering.{is_empty, occurs}
pub mod Failover
pub mod Bridge
pub mod Gate
pub mod Body

pub record Hosts : Type 0 where
  pub api : String
  pub ghe : String
  pub copilot_api : String
  pub real_ghe : String

abbrev pub is_swap_host : Hosts → String → Bool
is_swap_host hosts h =
    same_text h hosts.api || same_text h hosts.ghe || same_text h hosts.copilot_api

unfoldable pub should_swap : Hosts → String → Bool
should_swap hosts upstream_host = is_swap_host hosts upstream_host

abbrev pub is_billable_path : String → Bool
is_billable_path p =
    same_text p "/chat/completions" || same_text p "/v1/messages" || same_text p "/responses"

-- `method` is the method in upper case and `path` the path up to a question mark.
unfoldable pub is_billable : Hosts → String → String → String → Bool
is_billable hosts upstream_host method path =
    same_text upstream_host hosts.copilot_api && same_text method "POST" && is_billable_path path

unfoldable pub is_session_bootstrap : Hosts → String → String → String → Bool
is_session_bootstrap hosts upstream_host method path =
    same_text upstream_host hosts.copilot_api
    && same_text method "POST"
    && same_text path "/models/session"

unfoldable pub is_bridge_request : Hosts → String → String → String → Bool
is_bridge_request hosts upstream_host method path =
    same_text upstream_host hosts.copilot_api
    && same_text method "POST"
    && same_text path "/v1/messages"

abbrev pub is_local : String → Bool
is_local h = same_text h "api.localhost" || same_text h "localhost" || same_text h "127.0.0.1"

abbrev pub is_mitm_host : Hosts → String → Bool
is_mitm_host hosts h =
    is_swap_host hosts h
    || same_text h "api.github.com"
    || same_text h "api.localhost"
    || same_text h "localhost"

-- Whether to intercept, and the host and the port to go to.
unfoldable pub decide_route : Hosts → String → ℕ → Bool × (String × ℕ)
decide_route hosts host port =
    if is_local host then (true, (hosts.real_ghe, 443)) else (is_mitm_host hosts host, (host, port))

-- A value that Python takes as false.
abbrev pub is_falsy_number : Float → Bool
is_falsy_number (finite negative whole fraction) = whole == 0 && not fraction
is_falsy_number _ = false

unfoldable pub is_falsy : Json → Bool
is_falsy null = true
is_falsy (bool b) = not b
is_falsy (int n) = elim n [ pos k ↦ k == 0 | negsuc _ ↦ false ]
is_falsy (float x) = is_falsy_number x
is_falsy (str s) = same_text s ""
is_falsy (arr nothing) = true
is_falsy (arr (item _ _)) = false
is_falsy (obj empty) = true
is_falsy (obj (field _ _ _)) = false

abbrev pub is_quota_code : Option Json → Bool
is_quota_code (some (str code)) = same_text code "quota_exceeded"
is_quota_code _ = false

-- `err.get("code") == "quota_exceeded"`, with `none` for the AttributeError of a value that is no dict.
abbrev pub code_of_error : Json → Option Bool
code_of_error (obj fields) = some (is_quota_code (lookup "code" fields))
code_of_error j = none

-- `... .get("error") or {}`
abbrev pub error_of : Option Json → Option Bool
error_of none = some false
error_of (some e) = if is_falsy e then some false else code_of_error e

-- A body that is no dict is caught, as is one that is no JSON.
abbrev pub quota_error : Option Json → Option Bool
quota_error (some (obj fields)) = error_of (lookup "error" fields)
quota_error _ = some false

module _ (loads : Text → Option Json) where
  -- `none` is an exception that leaves the function.
  unfoldable pub is_quota_exceeded_402 : ℕ → Text → Option Bool
  is_quota_exceeded_402 status body =
      if not (status == 402)
      then some false
      else quota_error (loads (if is_empty body then codes "{}" else body))

unfoldable pub is_invalid_auto_mode_selector_401 : ℕ → Text → Bool
is_invalid_auto_mode_selector_401 status body =
    status == 401 && occurs (codes "Invalid auto-mode selector") body

unfoldable pub is_pat_rejected_401 : ℕ → Text → Bool
is_pat_rejected_401 status body =
    status == 401 && not (is_invalid_auto_mode_selector_401 status body)
