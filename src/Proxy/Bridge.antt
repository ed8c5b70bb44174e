-- ===== src/Proxy/Bridge.antt =====
-- ctc/routing/anthropic_bridge.py: a native Claude Code request in the schema that Copilot accepts. Case
-- and digits are ASCII's; the JSON coder is a parameter, `none` where it raises.
use ctc.Common.{
  ℕ, zero, suc, ◌+◌, String, Bool, true, false, not, ◌&&◌, ◌||◌, Option, none, some, List, [], ◌∷◌,
  ◌++◌, ℤ, pos, leb_ℤ, ltb, leb, ◌==◌, is_none, same_text, codes, length, filter, map,
  if◌then◌else◌,
}
use ctc.Json.{Text, Json, int, str, obj, Fields, field, empty, lookup}
use ctc.Metering.{to_lower, starts_with, drop, strip, same_codes, is_empty}
use ctc.Proxy.Failover.{set_field}
pub mod Lookups
pub mod Accepted
pub mod Stripping
pub mod Conforms

-- What the keyword arguments default to, from ctc/contract.py.
pub record Config : Type 0 where
  pub strip_fields : List String
  pub thinking_mode : String
  pub thinking_budget : Json
  pub between_tools_models : List Text
  pub adaptive_models : List Text

-- `_min_budget`; a number that is no int, True and False fall back to the floor.
unfoldable pub min_budget : Json → ℤ
min_budget (int n) = if leb_ℤ (pos 1024) n then n else pos 1024
min_budget _ = pos 1024

-- `.replace(".", "-")` on one character.
abbrev pub dashed : ℕ → ℕ
dashed c = if c == b'.' then b'-' else c

-- `s.split("-", 1)[0]`
unfoldable pub first_segment : Text → Text
first_segment [] = []
first_segment (c ∷ t) = let rest = first_segment t in if c == b'-' then [] else c ∷ rest

unfoldable pub all_digits : Text → Bool
all_digits [] = true
all_digits (c ∷ t) = leb b'0' c && leb c b'9' && all_digits t

-- `seg.isdigit() and len(seg) < 8`
abbrev pub is_minor_version : Text → Bool
is_minor_version seg = not (is_empty seg) && all_digits seg && ltb (length seg) 8

-- One turn of the loop over the prefixes.
unfoldable pub has_prefix : Text → Text → Bool
has_prefix m p =
    same_codes m p
    || starts_with (p ++ b'-' ∷ []) m
      && not (is_minor_version (first_segment (drop (length p + 1) m)))

unfoldable pub any_prefix : Text → List Text → Bool
any_prefix m [] = false
any_prefix m (p ∷ ps) = has_prefix m p || any_prefix m ps

-- `_model_in`
abbrev pub model_in : Option Json → List Text → Bool
model_in (some (str model)) prefixes = any_prefix (map dashed (map to_lower (codes model))) prefixes
model_in _ prefixes = false

-- `_off_type`
unfoldable pub off_type : Option Json → List Text → String
off_type model between_tools_models =
    if model_in model between_tools_models then "between_tools" else "disabled"

-- `obj.pop(key)`
unfoldable pub remove_field : String → Fields → Fields
remove_field k empty = empty
remove_field k (field j v fields) =
    if same_text j k then remove_field k fields else field j v (remove_field k fields)

-- The loop over the fields to strip, with `changed`; a model that only thinks adaptively keeps its
-- `output_config`.
abbrev pub is_kept : Bool → String → Fields → Bool
is_kept adaptive_only f fields =
    adaptive_only && same_text f "output_config" || is_none (lookup f fields)

unfoldable pub strip_field : Bool → String → Fields × Bool → Fields × Bool
strip_field adaptive_only f (fields, changed) =
    if is_kept adaptive_only f fields then (fields, changed) else (remove_field f fields, true)

unfoldable pub strip_all : Bool → List String → Fields × Bool → Fields × Bool
strip_all adaptive_only [] p = p
strip_all adaptive_only (f ∷ fs) p = strip_all adaptive_only fs (strip_field adaptive_only f p)

-- `x == "..."` where `x` may be any value.
abbrev pub is_str : String → Option Json → Bool
is_str s (some (str t)) = same_text t s
is_str s _ = false

-- An int, not a bool, of at least 1024.
abbrev pub is_budget : Option Json → Bool
is_budget (some (int n)) = leb_ℤ (pos 1024) n
is_budget _ = false

abbrev pub typed : String → Fields → Json
typed t more = obj (field "type" (str t) more)

module _ (c : Config) where
  -- What replaces `thinking`: `none` where it stays.
  unfoldable pub coerced : String → Fields → Option Json
  coerced off th =
      if is_str "disabled" (lookup "type" th) || is_str "between_tools" (lookup "type" th)
      then (if is_str off (lookup "type" th) then none else some (typed off empty))
      else if not (is_str "enabled" (lookup "type" th))
      then some (
          if same_text c.thinking_mode "enabled"
          then typed "enabled" (field "budget_tokens" (int (min_budget c.thinking_budget)) empty)
          else typed off empty)
      else if is_budget (lookup "budget_tokens" th)
      then none
      else some (obj (set_field "budget_tokens" (int (min_budget c.thinking_budget)) th))

  abbrev pub replace_thinking : Option Json → Fields × Bool → Fields × Bool
  replace_thinking none (fields, changed) = (fields, changed)
  replace_thinking (some th) (fields, changed) = (set_field "thinking" th fields, true)

  unfoldable pub coerce_thinking : Bool → Option Json → Fields × Bool → Fields × Bool
  coerce_thinking adaptive_only (some (obj th)) (fields, changed) =
      if adaptive_only
      then (if is_str "adaptive" (lookup "type" th)
          then (fields, changed)
          else (remove_field "thinking" fields, true))
      else replace_thinking (coerced (off_type (lookup "model" fields) c.between_tools_models) th)
          (fields, changed)
  coerce_thinking adaptive_only _ (fields, changed) = (fields, changed)

  abbrev pub coerce_after : Bool → Fields × Bool → Fields × Bool
  coerce_after adaptive_only (fields, changed) =
      coerce_thinking adaptive_only (lookup "thinking" fields) (fields, changed)

  -- The two transforms of the object, and whether they changed it.
  unfoldable pub normalize : Fields → Fields × Bool
  normalize fields =
      let adaptive_only = model_in (lookup "model" fields) c.adaptive_models in
      coerce_after adaptive_only (strip_all adaptive_only c.strip_fields (fields, false))

  module _ (loads : Text → Option Json) (dumps : Json → Option Text) where
    abbrev pub written_or : Text → Option Text → Text
    written_or body none = body
    written_or body (some t) = t

    abbrev pub encode_changed : Text → Fields × Bool → Text
    encode_changed body (fields, changed) =
        if not changed then body else written_or body (dumps (obj fields))

    abbrev pub transform_decoded : Text → Option Json → Text
    transform_decoded body (some (obj fields)) = encode_changed body (normalize fields)
    transform_decoded body _ = body

    unfoldable pub transform_request_body : Text → Text
    transform_request_body body = transform_decoded body (loads body)

-- Headers by name, as a dict.
abbrev pub Headers : Type 0
Headers = List (Text × Text)

-- `fwd[name] = value`
unfoldable pub set_header : Text → Text → Headers → Headers
set_header k v [] = (k, v) ∷ []
set_header k v ((j, w) ∷ hs) =
    let rest = set_header k v hs in if same_codes j k then (k, v) ∷ hs else (j, w) ∷ rest

-- `fwd.update(identity)`
unfoldable pub update_headers : Headers → Headers → Headers
update_headers [] fwd = fwd
update_headers ((k, v) ∷ identity) fwd = update_headers identity (set_header k v fwd)

abbrev pub is_beta : Text × Text → Bool
is_beta (k, v) = same_codes (map to_lower k) (codes "anthropic-beta")

-- The loop over the variants of the header: the last one popped.
unfoldable pub last_beta : Option Text → Headers → Option Text
last_beta last [] = last
last_beta last ((k, v) ∷ hs) = last_beta (if is_beta (k, v) then some v else last) hs

abbrev pub grow_first : ℕ → List Text → List Text
grow_first c [] = (c ∷ []) ∷ []
grow_first c (part ∷ parts) = (c ∷ part) ∷ parts

-- `s.split(",")`
unfoldable pub split_commas : Text → List Text
split_commas [] = [] ∷ []
split_commas (c ∷ t) =
    let rest = split_commas t in if c == b',' then [] ∷ rest else grow_first c rest

-- `b.strip() in beta_allow`
unfoldable pub is_allowed : List Text → Text → Bool
is_allowed [] b = false
is_allowed (a ∷ allow) b = same_codes a b || is_allowed allow b

-- `",".join(keep)`
unfoldable pub join_commas : List Text → Text
join_commas [] = []
join_commas (b ∷ []) = b
join_commas (b ∷ d ∷ bs) = b ++ b',' ∷ join_commas (d ∷ bs)

abbrev pub with_beta : List Text → Headers → Headers
with_beta [] fwd = fwd
with_beta (b ∷ keep) fwd = set_header (codes "anthropic-beta") (join_commas (b ∷ keep)) fwd

abbrev pub filter_beta : List Text → Option Text → Headers → Headers
filter_beta allow none fwd = fwd
filter_beta allow (some v) fwd =
    with_beta (filter (is_allowed allow) (map strip (split_commas v))) fwd

unfoldable pub transform_request_headers : Headers → List Text → Headers → Headers
transform_request_headers identity beta_allow fwd =
    let updated = update_headers identity fwd in
    filter_beta beta_allow (last_beta none updated) (filter (λ h. not (is_beta h)) updated)
