-- ===== src/Examples/Bridging.antt =====
-- Requests of Claude Code on their way through the bridge.
use ctc.Common.{
  ◌≡◌, refl, true, false, Option, none, some, [], ◌∷◌, pos, codes, filter, length, if◌then◌else◌,
}
use ctc.Json.{Text, Json, int, str, obj, Fields, field, empty, lookup}
use ctc.Metering.{starts_with, drop, lstrip, rstrip, same_codes}
use ctc.Proxy.Failover.{set_field}
use ctc.Proxy.Bridge.{
  Config, min_budget, first_segment, all_digits, has_prefix, any_prefix, model_in, off_type,
  remove_field, strip_field, strip_all, coerced, coerce_thinking, normalize, transform_request_body,
  Headers, set_header, update_headers, last_beta, split_commas, is_allowed, join_commas,
  transform_request_headers,
}
use ctc.Proxy.Bridge.Conforms.{Conforms, transform_request_body-Conforms}

abbrev config : Config
config = record {
  strip_fields = "output_config" ∷ "context_management" ∷ [];
  thinking_mode = "disabled";
  thinking_budget = int (pos 8192);
  between_tools_models = codes "claude-sonnet-5-5" ∷ [];
  adaptive_models = codes "claude-opus-5-5" ∷ codes "claude-sonnet-5" ∷ [];
}

-- What the bridge computes with.
program : Unit {0}
unfolding min_budget first_segment all_digits has_prefix any_prefix off_type remove_field
    strip_field strip_all coerced coerce_thinking normalize transform_request_body set_field lookup
    starts_with drop same_codes length set_header update_headers last_beta split_commas is_allowed
    join_commas transform_request_headers filter lstrip rstrip
program = tt

-- A dated name is the model itself, a minor version is another one.
dated : model_in (some (str "Claude-Sonnet-5-20260101")) (codes "claude-sonnet-5" ∷ []) ≡ true
unfolding program
dated = refl

minor : model_in (some (str "claude-sonnet-5.5")) (codes "claude-sonnet-5" ∷ []) ≡ false
unfolding program
minor = refl

abbrev sent : Fields
sent = field "model" (str "claude-haiku-4.5") (
    field "output_config" (obj empty)
      (field "thinking" (obj (field "type" (str "adaptive") empty)) empty))

abbrev forwarded : Fields
forwarded =
    field "model" (str "claude-haiku-4.5")
      (field "thinking" (obj (field "type" (str "disabled") empty)) empty)

normalize_run : normalize config sent ≡ (forwarded, true)
unfolding program
normalize_run = refl

-- A coder that knows the two objects.
abbrev loads : Text → Option Json
loads t =
    if starts_with (codes "sent") t
    then some (obj sent)
    else if starts_with (codes "forwarded") t
    then some (obj forwarded)
    else none

abbrev dumps : Json → Option Text
dumps j = some (codes "forwarded")

decodes : loads (codes "sent") ≡ some (obj sent)
unfolding program
decodes = refl

reads : loads (codes "forwarded") ≡ some (obj (normalize config sent).0)
unfolding program
reads = refl

transform_request_body-Conforms_example :
    (after : Fields) × (loads (transform_request_body config loads dumps (codes "sent"))
      ≡ some (obj after))
    × Conforms config sent after
transform_request_body-Conforms_example =
    transform_request_body-Conforms config loads dumps (codes "sent") sent (codes "forwarded")
      decodes refl reads

-- The header keeps the values that are allowed, under one name.
abbrev with_betas : Headers
with_betas = (codes "host", codes "h") ∷ (codes "Anthropic-Beta", codes "a, b ,c") ∷ []

transform_request_headers_run :
    transform_request_headers [] (codes "b" ∷ codes "c" ∷ []) with_betas
    ≡ (codes "host", codes "h") ∷ (codes "anthropic-beta", codes "b,c") ∷ []
unfolding program
transform_request_headers_run = refl
