-- ===== src/Examples/Billing.antt =====
-- The charge of a response, read by the proxy and by the sentinel.
use ctc.Common.{◌≡◌, refl, Option, none, some, [], pos, codes, if◌then◌else◌}
use ctc.Json.{Text, Json, int, obj, lookup, field, empty}
use ctc.Metering.{
  starts_with, lstrip, rstrip, occurs, splitlines, drop, same_codes, payloads, usage_from_obj,
  field_present, is_value_positive, is_sse, is_sse_for_sentinel, last_usage, extract_total_nano_aiu,
  last_class, classify_usage, present_positive,
}

abbrev charged : Json
charged = obj (field "copilot_usage" (obj (field "total_nano_aiu" (int (pos 1500)) empty)) empty)

-- A decoder for which every text that starts with a brace is that object.
abbrev loads : Text → Option Json
loads t = if starts_with (codes "{") t then some charged else none

abbrev body : Text
body = codes "{}"

-- What the two readings compute with.
program : Unit {0}
unfolding starts_with lstrip rstrip occurs splitlines drop same_codes payloads usage_from_obj
    field_present is_value_positive is_sse is_sse_for_sentinel last_usage extract_total_nano_aiu
    last_class classify_usage lookup
program = tt

-- One event after a space is an event for the sentinel and no JSON for the bill.
billed_nothing : extract_total_nano_aiu loads (codes " data: {}") [] ≡ pos 0
unfolding program
billed_nothing = refl

no_finding : classify_usage loads (codes " data: {}") [] ≡ present_positive
unfolding program
no_finding = refl
