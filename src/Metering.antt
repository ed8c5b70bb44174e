-- ===== src/Metering.antt =====
-- ctc/metering/extract.py and the readings of the same field in ctc/sentinel.py. A body is read as its
-- code points; the JSON decoder is a parameter, `none` where json.loads raises ValueError.
use ctc.Common.{
  ℕ, zero, suc, ◌+◌, codes, ◌-ℤ◌, Bool, true, false, not, ◌&&◌, ◌||◌, Option, none, some, List, [],
  ◌∷◌, ◌++◌, ℤ, pos, ltb_ℤ, ltb, leb, ◌==◌, is_none, map, if◌then◌else◌,
}
use ctc.Json.{
  Text, Json, bool, int, float, obj, Float, finite, infinite, not_a_number, Fields, lookup,
}
pub mod Last
pub mod Agreement

-- The characters that `strip` drops.
abbrev pub is_space : ℕ → Bool
is_space c =
    leb 9 c && leb c 13
    || leb 28 c && leb c 32
    || c == 133
    || c == 160
    || c == 5760
    || leb 8192 c && leb c 8202
    || c == 8232
    || c == 8233
    || c == 8239
    || c == 8287
    || c == 12288

-- The characters that end a line for `splitlines`; a "\r\n" ends one line, and the empty line between
-- the two is skipped by the readers below.
abbrev pub is_line_end : ℕ → Bool
is_line_end c = leb 10 c && leb c 13 || leb 28 c && leb c 30 || c == 133 || c == 8232 || c == 8233

unfoldable pub lstrip : Text → Text
lstrip [] = []
lstrip (c ∷ t) = let rest = lstrip t in if is_space c then rest else c ∷ t

abbrev pub add_stripped : ℕ → Text → Text
add_stripped c [] = if is_space c then [] else c ∷ []
add_stripped c (d ∷ t) = c ∷ d ∷ t

unfoldable pub rstrip : Text → Text
rstrip [] = []
rstrip (c ∷ t) = add_stripped c (rstrip t)

abbrev pub strip : Text → Text
strip t = rstrip (lstrip t)

unfoldable pub starts_with : Text → Text → Bool
starts_with [] t = true
starts_with (p ∷ ps) [] = false
starts_with (p ∷ ps) (c ∷ t) = p == c && starts_with ps t

-- `p in text`
unfoldable pub occurs : Text → Text → Bool
occurs p [] = starts_with p []
occurs p (c ∷ t) = starts_with p (c ∷ t) || occurs p t

abbrev pub to_lower : ℕ → ℕ
to_lower c = if leb b'A' c && leb c b'Z' then c + 32 else c

abbrev pub grow : ℕ → List Text → List Text
grow c [] = (c ∷ []) ∷ []
grow c (line ∷ lines) = (c ∷ line) ∷ lines

unfoldable pub splitlines : Text → List Text
splitlines [] = []
splitlines (c ∷ t) = let rest = splitlines t in if is_line_end c then [] ∷ rest else grow c rest

unfoldable pub drop : ℕ → Text → Text
drop n [] = []
drop zero (c ∷ t) = c ∷ t
drop (suc n) (c ∷ t) = drop n t

abbrev pub is_empty {ℓ} : {A : Type ℓ} → List A → Bool
is_empty [] = true
is_empty (_ ∷ _) = false

unfoldable pub same_codes : Text → Text → Bool
same_codes [] [] = true
same_codes (a ∷ s) (b ∷ t) = a == b && same_codes s t
same_codes _ _ = false

-- The payload of a line of events, if it has one.
abbrev pub after_data : Text → Option Text
after_data line =
    if not (starts_with (codes "data:") line)
    then none
    else if is_empty (strip (drop 5 line))
    then none
    else if same_codes (strip (drop 5 line)) (codes "[DONE]")
    then none
    else some (strip (drop 5 line))

unfoldable pub payloads : List Text → List Text
payloads [] = []
payloads (line ∷ lines) = elim (after_data (strip line)) [
  | none ↦ payloads lines
  | some payload ↦ payload ∷ payloads lines
]

-- `int(val)`, which raises for an infinity and for no number.
abbrev pub int_of_float : Float → Option ℤ
int_of_float (finite negative whole _) = some (if negative then pos 0 -ℤ pos whole else pos whole)
int_of_float _ = none

abbrev pub charge_of : Option Json → Option ℤ
charge_of (some (int n)) = some n
charge_of (some (float x)) = int_of_float x
charge_of _ = none

abbrev pub charge_in : Option Json → Option ℤ
charge_in (some (obj usage)) = charge_of (lookup "total_nano_aiu" usage)
charge_in _ = none

unfoldable pub usage_from_obj : Json → Option ℤ
usage_from_obj (obj fields) = charge_in (lookup "copilot_usage" fields)
usage_from_obj _ = none

-- `isinstance(v, (int, float)) and not isinstance(v, bool)`
abbrev pub is_number : Option Json → Bool
is_number (some (int _)) = true
is_number (some (float _)) = true
is_number _ = false

abbrev pub number_in : Option Json → Bool
number_in (some (obj usage)) = is_number (lookup "total_nano_aiu" usage)
number_in _ = false

unfoldable pub field_present : Json → Bool
field_present (obj fields) = number_in (lookup "copilot_usage" fields)
field_present _ = false

-- `v > 0`
abbrev pub is_positive_float : Float → Bool
is_positive_float (finite negative whole fraction) = not negative && (ltb 0 whole || fraction)
is_positive_float (infinite negative) = not negative
is_positive_float not_a_number = false

abbrev pub is_positive_number : Option Json → Bool
is_positive_number (some (int n)) = ltb_ℤ (pos 0) n
is_positive_number (some (float x)) = is_positive_float x
is_positive_number _ = false

abbrev pub positive_in : Option Json → Bool
positive_in (some (obj usage)) = is_positive_number (lookup "total_nano_aiu" usage)
positive_in _ = false

-- `_field_value(obj) > 0`, for an object that carries the field.
unfoldable pub is_value_positive : Json → Bool
is_value_positive (obj fields) = positive_in (lookup "copilot_usage" fields)
is_value_positive _ = false

-- The two readers' tests for a stream of events.
unfoldable pub is_sse : Text → Text → Bool
is_sse content_type text =
    occurs (codes "text/event-stream") (map to_lower content_type)
    || starts_with (codes "event:") (lstrip text)
    || occurs (10 ∷ codes "data:") text
    || starts_with (codes "data:") text

unfoldable pub is_sse_for_sentinel : Text → Text → Bool
is_sse_for_sentinel content_type text =
    occurs (codes "text/event-stream") (map to_lower content_type)
    || occurs (10 ∷ codes "data:") text
    || starts_with (codes "event:") (lstrip text)
    || starts_with (codes "data:") (lstrip text)

pub data UsageClass : Type 0 where
  present_positive present_zero absent : UsageClass

abbrev pub is_absent : UsageClass → Bool
is_absent absent = true
is_absent _ = false

-- `val or 0`, and the last value that is not None.
abbrev pub or_keep : ℤ → Option ℤ → ℤ
or_keep last none = last
or_keep last (some v) = v

abbrev pub usage_of : Option Json → Option ℤ
usage_of none = none
usage_of (some j) = usage_from_obj j

-- The class after one more object.
abbrev pub class_of : UsageClass → Option Json → UsageClass
class_of found none = found
class_of found (some j) =
    if field_present j
    then if is_value_positive j then present_positive else present_zero
    else found

module _ (loads : Text → Option Json) where
  unfoldable pub last_usage : ℤ → List Text → ℤ
  last_usage last [] = last
  last_usage last (p ∷ ps) = last_usage (or_keep last (usage_of (loads p))) ps

  unfoldable pub extract_total_nano_aiu : Text → Text → ℤ
  extract_total_nano_aiu body content_type =
      if is_empty body
      then pos 0
      else if is_sse content_type body
      then last_usage (pos 0) (payloads (splitlines body))
      else or_keep (pos 0) (usage_of (loads body))

  unfoldable pub last_class : UsageClass → List Text → UsageClass
  last_class found [] = found
  last_class found (p ∷ ps) = last_class (class_of found (loads p)) ps

  unfoldable pub classify_usage : Text → Text → UsageClass
  classify_usage body content_type =
      if is_sse_for_sentinel content_type body
      then last_class absent (payloads (splitlines body))
      else class_of absent (loads body)

  -- A finding for a billable 200 with no metering field.
  unfoldable pub check_billable_response : ℕ → Text → Text → Bool
  check_billable_response status body content_type =
      if not (status == 200) then false else is_absent (classify_usage body content_type)
