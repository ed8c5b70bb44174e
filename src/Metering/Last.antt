-- ===== src/Metering/Last.antt =====
-- The last number that the metering field has in a body is what the proxy bills and what the sentinel
-- classifies.
use ctc.Common.{
  ◌≡◌, refl, ap, ◌∙◌, inl, inr, Bool, true, false, ◌||◌, Bool-cases, Option, none, some,
  Option-cases, List, [], ◌∷◌, ℤ, pos, ◌-ℤ◌, ltb_ℤ, ltb, arith, if◌then◌else◌,
}
use ctc.Json.{
  Text, Json, null, bool, int, float, str, arr, obj, finite, infinite, not_a_number, lookup,
}
use ctc.Metering.{
  is_empty, payloads, splitlines, charge_of, charge_in, usage_from_obj, field_present, is_number,
  number_in, is_positive_number, positive_in, is_value_positive, is_sse, is_sse_for_sentinel,
  UsageClass, present_positive, present_zero, absent, or_keep, usage_of, last_usage,
  extract_total_nano_aiu, class_of, last_class, classify_usage,
}

-- The value of the metering field, whatever it is.
abbrev pub in_usage : Option Json → Option Json
in_usage (some (obj usage)) = lookup "total_nano_aiu" usage
in_usage _ = none

abbrev pub metering_value : Json → Option Json
metering_value (obj fields) = in_usage (lookup "copilot_usage" fields)
metering_value _ = none

abbrev pub is_finite : Option Json → Bool
is_finite (some (float (infinite _))) = false
is_finite (some (float not_a_number)) = false
is_finite _ = true

-- What a number of the field says: its whole part, and whether it is positive.
pub record Number : Type 0 where
  pub whole : ℤ
  pub is_positive : Bool

-- The number of a value: an integer, or a float that is finite.
abbrev pub as_number : Option Json → Option Number
as_number (some (int n)) = some (record { whole = n; is_positive = ltb_ℤ (pos 0) n })
as_number (some (float (finite false w f))) =
    some (record { whole = pos w; is_positive = ltb 0 w || f })
as_number (some (float (finite true w f))) =
    some (record { whole = pos 0 -ℤ pos w; is_positive = false })
as_number _ = none

abbrev pub number_at : Option Json → Option Number
number_at none = none
number_at (some j) = as_number (metering_value j)

abbrev pub or_number : Option Number → Option Number → Option Number
or_number none o = o
or_number (some n) o = some n

-- The number that is furthest to the back.
unfoldable pub last_number : (Text → Option Json) → List Text → Option Number
last_number loads [] = none
last_number loads (p ∷ ps) = or_number (last_number loads ps) (number_at (loads p))

-- The texts of a body that are decoded: the payloads of a stream's events, or the whole body.
unfoldable pub texts_of : Text → Text → List Text
texts_of body content_type =
    if is_sse content_type body then payloads (splitlines body) else body ∷ []

abbrev pub whole_or : ℤ → Option Number → ℤ
whole_or last none = last
whole_or last (some n) = n.whole

abbrev pub class_or : UsageClass → Option Number → UsageClass
class_or found none = found
class_or found (some n) = if n.is_positive then present_positive else present_zero

-- The whole part of the last number, and zero where there is none.
abbrev pub billed : Option Number → ℤ
billed o = whole_or (pos 0) o

abbrev pub class_of_number : Option Number → UsageClass
class_of_number o = class_or absent o

or_keep-number :
    (last : ℤ) (o : Option Json) → or_keep last (charge_of o) ≡ whole_or last (as_number o)
or_keep-number last none = refl
or_keep-number last (some null) = refl
or_keep-number last (some (bool _)) = refl
or_keep-number last (some (str _)) = refl
or_keep-number last (some (arr _)) = refl
or_keep-number last (some (obj _)) = refl
or_keep-number last (some (int n)) = refl
or_keep-number last (some (float (finite true w f))) = refl
or_keep-number last (some (float (finite false w f))) = refl
or_keep-number last (some (float (infinite _))) = refl
or_keep-number last (some (float not_a_number)) = refl

or_keep-usage :
    (last : ℤ) (o : Option Json)
    → or_keep last (charge_in o) ≡ whole_or last (as_number (in_usage o))
or_keep-usage last none = refl
or_keep-usage last (some null) = refl
or_keep-usage last (some (bool _)) = refl
or_keep-usage last (some (int _)) = refl
or_keep-usage last (some (float _)) = refl
or_keep-usage last (some (str _)) = refl
or_keep-usage last (some (arr _)) = refl
or_keep-usage last (some (obj usage)) = or_keep-number last (lookup "total_nano_aiu" usage)

or_keep-at : (last : ℤ) (o : Option Json) → or_keep last (usage_of o) ≡ whole_or last (number_at o)
unfolding usage_from_obj
or_keep-at last none = refl
or_keep-at last (some null) = refl
or_keep-at last (some (bool _)) = refl
or_keep-at last (some (int _)) = refl
or_keep-at last (some (float _)) = refl
or_keep-at last (some (str _)) = refl
or_keep-at last (some (arr _)) = refl
or_keep-at last (some (obj fields)) = or_keep-usage last (lookup "copilot_usage" fields)

whole_or-or_number :
    (last : ℤ) (o p : Option Number) → whole_or (whole_or last p) o ≡ whole_or last (or_number o p)
whole_or-or_number last none p = refl
whole_or-or_number last (some n) p = refl

last_usage-billed :
    (loads : Text → Option Json) (ps : List Text) (last : ℤ)
    → last_usage loads last ps ≡ whole_or last (last_number loads ps)
unfolding last_usage last_number
last_usage-billed loads [] last = refl
last_usage-billed loads (p ∷ ps) last =
    last_usage-billed loads ps (or_keep last (usage_of (loads p)))
    ∙ ap (λ l. whole_or l (last_number loads ps)) (or_keep-at last (loads p))
    ∙ whole_or-or_number last (last_number loads ps) (number_at (loads p))

-- The bill of a body, whatever the decoder: the whole part of the last number.
pub extract-billed :
    (loads : Text → Option Json) (body content_type : Text)
    → is_empty body ≡ false
    → extract_total_nano_aiu loads body content_type
      ≡ billed (last_number loads (texts_of body content_type))
unfolding extract_total_nano_aiu texts_of last_number
extract-billed loads body content_type some_body = elim (Bool-cases (is_sse content_type body)) [
  | inl e ↦ rw (some_body, e) (last_usage-billed loads (payloads (splitlines body)) (pos 0))
  | inr e ↦ rw (some_body, e) (or_keep-at (pos 0) (loads body))
]

-- A number in a value that is finite.
number-class :
    (found : UsageClass) (o : Option Json)
    → is_finite o ≡ true
    → (if is_number o
        then if is_positive_number o then present_positive else present_zero
        else found)
      ≡ class_or found (as_number o)
number-class found none h = refl
number-class found (some null) h = refl
number-class found (some (bool _)) h = refl
number-class found (some (str _)) h = refl
number-class found (some (arr _)) h = refl
number-class found (some (obj _)) h = refl
number-class found (some (int n)) h = refl
number-class found (some (float (finite true w f))) h = refl
number-class found (some (float (finite false w f))) h = refl
number-class found (some (float (infinite _))) h = absurd (ground (arith, h))
number-class found (some (float not_a_number)) h = absurd (ground (arith, h))

usage-class :
    (found : UsageClass) (o : Option Json)
    → is_finite (in_usage o) ≡ true
    → (if number_in o then if positive_in o then present_positive else present_zero else found)
      ≡ class_or found (as_number (in_usage o))
usage-class found none h = refl
usage-class found (some null) h = refl
usage-class found (some (bool _)) h = refl
usage-class found (some (int _)) h = refl
usage-class found (some (float _)) h = refl
usage-class found (some (str _)) h = refl
usage-class found (some (arr _)) h = refl
usage-class found (some (obj usage)) h = number-class found (lookup "total_nano_aiu" usage) h

class_of-number :
    (found : UsageClass) (j : Json)
    → is_finite (metering_value j) ≡ true
    → class_of found (some j) ≡ class_or found (number_at (some j))
unfolding field_present is_value_positive
class_of-number found null h = refl
class_of-number found (bool _) h = refl
class_of-number found (int _) h = refl
class_of-number found (float _) h = refl
class_of-number found (str _) h = refl
class_of-number found (arr _) h = refl
class_of-number found (obj fields) h = usage-class found (lookup "copilot_usage" fields) h

class_or-or_number :
    (found : UsageClass) (o p : Option Number)
    → class_or (class_or found p) o ≡ class_or found (or_number o p)
class_or-or_number found none p = refl
class_or-or_number found (some n) p = refl

module _ (loads : Text → Option Json)
    (finite_field : (t : Text) (j : Json)
      → loads t ≡ some j
      → is_finite (metering_value j) ≡ true) where
  decoded-class :
      (t : Text) (found : UsageClass)
      → class_of found (loads t) ≡ class_or found (number_at (loads t))
  decoded-class t found = elim (Option-cases (loads t)) [
    | inl e ↦ rw e refl
    | inr (j, e) ↦ rw e (class_of-number found j (finite_field t j e))
  ]

  last_class-number :
      (ps : List Text) (found : UsageClass)
      → last_class loads found ps ≡ class_or found (last_number loads ps)
  unfolding last_class last_number
  last_class-number [] found = refl
  last_class-number (p ∷ ps) found =
      last_class-number ps (class_of found (loads p))
      ∙ ap (λ c. class_or c (last_number loads ps)) (decoded-class p found)
      ∙ class_or-or_number found (last_number loads ps) (number_at (loads p))

  -- The sentinel's reading of a body that it reads as the bill does.
  pub classify-number :
      (body content_type : Text)
      → is_sse_for_sentinel content_type body ≡ is_sse content_type body
      → classify_usage loads body content_type
        ≡ class_of_number (last_number loads (texts_of body content_type))
  unfolding classify_usage texts_of last_number
  classify-number body content_type same = elim (Bool-cases (is_sse content_type body)) [
    | inl e ↦ rw (same, e) (last_class-number (payloads (splitlines body)) absent)
    | inr e ↦ rw (same, e) (decoded-class body absent)
  ]
