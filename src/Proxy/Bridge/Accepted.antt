-- ===== src/Proxy/Bridge/Accepted.antt =====
-- The objects that the bridge forwards are of the schema that Copilot accepts.
use ctc.Common.{
  ◌≡◌, ◌∙◌, refl, inl, inr, String, Bool, true, false, ◌||◌, Bool-cases, Option, none, some, ℤ, pos,
  ◌≤ℤ◌, leb_ℤ→le, same_text, same_text→eq, arith,
}
use ctc.Json.{Json, null, bool, int, float, str, arr, obj, Fields, field, empty, lookup}
use ctc.Proxy.Failover.{set_field}
use ctc.Proxy.Bridge.{Config, min_budget, is_str, is_budget, coerced}
use ctc.Proxy.Bridge.Lookups.{lookup-set_field, lookup-set_field_other}

abbrev pub is_object : Json → Bool
is_object (obj _) = true
is_object _ = false

-- The values of `thinking` that are forwarded: none, one that is no object, and the objects that Copilot
-- takes from the model.
pub data IsThinking (adaptive_only : Bool) (off : String) : Option Json → Type 0 where
  absent : IsThinking adaptive_only off none
  no_object : (j : Json) → is_object j ≡ false → IsThinking adaptive_only off (some j)
  adaptive :
      (th : Fields)
      → adaptive_only ≡ true
      → lookup "type" th ≡ some (str "adaptive")
      → IsThinking adaptive_only off (some (obj th))
  switched_off :
      (th : Fields)
      → adaptive_only ≡ false
      → lookup "type" th ≡ some (str off)
      → IsThinking adaptive_only off (some (obj th))
  enabled :
      (th : Fields) (budget : ℤ)
      → adaptive_only ≡ false
      → lookup "type" th ≡ some (str "enabled")
      → lookup "budget_tokens" th ≡ some (int budget)
      → pos 1024 ≤ℤ budget
      → IsThinking adaptive_only off (some (obj th))

-- The equation of a test for a text.
pub is_str→eq : (s : String) (o : Option Json) → is_str s o ≡ true → o ≡ some (str s)
is_str→eq s (some (str t)) h = rw (same_text→eq t s h) refl
is_str→eq s none h = absurd (ground arith)
is_str→eq s (some null) h = absurd (ground arith)
is_str→eq s (some (bool b)) h = absurd (ground arith)
is_str→eq s (some (int n)) h = absurd (ground arith)
is_str→eq s (some (float x)) h = absurd (ground arith)
is_str→eq s (some (arr xs)) h = absurd (ground arith)
is_str→eq s (some (obj fs)) h = absurd (ground arith)

budget_of : (o : Option Json) → is_budget o ≡ true → (n : ℤ) × (o ≡ some (int n)) × (pos 1024 ≤ℤ n)
budget_of (some (int n)) h = (n, refl, leb_ℤ→le (pos 1024) n h)
budget_of none h = absurd (ground arith)
budget_of (some null) h = absurd (ground arith)
budget_of (some (bool b)) h = absurd (ground arith)
budget_of (some (str s)) h = absurd (ground arith)
budget_of (some (float x)) h = absurd (ground arith)
budget_of (some (arr xs)) h = absurd (ground arith)
budget_of (some (obj fs)) h = absurd (ground arith)

min_budget-floor : (j : Json) → pos 1024 ≤ℤ min_budget j
unfolding min_budget
min_budget-floor (int n) = ground arith
min_budget-floor null = omega arith
min_budget-floor (bool b) = omega arith
min_budget-floor (str s) = omega arith
min_budget-floor (float x) = omega arith
min_budget-floor (arr xs) = omega arith
min_budget-floor (obj fs) = omega arith

-- What is left of a `thinking` object: what replaces it, or itself.
abbrev pub or_kept : Fields → Option Json → Json
or_kept th none = obj th
or_kept th (some j) = j

module _ (c : Config) where
  pub coerced-IsThinking :
      (off : String) (th : Fields) → IsThinking false off (some (or_kept th (coerced c off th)))
  unfolding coerced lookup
  coerced-IsThinking off th =
      let ty = lookup "type" th in
      elim (Bool-cases (is_str "disabled" ty || is_str "between_tools" ty)) [
        | inl d ↦ elim (Bool-cases (is_str off ty)) [
          | inl e ↦ rw (d, e) (switched_off th refl (is_str→eq off ty e))
          | inr e ↦ rw (d, e) (switched_off (field "type" (str off) empty) refl refl)
        ]
        | inr d ↦ elim (Bool-cases (is_str "enabled" ty)) [
          | inl e ↦ elim (Bool-cases (is_budget (lookup "budget_tokens" th))) [
            | inl b ↦
                let (n, same, floor) = budget_of (lookup "budget_tokens" th) b in
                rw (d, e, b) (enabled th n refl (is_str→eq "enabled" ty e) same floor)
            | inr b ↦
                rw (d, e, b)
                  (enabled (set_field "budget_tokens" (int (min_budget c.thinking_budget)) th)
                    (min_budget c.thinking_budget) refl
                    (lookup-set_field_other "budget_tokens" "type"
                        (int (min_budget c.thinking_budget)) th refl
                      ∙ is_str→eq "enabled" ty e)
                    (lookup-set_field "budget_tokens" (int (min_budget c.thinking_budget)) th)
                    (min_budget-floor c.thinking_budget))
          ]
          | inr e ↦ elim (Bool-cases (same_text c.thinking_mode "enabled")) [
            | inl m ↦
                rw (d, e, m)
                  (enabled _ (min_budget c.thinking_budget) refl refl refl
                    (min_budget-floor c.thinking_budget))
            | inr m ↦ rw (d, e, m) (switched_off (field "type" (str off) empty) refl refl)
          ]
        ]
      ]
