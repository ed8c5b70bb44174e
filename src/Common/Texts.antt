-- ===== src/Common/Texts.antt =====
-- Texts: their equality, and their code points.
use Prim.Native.String.{String}
use Prim.Native.Nat.{ℕ}
use Prim.Native.Char.{code}
use mathlib.Core.Path.{◌≡◌}
use mathlib.Core.Bool.{Bool, true}
use mathlib.Core.List.{List, [], ◌∷◌}
use text.Mathlib.Text
use text.Mathlib.TextEquality.{eq_iff}
use text.Mathlib.TextPositions.{eq_refl}

abbrev pub same_text : String → String → Bool
same_text a b = Text.◌==◌ a b

pub same_text_refl : (a : String) → same_text a a ≡ true
same_text_refl a = eq_refl a

pub same_text→eq : (a b : String) → same_text a b ≡ true → a ≡ b
same_text→eq a b h = (eq_iff a b).0 h

-- The code points of a text.
abbrev pub codes : String → List ℕ
codes String.[] = []
codes (String.◌∷◌ c s) = code c ∷ codes s
