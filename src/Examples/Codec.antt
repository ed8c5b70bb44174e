-- ===== src/Examples/Codec.antt =====
-- A written form of numbers, texts and lists that is read back.
use Prim.Native.Char.{Char, char, code, IsScalar, IsLt}
use Prim.Native.Nat.{compare, Ordering}
use Prim.Native.String.{String}
use ctc.Common.{
  ℕ, zero, suc, ◌≡◌, ◌∙◌, refl, ap, Option, none, some, List, [], ◌∷◌, ℤ, pos, negsuc, length,
}
pub mod OfReport

-- A value is written before what follows, and read back with what follows left.
pub record Codec (A : Type 0) : Type 0 where
  pub write : A → List ℕ → List ℕ
  pub read : List ℕ → Option (A × List ℕ)
  pub law : (a : A) (k : List ℕ) → read (write a k) ≡ some (a, k)

abbrev read_nat : List ℕ → Option (ℕ × List ℕ)
read_nat [] = none
read_nat (n ∷ k) = some (n, k)

abbrev pub nat_codec : Codec ℕ
nat_codec = record { write = λ n k. n ∷ k; read = read_nat; law = λ n k. refl }

abbrev attach : {A B : Type 0} → A → Option (B × List ℕ) → Option ((A × B) × List ℕ)
attach a none = none
attach a (some (b, k)) = some ((a, b), k)

abbrev both :
    {A B : Type 0}
    → (List ℕ → Option (B × List ℕ))
    → Option (A × List ℕ)
    → Option ((A × B) × List ℕ)
both read none = none
both read (some (a, k)) = attach a (read k)

abbrev pub pair_codec : {A B : Type 0} → Codec A → Codec B → Codec (A × B)
pair_codec ca cb = record {
  write = λ p k. ca.write p.0 (cb.write p.1 k);
  read = λ k. both cb.read (ca.read k);
  law = λ p k. ap (both cb.read) (ca.law p.0 (cb.write p.1 k)) ∙ ap (attach p.0) (cb.law p.1 k);
}

abbrev followed : {B : Type 0} → List ℕ → Option B → Option (B × List ℕ)
followed k none = none
followed k (some b) = some (b, k)

abbrev onto : {A B : Type 0} → (A → Option B) → Option (A × List ℕ) → Option (B × List ℕ)
onto f none = none
onto f (some (a, k)) = followed k (f a)

abbrev pub via_codec :
    {A B : Type 0} (ca : Codec A) (f : A → Option B) (g : B → A)
    → ((b : B) → f (g b) ≡ some b)
    → Codec B
via_codec ca f g fg = record {
  write = λ b k. ca.write (g b) k;
  read = λ k. onto f (ca.read k);
  law = λ b k. ap (onto f) (ca.law (g b) k) ∙ ap (followed k) (fg b);
}

module _ {A : Type 0} (c : Codec A) where
  abbrev cons_read : A → Option (List A × List ℕ) → Option (List A × List ℕ)
  cons_read x none = none
  cons_read x (some (xs, k)) = some (x ∷ xs, k)

  abbrev then_read :
      (List ℕ → Option (List A × List ℕ)) → Option (A × List ℕ) → Option (List A × List ℕ)
  then_read go none = none
  then_read go (some (x, k)) = cons_read x (go k)

  unfoldable pub read_items : ℕ → List ℕ → Option (List A × List ℕ)
  read_items zero k = some ([], k)
  read_items (suc n) k = then_read (read_items n) (c.read k)

  unfoldable pub write_items : List A → List ℕ → List ℕ
  write_items [] k = k
  write_items (x ∷ xs) k = c.write x (write_items xs k)

  pub items_lem :
      (xs : List A) (k : List ℕ) → read_items (length xs) (write_items xs k) ≡ some (xs, k)
  unfolding read_items write_items length
  items_lem [] k = refl
  items_lem (x ∷ xs) k =
      ap (then_read (read_items (length xs))) (c.law x (write_items xs k))
      ∙ ap (cons_read x) (items_lem xs k)

  abbrev read_counted : List ℕ → Option (List A × List ℕ)
  read_counted [] = none
  read_counted (n ∷ k) = read_items n k

  abbrev pub list_codec : Codec (List A)
  list_codec = record {
    write = λ xs k. length xs ∷ write_items xs k;
    read = read_counted;
    law = items_lem;
  }

-- The scalar values.
abbrev InBoth : Ordering → Ordering → Type 0
InBoth Ordering.lt o = IsLt o
InBoth Ordering.eq _ = ⊥
InBoth Ordering.gt _ = ⊥

abbrev InRange : Ordering → Ordering → Ordering → Type 0
InRange Ordering.lt _ _ = Unit
InRange Ordering.eq o p = InBoth o p
InRange Ordering.gt o p = InBoth o p

abbrev check_lt : (p : Ordering) → Option (IsLt p)
check_lt Ordering.lt = some tt
check_lt Ordering.eq = none
check_lt Ordering.gt = none

abbrev check_both : (o p : Ordering) → Option (InBoth o p)
check_both Ordering.lt p = check_lt p
check_both Ordering.eq p = none
check_both Ordering.gt p = none

abbrev check_range : (n o p : Ordering) → Option (InRange n o p)
check_range Ordering.lt o p = some tt
check_range Ordering.eq o p = check_both o p
check_range Ordering.gt o p = check_both o p

check_lt_lem : (p : Ordering) (h : IsLt p) → check_lt p ≡ some h
check_lt_lem Ordering.lt h = refl
check_lt_lem Ordering.eq h = absurd h
check_lt_lem Ordering.gt h = absurd h

check_both_lem : (o p : Ordering) (h : InBoth o p) → check_both o p ≡ some h
check_both_lem Ordering.lt p h = check_lt_lem p h
check_both_lem Ordering.eq p h = absurd h
check_both_lem Ordering.gt p h = absurd h

check_range_lem : (n o p : Ordering) (h : InRange n o p) → check_range n o p ≡ some h
check_range_lem Ordering.lt o p h = refl
check_range_lem Ordering.eq o p h = check_both_lem o p h
check_range_lem Ordering.gt o p h = check_both_lem o p h

abbrev char_with : (n : ℕ) → Option (IsScalar n) → Option Char
char_with n none = none
char_with n (some p) = some (char n p)

abbrev char_of : ℕ → Option Char
char_of n = char_with n (check_range (compare n 55296) (compare 57343 n) (compare n 1114112))

pub char_of_lem : (c : Char) → char_of (code c) ≡ some c
char_of_lem (char n p) =
    ap (char_with n) (check_range_lem (compare n 55296) (compare 57343 n) (compare n 1114112) p)

abbrev chars : String → List Char
chars String.[] = []
chars (String.◌∷◌ c s) = c ∷ chars s

abbrev text_of : List Char → Option String
text_of [] = some String.[]
text_of (c ∷ cs) = elim (text_of cs) [ none ↦ none | some s ↦ some (String.◌∷◌ c s) ]

pub text_of_lem : (s : String) → text_of (chars s) ≡ some s
text_of_lem String.[] = refl
text_of_lem (String.◌∷◌ c s) = rw (text_of_lem s) refl

abbrev pub char_codec : Codec Char
char_codec = via_codec nat_codec char_of code char_of_lem

abbrev pub text_codec : Codec String
text_codec = via_codec (list_codec char_codec) text_of chars text_of_lem

abbrev int_of : ℕ × ℕ → Option ℤ
int_of (zero, n) = some (pos n)
int_of (suc _, n) = some (negsuc n)

abbrev parts_of : ℤ → ℕ × ℕ
parts_of (pos n) = (0, n)
parts_of (negsuc n) = (1, n)

pub int_of_lem : (x : ℤ) → int_of (parts_of x) ≡ some x
int_of_lem (pos n) = refl
int_of_lem (negsuc n) = refl

abbrev pub int_codec : Codec ℤ
int_codec = via_codec (pair_codec nat_codec nat_codec) int_of parts_of int_of_lem

module _ {A : Type 0} (c : Codec A) where
  abbrev option_of : List A → Option (Option A)
  option_of [] = some none
  option_of (x ∷ _) = some (some x)

  abbrev items_of : Option A → List A
  items_of none = []
  items_of (some x) = x ∷ []

  pub option_of_lem : (o : Option A) → option_of (items_of o) ≡ some o
  option_of_lem none = refl
  option_of_lem (some x) = refl

  abbrev pub option_codec : Codec (Option A)
  option_codec = via_codec (list_codec c) option_of items_of option_of_lem
