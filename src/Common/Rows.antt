-- ===== src/Common/Rows.antt =====
-- Tables as lists of rows in the order of insertion: `WHERE`, `SUM`, `ORDER BY` and a primary key's
-- lookup, with the lemmas on how an inserted row moves a sum.
use Prim.Native.Nat.{ℕ, suc}
use mathlib.Core.Path.{◌≡◌, refl}
use mathlib.Core.Logic.{inl, inr}
use mathlib.Core.Bool.{Bool, true, false}
use mathlib.Core.Option.{Option, none, some}
use mathlib.Core.List.{List, [], ◌∷◌, ◌++◌, Perm}
use mathlib.Core.List.Perm
use native.Mathlib.Omega.{arith}
use ctc.Common.Tests.{◌==◌, if◌then◌else◌, Bool-cases, ==_refl}
use ctc.Common.Int.{ℤ, pos, ◌+ℤ◌, ◌≤ℤ◌, int_laws}

-- `k in keys`
unfoldable pub contains : List ℕ → ℕ → Bool
contains [] k = false
contains (j ∷ js) k = if j == k then true else contains js k

module _ {ℓ} {A : Type ℓ} where
  unfoldable pub length : List A → ℕ
  length [] = 0
  length (x ∷ xs) = suc (length xs)

  -- `SELECT ... WHERE p`
  unfoldable pub filter : (A → Bool) → List A → List A
  filter p [] = []
  filter p (x ∷ xs) = if p x then x ∷ filter p xs else filter p xs

  -- `SELECT SUM(f) ... WHERE p`; the sum of no row is NULL, which `int(r[0] or 0)` reads as 0.
  unfoldable pub sum_where : (A → Bool) → (A → ℤ) → List A → ℤ
  sum_where p f [] = pos 0
  sum_where p f (x ∷ xs) = (if p x then f x else pos 0) +ℤ sum_where p f xs

  unfoldable pub sum_by : (A → ℤ) → List A → ℤ
  sum_by f [] = pos 0
  sum_by f (x ∷ xs) = f x +ℤ sum_by f xs

  -- The row with a primary key.
  unfoldable pub find : (A → ℕ) → ℕ → List A → Option A
  find key k [] = none
  find key k (x ∷ xs) = if key x == k then some x else find key k xs

  -- The first row that passes a test.
  unfoldable pub find_first : (A → Bool) → List A → Option A
  find_first p [] = none
  find_first p (x ∷ xs) = if p x then some x else find_first p xs

  -- `UPDATE ... SET ... WHERE p`
  unfoldable pub update_where : (A → Bool) → (A → A) → List A → List A
  update_where p f [] = []
  update_where p f (x ∷ xs) = (if p x then f x else x) ∷ update_where p f xs

  -- `ORDER BY`, and Python's `sorted`: an insertion sort that keeps equal rows in their order.
  unfoldable pub insert_by : (A → A → Bool) → A → List A → List A
  insert_by le x [] = x ∷ []
  insert_by le x (y ∷ ys) = if le x y then x ∷ y ∷ ys else y ∷ insert_by le x ys

  unfoldable pub sort_by : (A → A → Bool) → List A → List A
  sort_by le [] = []
  sort_by le (x ∷ xs) = insert_by le x (sort_by le xs)

  pub sum_where-append :
      (p : A → Bool) (f : A → ℤ) (xs : List A) (y : A)
      → sum_where p f (xs ++ y ∷ []) ≡ sum_where p f xs +ℤ (if p y then f y else pos 0)
  unfolding sum_where
  sum_where-append p f [] y = omega int_laws
  sum_where-append p f (x ∷ xs) y = rw (sum_where-append p f xs y) (omega int_laws)

  pub sum_where-append_hit :
      (p : A → Bool) (f : A → ℤ) (xs : List A) (y : A)
      → p y ≡ true
      → sum_where p f (xs ++ y ∷ []) ≡ sum_where p f xs +ℤ f y
  sum_where-append_hit p f xs y h = rw (sum_where-append p f xs y, h) refl

  pub sum_where-append_miss :
      (p : A → Bool) (f : A → ℤ) (xs : List A) (y : A)
      → p y ≡ false
      → sum_where p f (xs ++ y ∷ []) ≡ sum_where p f xs
  sum_where-append_miss p f xs y h = rw (sum_where-append p f xs y, h) (omega int_laws)

  -- Two sums over the same rows agree when they agree at each row that counts.
  pub sum_where_congr :
      (p : A → Bool) (f g : A → ℤ) (xs : List A)
      → ((x : A) → p x ≡ true → f x ≡ g x)
      → sum_where p f xs ≡ sum_where p g xs
  unfolding sum_where
  sum_where_congr p f g [] h = refl
  sum_where_congr p f g (x ∷ xs) h = rw (sum_where_congr p f g xs h) (ground (arith, h x))

  -- Every row has a property.
  abbrev pub All {κ} : (A → Type κ) → List A → Type κ
  All P [] = Unit
  All P (x ∷ xs) = P x × All P xs

  pub All-append {κ} :
      (P : A → Type κ) (xs : List A) (y : A) → All P xs → P y → All P (xs ++ y ∷ [])
  All-append P [] y h k = (k, tt)
  All-append P (x ∷ xs) y h k = (h.0, All-append P xs y h.1 k)

  pub All-map {κ μ} :
      (P : A → Type κ) (Q : A → Type μ) (xs : List A) → ((x : A) → P x → Q x) → All P xs → All Q xs
  All-map P Q [] f h = tt
  All-map P Q (x ∷ xs) f h = (f x h.0, All-map P Q xs f h.1)

  pub All-filter {κ} :
      (P : A → Type κ) (p : A → Bool) (xs : List A) → All P xs → All P (filter p xs)
  unfolding filter
  All-filter P p [] h = tt
  All-filter P p (x ∷ xs) h = elim (Bool-cases (p x)) [
    | inl e ↦ rw e (h.0, All-filter P p xs h.1)
    | inr e ↦ rw e (All-filter P p xs h.1)
  ]

  -- What an update makes of every row.
  pub All-update_where {κ μ} :
      (P : A → Type κ) (Q : A → Type μ) (p : A → Bool) (f : A → A) (xs : List A)
      → ((x : A) → p x ≡ true → P x → Q (f x))
      → ((x : A) → p x ≡ false → P x → Q x)
      → All P xs
      → All Q (update_where p f xs)
  unfolding update_where
  All-update_where P Q p f [] hit miss h = tt
  All-update_where P Q p f (x ∷ xs) hit miss h = elim (Bool-cases (p x)) [
    | inl e ↦ rw e (hit x e h.0, All-update_where P Q p f xs hit miss h.1)
    | inr e ↦ rw e (miss x e h.0, All-update_where P Q p f xs hit miss h.1)
  ]

  All-insert_by {κ} :
      (P : A → Type κ) (le : A → A → Bool) (x : A) (ys : List A)
      → P x
      → All P ys
      → All P (insert_by le x ys)
  unfolding insert_by
  All-insert_by P le x [] k h = (k, tt)
  All-insert_by P le x (y ∷ ys) k h = elim (Bool-cases (le x y)) [
    | inl e ↦ rw e (k, h)
    | inr e ↦ rw e (h.0, All-insert_by P le x ys k h.1)
  ]

  pub All-sort_by {κ} :
      (P : A → Type κ) (le : A → A → Bool) (xs : List A) → All P xs → All P (sort_by le xs)
  unfolding sort_by
  All-sort_by P le [] h = tt
  All-sort_by P le (x ∷ xs) h = All-insert_by P le x (sort_by le xs) h.0 (All-sort_by P le xs h.1)

  -- Two sums over the same rows agree when they agree at each row that counts, for rows that share a
  -- property.
  pub sum_where_congr_All {κ} :
      (P : A → Type κ) (p : A → Bool) (f g : A → ℤ) (xs : List A)
      → All P xs
      → ((x : A) → P x → p x ≡ true → f x ≡ g x)
      → sum_where p f xs ≡ sum_where p g xs
  unfolding sum_where
  sum_where_congr_All P p f g [] k h = refl
  sum_where_congr_All P p f g (x ∷ xs) k h =
      rw (sum_where_congr_All P p f g xs k.1 h) (ground (arith, h x k.0))

  pub sum_where_nonneg :
      (p : A → Bool) (f : A → ℤ) (xs : List A)
      → ((x : A) → pos 0 ≤ℤ f x)
      → pos 0 ≤ℤ sum_where p f xs
  unfolding sum_where
  sum_where_nonneg p f [] h = omega arith
  sum_where_nonneg p f (x ∷ xs) h = grind (int_laws, h x, sum_where_nonneg p f xs h)

  pub find_append_hit :
      (key : A → ℕ) (k : ℕ) (xs : List A) (y : A) {x : A}
      → find key k xs ≡ some x
      → find key k (xs ++ y ∷ []) ≡ some x
  unfolding find
  find_append_hit key k [] y h = ground arith
  find_append_hit key k (z ∷ xs) y {x} h = ground (arith, find_append_hit key k xs y {x = x})

  pub find_append_new :
      (key : A → ℕ) (k : ℕ) (xs : List A) (y : A)
      → find key k xs ≡ none
      → find key k (xs ++ y ∷ []) ≡ (if key y == k then some y else none)
  unfolding find
  find_append_new key k [] y h = refl
  find_append_new key k (z ∷ xs) y h = ground (arith, find_append_new key k xs y)

  -- An update of the rows that pass a test, which they still pass, is read back.
  pub find_first-update_where :
      (p : A → Bool) (f : A → A) (xs : List A) {x : A}
      → ((y : A) → p y ≡ true → p (f y) ≡ true)
      → find_first p xs ≡ some x
      → find_first p (update_where p f xs) ≡ some (f x)
  unfolding find_first update_where
  find_first-update_where p f [] keep h = ground arith
  find_first-update_where p f (y ∷ ys) {x} keep h = elim (Bool-cases (p y)) [
    | inl e ↦ rw e (ground (arith, keep y e))
    | inr e ↦ rw (e, e) (find_first-update_where p f ys keep (ground arith))
  ]

  pub find_first-update_where-none :
      (p : A → Bool) (f : A → A) (xs : List A)
      → find_first p xs ≡ none
      → find_first p (update_where p f xs) ≡ none
  unfolding find_first update_where
  find_first-update_where-none p f [] h = refl
  find_first-update_where-none p f (y ∷ ys) h = elim (Bool-cases (p y)) [
    | inl e ↦ absurd (ground arith)
    | inr e ↦ rw (e, e) (find_first-update_where-none p f ys (ground arith))
  ]

  pub find_first-append_new :
      (p : A → Bool) (xs : List A) (y : A)
      → find_first p xs ≡ none
      → find_first p (xs ++ y ∷ []) ≡ (if p y then some y else none)
  unfolding find_first
  find_first-append_new p [] y h = refl
  find_first-append_new p (x ∷ xs) y h = ground (arith, find_first-append_new p xs y)

  pub insert_by-perm : (le : A → A → Bool) (x : A) (ys : List A) → Perm (insert_by le x ys) (x ∷ ys)
  unfolding insert_by
  insert_by-perm le x [] = Perm.refl (x ∷ [])
  insert_by-perm le x (y ∷ ys) = elim (Bool-cases (le x y)) [
    | inl e ↦ rw e (Perm.refl (x ∷ y ∷ ys))
    | inr e ↦ rw e (Perm.trans (Perm.cons y (insert_by-perm le x ys)) (Perm.swap x y ys))
  ]

  pub sort_by-perm : (le : A → A → Bool) (xs : List A) → Perm (sort_by le xs) xs
  unfolding sort_by
  sort_by-perm le [] = Perm.refl []
  sort_by-perm le (x ∷ xs) =
      Perm.trans (insert_by-perm le x (sort_by le xs)) (Perm.cons x (sort_by-perm le xs))

  -- A sort keeps the sum of any column.
  pub sum_by-insert_by :
      (le : A → A → Bool) (f : A → ℤ) (x : A) (ys : List A)
      → sum_by f (insert_by le x ys) ≡ f x +ℤ sum_by f ys
  unfolding sum_by insert_by
  sum_by-insert_by le f x [] = refl
  sum_by-insert_by le f x (y ∷ ys) = elim (Bool-cases (le x y)) [
    | inl e ↦ rw e refl
    | inr e ↦ rw e (rw (sum_by-insert_by le f x ys) (omega int_laws))
  ]

  pub sum_by-sort_by :
      (le : A → A → Bool) (f : A → ℤ) (xs : List A) → sum_by f (sort_by le xs) ≡ sum_by f xs
  unfolding sum_by sort_by
  sum_by-sort_by le f [] = refl
  sum_by-sort_by le f (x ∷ xs) =
      rw (sum_by-insert_by le f x (sort_by le xs), sum_by-sort_by le f xs) refl

  pub sum_by-append :
      (f : A → ℤ) (xs ys : List A) → sum_by f (xs ++ ys) ≡ sum_by f xs +ℤ sum_by f ys
  unfolding sum_by
  sum_by-append f [] ys = omega int_laws
  sum_by-append f (x ∷ xs) ys = rw (sum_by-append f xs ys) (omega int_laws)

  found_or_first :
      (key : A → ℕ) (k : ℕ) (x : A) (xs : List A)
      → (y : A) × (find key k xs ≡ some y)
      → (y : A) × (find key k (x ∷ xs) ≡ some y)
  unfolding find
  found_or_first key k x xs (y, h) = elim (Bool-cases (key x == k)) [
    | inl e ↦ (x, rw e refl)
    | inr e ↦ (y, rw e h)
  ]

  -- The key of a row is found.
  pub All-find_self :
      (key : A → ℕ) (xs : List A) → All (λ x. (y : A) × (find key (key x) xs ≡ some y)) xs
  unfolding find
  All-find_self key [] = tt
  All-find_self key (x ∷ xs) = (
    (x, rw (==_refl (key x)) refl),
    All-map _ _ xs (λ y h. found_or_first key (key y) x xs h) (All-find_self key xs),
  )
