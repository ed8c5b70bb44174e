-- ===== src/Standing/Ranking.antt =====
-- Every entry is ranked, and once.
use ctc.Common.{
  ℕ, suc, ◌≡◌, refl, inl, inr, String, Bool, true, false, not, Bool-cases, List, [], ◌∷◌, ◌++◌, ℤ,
  pos, ltb_ℤ, leb_ℤ, map, filter, sort_by, sort_by-perm, arith, length, sym,
}
use mathlib.Core.List.{Perm, perm_middle}
use mathlib.Core.List.Perm
use ctc.Domain.{UserId}
use ctc.Standing.{
  Tier, TierInput, TierResult, net_of, is_idle, newcomer_row, band_rows, positive_band,
  negative_band, positives, negatives, positive_rows, negative_rows, newcomer_rows, assign_tiers,
}

-- The two parts of a list, by a test and its negation.
partition-perm :
    {A : Type 0} (p q : A → Bool)
    → ((x : A) → q x ≡ not (p x))
    → (xs : List A) → Perm (filter p xs ++ filter q xs) xs
unfolding filter
partition-perm p q opposite [] = Perm.refl []
partition-perm p q opposite (x ∷ xs) = elim (Bool-cases (p x)) [
  | inl e ↦ rw (opposite x, e) (Perm.cons x (partition-perm p q opposite xs))
  | inr e ↦
      rw (opposite x, e)
        (Perm.trans (perm_middle (filter p xs) (filter q xs))
          (Perm.cons x (partition-perm p q opposite xs)))
]

abbrev pub entrant : TierInput → UserId × String
entrant e = (e.user_id, e.name)

abbrev pub standing : TierResult → UserId × String
standing r = (r.user_id, r.name)

map-band_rows :
    (band : ℕ → Tier) (bands count i : ℕ) (es : List TierInput)
    → map standing (band_rows band bands count i es) ≡ map entrant es
unfolding band_rows
map-band_rows band bands count i [] = refl
map-band_rows band bands count i (e ∷ es) = rw (map-band_rows band bands count (suc i) es) refl

map-newcomer_row : (es : List TierInput) → map standing (map newcomer_row es) ≡ map entrant es
map-newcomer_row [] = refl
map-newcomer_row (e ∷ es) = rw (map-newcomer_row es) refl

map-append : {A B : Type 0} (f : A → B) (xs ys : List A) → map f (xs ++ ys) ≡ map f xs ++ map f ys
map-append f [] ys = refl
map-append f (x ∷ xs) ys = rw (map-append f xs ys) refl

-- The standings of a part, for a list whose parts are standings.
parts-perm :
    {A B : Type 0} (f : A → B) (p q : A → Bool)
    → ((x : A) → q x ≡ not (p x))
    → (xs : List A) {ys zs : List B} → Perm ys (map f (filter p xs))
    → Perm zs (map f (filter q xs))
    → Perm (ys ++ zs) (map f xs)
parts-perm f p q opposite xs π ρ = Perm.trans (Perm.append π ρ) (
    rw (sym (map-append f (filter p xs) (filter q xs)))
      (Perm.map f (partition-perm p q opposite xs)))

not-not : (b : Bool) → b ≡ not (not b)
not-not true = refl
not-not false = refl

ltb_ℤ-not-leb_ℤ : (x y : ℤ) → ltb_ℤ x y ≡ not (leb_ℤ y x)
ltb_ℤ-not-leb_ℤ x y = ground arith

module _ (name_le : String → String → Bool) where
  positive_rows-perm :
      (es : List TierInput)
      → Perm
          (map standing (positive_rows name_le es))
          (map entrant (filter (λ e. leb_ℤ (pos 0) (net_of e)) es))
  unfolding positive_rows
  positive_rows-perm es =
      rw (map-band_rows positive_band 4 (length (positives name_le es)) 0 (positives name_le es))
        (Perm.map entrant (sort_by-perm _ (filter (λ e. leb_ℤ (pos 0) (net_of e)) es)))

  negative_rows-perm :
      (es : List TierInput)
      → Perm
          (map standing (negative_rows name_le es))
          (map entrant (filter (λ e. ltb_ℤ (net_of e) (pos 0)) es))
  unfolding negative_rows
  negative_rows-perm es =
      let rows =
        band_rows negative_band 2 (length (negatives name_le es)) 0 (negatives name_le es) in
      Perm.trans (Perm.map standing (sort_by-perm _ rows)) (
        rw (map-band_rows negative_band 2 (length (negatives name_le es)) 0 (negatives name_le es))
          (Perm.map entrant (sort_by-perm _ (filter (λ e. ltb_ℤ (net_of e) (pos 0)) es))))

  newcomer_rows-perm :
      (es : List TierInput)
      → Perm (map standing (newcomer_rows name_le es)) (map entrant (filter is_idle es))
  unfolding newcomer_rows
  newcomer_rows-perm es =
      rw (map-newcomer_row (sort_by (λ a b. name_le a.name b.name) (filter is_idle es)))
        (Perm.map entrant (sort_by-perm _ (filter is_idle es)))

  -- Every entry is ranked, and once: the users and names of the result are those of the entries, in
  -- another order.
  pub assign_tiers-perm :
      (es : List TierInput) → Perm (map standing (assign_tiers name_le es)) (map entrant es)
  unfolding assign_tiers
  assign_tiers-perm es =
      let active = filter (λ e. not (is_idle e)) es in
      rw
        (
          map-append standing (positive_rows name_le active ++ negative_rows name_le active)
              (newcomer_rows name_le es),
          map-append standing (positive_rows name_le active) (negative_rows name_le active),
        )
        (parts-perm entrant (λ e. not (is_idle e)) is_idle (λ e. not-not (is_idle e)) es
          (parts-perm entrant (λ e. leb_ℤ (pos 0) (net_of e)) (λ e. ltb_ℤ (net_of e) (pos 0))
            (λ e. ltb_ℤ-not-leb_ℤ (net_of e) (pos 0)) active (positive_rows-perm active)
            (negative_rows-perm active))
          (newcomer_rows-perm es))
