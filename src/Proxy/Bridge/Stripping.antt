-- ===== src/Proxy/Bridge/Stripping.antt =====
-- The loop over the fields to strip: what it removes and what it keeps.
use ctc.Common.{
  ◌≡◌, ◌∙◌, refl, sym, ap, inl, inr, ◌⊎◌, subst, String, Bool, true, false, ◌&&◌, ◌||◌, Bool-cases,
  Option, none, some, is_none, List, [], ◌∷◌, same_text, same_text→eq, All, arith,
}
use ctc.Json.{Json, Fields, lookup}
use ctc.Proxy.Bridge.{remove_field, strip_all, is_kept, strip_field}
use ctc.Proxy.Bridge.Lookups.{lookup-remove_field, lookup-remove_field_other}

unfoldable pub is_listed : List String → String → Bool
is_listed [] k = false
is_listed (f ∷ fs) k = same_text f k || is_listed fs k

-- A field that is to be stripped is gone, but for the one that an adaptive model keeps.
abbrev pub IsStripped : Bool → Fields → String → Type 0
IsStripped adaptive_only after f =
    ((adaptive_only && same_text f "output_config") ≡ true) ⊎ (lookup f after ≡ none)

-- What a removal does to any key.
none_after_remove :
    (f k : String) (fs : Fields) → lookup k fs ≡ none → lookup k (remove_field f fs) ≡ none
none_after_remove f k fs h = elim (Bool-cases (same_text f k)) [
  | inl e ↦
      subst (λ x. lookup x (remove_field f fs) ≡ none) (same_text→eq f k e)
        (lookup-remove_field f fs)
  | inr e ↦ lookup-remove_field_other f k fs e ∙ h
]

is_none→eq : (o : Option Json) → is_none o ≡ true → o ≡ none
is_none→eq none h = refl
is_none→eq (some j) h = absurd (ground arith)

one_of : (p q : Bool) → (p || q) ≡ true → (p ≡ true) ⊎ (q ≡ true)
one_of true q h = inl refl
one_of false q h = inr h

module _ (a : Bool) where
  strip_field-none :
      (f k : String) (p : Fields × Bool)
      → lookup k p.0 ≡ none
      → lookup k (strip_field a f p).0 ≡ none
  unfolding strip_field
  strip_field-none f k p h = elim (Bool-cases (is_kept a f p.0)) [
    | inl e ↦ rw e h
    | inr e ↦ rw e (none_after_remove f k p.0 h)
  ]

  strip_field_other :
      (f k : String) (p : Fields × Bool)
      → same_text f k ≡ false
      → lookup k (strip_field a f p).0 ≡ lookup k p.0
  unfolding strip_field
  strip_field_other f k p h = elim (Bool-cases (is_kept a f p.0)) [
    | inl e ↦ rw e refl
    | inr e ↦ rw e (lookup-remove_field_other f k p.0 h)
  ]

  strip_field-IsStripped : (f : String) (p : Fields × Bool) → IsStripped a (strip_field a f p).0 f
  unfolding strip_field
  strip_field-IsStripped f p = elim (Bool-cases (is_kept a f p.0)) [
    | inl e ↦ elim (one_of (a && same_text f "output_config") (is_none (lookup f p.0)) e) [
      | inl kept ↦ inl kept
      | inr gone ↦ rw e (inr (is_none→eq (lookup f p.0) gone))
    ]
    | inr e ↦ rw e (inr (lookup-remove_field f p.0))
  ]

  pub strip_all-none :
      (list : List String) (k : String) (p : Fields × Bool)
      → lookup k p.0 ≡ none
      → lookup k (strip_all a list p).0 ≡ none
  unfolding strip_all
  strip_all-none [] k p h = h
  strip_all-none (f ∷ list) k p h =
      strip_all-none list k (strip_field a f p) (strip_field-none f k p h)

  pub strip_all_other :
      (list : List String) (k : String) (p : Fields × Bool)
      → is_listed list k ≡ false
      → lookup k (strip_all a list p).0 ≡ lookup k p.0
  unfolding strip_all is_listed
  strip_all_other [] k p h = refl
  strip_all_other (f ∷ list) k p h =
      strip_all_other list k (strip_field a f p) (ground arith)
      ∙ strip_field_other f k p (ground arith)

  pub strip_all-IsStripped :
      (list : List String) (p : Fields × Bool) → All (IsStripped a (strip_all a list p).0) list
  unfolding strip_all
  strip_all-IsStripped [] p = tt
  strip_all-IsStripped (f ∷ list) p =
      (stays (strip_field-IsStripped f p), strip_all-IsStripped list (strip_field a f p))
    where
      stays :
          IsStripped a (strip_field a f p).0 f
          → IsStripped a (strip_all a list (strip_field a f p)).0 f
      stays (inl kept) = inl kept
      stays (inr gone) = inr (strip_all-none list f (strip_field a f p) gone)

  -- Where nothing is said to have changed, nothing has.
  strip_field_unchanged :
      (f : String) (p : Fields × Bool) → (strip_field a f p).1 ≡ false → strip_field a f p ≡ p
  unfolding strip_field
  strip_field_unchanged f p h = elim (Bool-cases (is_kept a f p.0)) [
    | inl e ↦ rw e refl
    | inr e ↦ absurd (no_change (rw e at h))
  ]
    where
      no_change : ◌≡◌ {A = Bool} true false → ⊥
      no_change k = ground (arith, k)

  pub strip_all_unchanged :
      (list : List String) (p : Fields × Bool)
      → (strip_all a list p).1 ≡ false
      → strip_all a list p ≡ p
  unfolding strip_all
  strip_all_unchanged [] p h = refl
  strip_all_unchanged (f ∷ list) p h =
      let same = strip_all_unchanged list (strip_field a f p) h in
      same ∙ strip_field_unchanged f p (sym (ap (λ q. q.1) same) ∙ h)
