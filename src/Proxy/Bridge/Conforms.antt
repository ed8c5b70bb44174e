-- ===== src/Proxy/Bridge/Conforms.antt =====
-- A request body that the bridge forwards conforms to the schema, and keeps every other field.
use ctc.Common.{
  ◌≡◌, ◌∙◌, refl, sym, ap, inl, inr, ◌⊎◌, subst, String, Bool, true, false, Bool-cases, Option,
  none, some, same_text, same_text→eq, All, All-map, arith,
}
use ctc.Json.{Text, Json, null, bool, int, float, str, arr, obj, Fields, lookup}
use ctc.Proxy.Bridge.{
  Config, model_in, off_type, strip_all, is_str, coerced, replace_thinking, coerce_thinking,
  coerce_after, normalize, transform_request_body,
}
use ctc.Proxy.Bridge.Lookups.{
  lookup-remove_field, lookup-remove_field_other, lookup-set_field, lookup-set_field_other,
}
use ctc.Proxy.Bridge.Accepted.{
  IsThinking, absent, no_object, adaptive, or_kept, coerced-IsThinking, is_str→eq,
}
use ctc.Proxy.Bridge.Stripping.{
  is_listed, IsStripped, strip_all_other, strip_all-IsStripped, strip_all_unchanged,
}

module _ (c : Config) where
  -- What replaces `thinking`, and what does not.
  replaced :
      (th : Fields) (o : Option Json) (p : Fields × Bool)
      → lookup "thinking" p.0 ≡ some (obj th)
      → lookup "thinking" (replace_thinking c o p).0 ≡ some (or_kept th o)
  replaced th none p h = h
  replaced th (some j) p h = lookup-set_field "thinking" j p.0

  replace_thinking_other :
      (o : Option Json) (k : String) (p : Fields × Bool)
      → same_text "thinking" k ≡ false
      → lookup k (replace_thinking c o p).0 ≡ lookup k p.0
  replace_thinking_other none k p h = refl
  replace_thinking_other (some j) k p h = lookup-set_field_other "thinking" k j p.0 h

  no_change : ◌≡◌ {A = Bool} true false → ⊥
  no_change h = ground (arith, h)

  kept_as_is :
      (o : Option Json) (p : Fields × Bool)
      → (replace_thinking c o p).1 ≡ false
      → replace_thinking c o p ≡ p
  kept_as_is none p h = refl
  kept_as_is (some j) p h = absurd (no_change h)

  module _ (a : Bool) where
    nothing_to_do :
        (k : String) (p : Fields × Bool)
        → lookup k p.0 ≡ none
        → lookup k (coerce_thinking c a none p).0 ≡ none
    unfolding coerce_thinking
    nothing_to_do k p g = g

    coerce_thinking_other :
        (o : Option Json) (k : String) (p : Fields × Bool)
        → same_text "thinking" k ≡ false
        → lookup k (coerce_thinking c a o p).0 ≡ lookup k p.0
    unfolding coerce_thinking
    coerce_thinking_other none k p h = refl
    coerce_thinking_other (some null) k p h = refl
    coerce_thinking_other (some (bool b)) k p h = refl
    coerce_thinking_other (some (int n)) k p h = refl
    coerce_thinking_other (some (float x)) k p h = refl
    coerce_thinking_other (some (str s)) k p h = refl
    coerce_thinking_other (some (arr xs)) k p h = refl
    coerce_thinking_other (some (obj th)) k p h = elim (Bool-cases a) [
      | inl e ↦ elim (Bool-cases (is_str "adaptive" (lookup "type" th))) [
        | inl y ↦ rw (e, y) refl
        | inr n ↦ rw (e, n) (lookup-remove_field_other "thinking" k p.0 h)
      ]
      | inr e ↦ rw e (
          replace_thinking_other
            (coerced c (off_type (lookup "model" p.0) c.between_tools_models) th) k p h)
    ]

    coerce_thinking-IsThinking :
        (o : Option Json) (p : Fields × Bool)
        → lookup "thinking" p.0 ≡ o
        → IsThinking a
            (off_type (lookup "model" p.0) c.between_tools_models)
            (lookup "thinking" (coerce_thinking c a o p).0)
    unfolding coerce_thinking
    coerce_thinking-IsThinking none p h = rw h absent
    coerce_thinking-IsThinking (some null) p h = rw h (no_object null refl)
    coerce_thinking-IsThinking (some (bool b)) p h = rw h (no_object (bool b) refl)
    coerce_thinking-IsThinking (some (int n)) p h = rw h (no_object (int n) refl)
    coerce_thinking-IsThinking (some (float x)) p h = rw h (no_object (float x) refl)
    coerce_thinking-IsThinking (some (str s)) p h = rw h (no_object (str s) refl)
    coerce_thinking-IsThinking (some (arr xs)) p h = rw h (no_object (arr xs) refl)
    coerce_thinking-IsThinking (some (obj th)) p h = elim (Bool-cases a) [
      | inl e ↦ elim (Bool-cases (is_str "adaptive" (lookup "type" th))) [
        | inl y ↦ rw (e, y, h) (adaptive th refl (is_str→eq "adaptive" (lookup "type" th) y))
        | inr n ↦ rw (e, n, lookup-remove_field "thinking" p.0) absent
      ]
      | inr e ↦
          let off = off_type (lookup "model" p.0) c.between_tools_models in
          rw (e, replaced th (coerced c off th) p h) (coerced-IsThinking c off th)
    ]

    -- A key that is gone stays gone.
    coerce_thinking-none :
        (o : Option Json) (k : String) (p : Fields × Bool)
        → lookup "thinking" p.0 ≡ o
        → lookup k p.0 ≡ none
        → lookup k (coerce_thinking c a o p).0 ≡ none
    coerce_thinking-none o k p h gone = elim (Bool-cases (same_text "thinking" k)) [
      | inl e ↦
          gone_too o p
            (sym h ∙ subst (λ x. lookup x p.0 ≡ none) (sym (same_text→eq "thinking" k e)) gone) gone
      | inr e ↦ coerce_thinking_other o k p e ∙ gone
    ]
      where
        gone_too :
            (o : Option Json) (p : Fields × Bool)
            → o ≡ none
            → lookup k p.0 ≡ none
            → lookup k (coerce_thinking c a o p).0 ≡ none
        gone_too o p e g =
            subst (λ x. lookup k (coerce_thinking c a x p).0 ≡ none) (sym e) (nothing_to_do k p g)

    -- Where nothing is said to have changed, nothing has.
    coerce_thinking_unchanged :
        (o : Option Json) (p : Fields × Bool)
        → (coerce_thinking c a o p).1 ≡ false
        → coerce_thinking c a o p ≡ p
    unfolding coerce_thinking
    coerce_thinking_unchanged none p h = refl
    coerce_thinking_unchanged (some null) p h = refl
    coerce_thinking_unchanged (some (bool b)) p h = refl
    coerce_thinking_unchanged (some (int n)) p h = refl
    coerce_thinking_unchanged (some (float x)) p h = refl
    coerce_thinking_unchanged (some (str s)) p h = refl
    coerce_thinking_unchanged (some (arr xs)) p h = refl
    coerce_thinking_unchanged (some (obj th)) p h = elim (Bool-cases a) [
      | inl e ↦ elim (Bool-cases (is_str "adaptive" (lookup "type" th))) [
        | inl y ↦ rw (e, y) refl
        | inr n ↦ absurd (no_change (rw (e, n) at h))
      ]
      | inr e ↦ rw e (
          kept_as_is (coerced c (off_type (lookup "model" p.0) c.between_tools_models) th) p
            (rw e at h))
    ]

  -- What the forwarded object promises, of the one that was sent.
  pub record Conforms (before after : Fields) : Type 0 where
    pub stripped :
        All (IsStripped (model_in (lookup "model" before) c.adaptive_models) after) c.strip_fields
    pub thinking :
        IsThinking
          (model_in (lookup "model" before) c.adaptive_models)
          (off_type (lookup "model" after) c.between_tools_models)
          (lookup "thinking" after)
    pub others :
        (k : String)
        → (is_listed c.strip_fields k ≡ true)
          ⊎ (same_text "thinking" k ≡ true)
          ⊎ (lookup k after ≡ lookup k before)

  IsStripped-still :
      (a : Bool) (f : String) (p : Fields × Bool) (o : Option Json)
      → lookup "thinking" p.0 ≡ o
      → IsStripped a p.0 f
      → IsStripped a (coerce_thinking c a o p).0 f
  IsStripped-still a f p o h (inl kept) = inl kept
  IsStripped-still a f p o h (inr gone) = inr (coerce_thinking-none a o f p h gone)

  other_kept :
      (a : Bool) (k : String) (before : Fields)
      → (is_listed c.strip_fields k ≡ true)
        ⊎ (same_text "thinking" k ≡ true)
        ⊎ (lookup k (coerce_after c a (strip_all a c.strip_fields (before, false))).0
            ≡ lookup k before)
  other_kept a k before = elim (Bool-cases (is_listed c.strip_fields k)) [
    | inl e ↦ inl e
    | inr e ↦ elim (Bool-cases (same_text "thinking" k)) [
      | inl t ↦ inr (inl t)
      | inr t ↦
          let p = strip_all a c.strip_fields (before, false) in
          inr (
            inr (
              coerce_thinking_other a (lookup "thinking" p.0) k p t
              ∙ strip_all_other a c.strip_fields k (before, false) e))
    ]
  ]

  -- Every object is brought into the schema.
  normalize-Conforms : (before : Fields) → Conforms before (normalize c before).0
  unfolding normalize
  normalize-Conforms before =
      let a = model_in (lookup "model" before) c.adaptive_models in
      let p = strip_all a c.strip_fields (before, false) in
      let o = lookup "thinking" p.0 in
      record {
        stripped =
            All-map _ _ c.strip_fields (λ f. IsStripped-still a f p o refl)
              (strip_all-IsStripped a c.strip_fields (before, false));
        thinking =
            subst
              (λ m.
                IsThinking a (off_type m c.between_tools_models)
                  (lookup "thinking" (coerce_thinking c a o p).0))
              (sym (coerce_thinking_other a o "model" p refl))
              (coerce_thinking-IsThinking a o p refl);
        others = λ k. other_kept a k before;
      }

  unchanged : (before : Fields) → (normalize c before).1 ≡ false → (normalize c before).0 ≡ before
  unfolding normalize
  unchanged before h =
      let a = model_in (lookup "model" before) c.adaptive_models in
      let p = strip_all a c.strip_fields (before, false) in
      let same = coerce_thinking_unchanged a (lookup "thinking" p.0) p h in
      ap (λ q. q.0)
        (same ∙ strip_all_unchanged a c.strip_fields (before, false) (sym (ap (λ q. q.1) same) ∙ h))

  -- Of a body that is a JSON object, whose normal form the coder writes as a text that it reads back:
  -- the bridge forwards a body that decodes to an object of the accepted schema. It has none of the
  -- fields to strip, but for the `output_config` of a model that only thinks adaptively; its `thinking`
  -- is absent, no object, or of a type that the model takes, with a budget of at least 1024 where it is
  -- enabled; and every other field is what it was.
  pub transform_request_body-Conforms :
      (loads : Text → Option Json) (dumps : Json → Option Text) (body : Text) (before : Fields)
      (t : Text)
      → loads body ≡ some (obj before)
      → dumps (obj (normalize c before).0) ≡ some t
      → loads t ≡ some (obj (normalize c before).0)
      → (after : Fields) × (loads (transform_request_body c loads dumps body) ≡ some (obj after))
        × Conforms before after
  unfolding transform_request_body
  transform_request_body-Conforms loads dumps body before t decodes written reads =
      elim (Bool-cases (normalize c before).1) [
        | inl e ↦
            ((normalize c before).0, rw (decodes, e, written) reads, normalize-Conforms before)
        | inr e ↦ (
          (normalize c before).0,
          rw (decodes, e) (decodes ∙ ap (λ f. some (obj f)) (sym (unchanged before e))),
          normalize-Conforms before,
        )
      ]
