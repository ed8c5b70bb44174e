-- ===== src/Proxy/Bridge/Lookups.antt =====
-- What a dict holds after one of its keys is removed or set.
use ctc.Common.{
  ◌≡◌, refl, inl, inr, sym, subst, String, false, Bool-cases, none, some, same_text, same_text_refl,
  same_text→eq, arith,
}
use ctc.Json.{Json, Fields, field, empty, lookup}
use ctc.Proxy.Failover.{set_field}
use ctc.Proxy.Bridge.{remove_field}

pub lookup-remove_field : (k : String) (fs : Fields) → lookup k (remove_field k fs) ≡ none
unfolding lookup remove_field
lookup-remove_field k empty = refl
lookup-remove_field k (field j v fs) = elim (Bool-cases (same_text j k)) [
  | inl e ↦ rw e (lookup-remove_field k fs)
  | inr e ↦ rw (e, e) (lookup-remove_field k fs)
]

-- Another key is found as before.
pub lookup-remove_field_other :
    (k o : String) (fs : Fields)
    → same_text k o ≡ false
    → lookup o (remove_field k fs) ≡ lookup o fs
unfolding lookup remove_field
lookup-remove_field_other k o empty h = refl
lookup-remove_field_other k o (field j v fs) h = elim (Bool-cases (same_text j k)) [
  | inl e ↦ rw (e, same_text→eq j k e, h) (lookup-remove_field_other k o fs h)
  | inr e ↦ rw e (ground (arith, lookup-remove_field_other k o fs h))
]

pub lookup-set_field : (k : String) (v : Json) (fs : Fields) → lookup k (set_field k v fs) ≡ some v
unfolding lookup set_field
lookup-set_field k v empty = rw (same_text_refl k) refl
lookup-set_field k v (field j w fs) = elim (Bool-cases (same_text j k)) [
  | inl e ↦ rw (e, same_text_refl k) refl
  | inr e ↦ rw (e, e) (lookup-set_field k v fs)
]

pub lookup-set_field_other :
    (k o : String) (v : Json) (fs : Fields)
    → same_text k o ≡ false
    → lookup o (set_field k v fs) ≡ lookup o fs
unfolding lookup set_field
lookup-set_field_other k o v empty h = rw h refl
lookup-set_field_other k o v (field j w fs) h = elim (Bool-cases (same_text j k)) [
  | inl e ↦ rw (e, h, subst (λ x. same_text x o ≡ false) (sym (same_text→eq j k e)) h) refl
  | inr e ↦ rw e (ground (arith, lookup-set_field_other k o v fs h))
]
