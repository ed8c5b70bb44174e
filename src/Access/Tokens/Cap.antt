-- ===== src/Access/Tokens/Cap.antt =====
-- The eviction leaves room below the cap, with the fuel that the handler gives it.
use ctc.Common.{
  ℕ, zero, suc, ◌≤◌, ◌≡◌, ◌⊎◌, refl, subst, sym, inl, inr, Bool, true, false, ◌||◌, Bool-cases,
  List, [], ◌∷◌, ◌++◌, ◌<◌, not, none, some, Option-cases, filter, find_first, is_none, length, leb,
  ltb, ◌==◌, ==_refl, arith,
}
use ctc.Domain.{UserId, Time}
use ctc.Access.Tokens.{
  ProxyToken, AuthDb, is_own, oldest, remove, delete_proxy_token, issue_proxy_token,
  add_proxy_token, is_taken, evict, is_active_of, active_tokens, max_active_proxy_tokens,
  api_token_create,
}

has_id : ℕ → List ProxyToken → Bool
has_id id [] = false
has_id id (t ∷ ts) = t.id == id || has_id id ts

oldest-cases :
    (t u : ProxyToken) (us : List ProxyToken)
    → (oldest t (u ∷ us) ≡ oldest u us) ⊎ (oldest t (u ∷ us) ≡ oldest t us)
unfolding oldest
oldest-cases t u us = elim (Bool-cases (ltb u.created_at t.created_at)) [
  | inl younger ↦ inl (rw younger refl)
  | inr older ↦ inr (rw older refl)
]

-- A list with a token more, at the front or behind it.
has_id_front :
    (id : ℕ) (t : ProxyToken) (ts : List ProxyToken)
    → has_id id ts ≡ true
    → has_id id (t ∷ ts) ≡ true
unfolding has_id
has_id_front id t ts h = ground (arith, h)

has_id_behind :
    (id : ℕ) (t u : ProxyToken) (us : List ProxyToken)
    → has_id id (t ∷ us) ≡ true
    → has_id id (t ∷ u ∷ us) ≡ true
unfolding has_id
has_id_behind id t u us h = ground (arith, h)

has_id_self : (t : ProxyToken) → has_id t.id (t ∷ []) ≡ true
unfolding has_id
has_id_self t = rw (==_refl t.id) refl

oldest_self : (t : ProxyToken) → t ≡ oldest t []
unfolding oldest
oldest_self t = refl

has_id-oldest : (t : ProxyToken) (ts : List ProxyToken) → has_id (oldest t ts).id (t ∷ ts) ≡ true
has_id-oldest t [] = subst (λ x. has_id x.id (t ∷ []) ≡ true) (oldest_self t) (has_id_self t)
has_id-oldest t (u ∷ us) = elim (oldest-cases t u us) [
  | inl e ↦
      subst (λ x. has_id x.id (t ∷ u ∷ us) ≡ true) (sym e)
        (has_id_front (oldest u us).id t (u ∷ us) (has_id-oldest u us))
  | inr e ↦
      subst (λ x. has_id x.id (t ∷ u ∷ us) ≡ true) (sym e)
        (has_id_behind (oldest t us).id t u us (has_id-oldest t us))
]

length-remove :
    (id : ℕ) (ts : List ProxyToken) → has_id id ts ≡ true → suc (length (remove id ts)) ≡ length ts
unfolding has_id remove length
length-remove id [] h = absurd (ground (arith, h))
length-remove id (t ∷ ts) h = elim (Bool-cases (t.id == id)) [
  | inl here ↦ rw here refl
  | inr there ↦ rw there (rw (length-remove id ts (rw there at h)) refl)
]

-- The tokens of the first list are some of the second, in its order.
data Among : List ProxyToken → List ProxyToken → Type 0 where
  nothing : Among [] []
  kept : {t : ProxyToken} {xs ys : List ProxyToken} → Among xs ys → Among (t ∷ xs) (t ∷ ys)
  missing : {t : ProxyToken} {xs ys : List ProxyToken} → Among xs ys → Among xs (t ∷ ys)

Among_refl : (xs : List ProxyToken) → Among xs xs
Among_refl [] = nothing
Among_refl (t ∷ xs) = kept (Among_refl xs)

length-Among : {xs ys : List ProxyToken} → Among xs ys → length xs ≤ length ys
unfolding length
length-Among nothing = omega arith
length-Among (kept a) = omega (arith, length-Among a)
length-Among (missing a) = omega (arith, length-Among a)

abbrev is_other : ℕ → ProxyToken → Bool
is_other id t = not (t.id == id)

filter-Among : (id : ℕ) {xs ys : List ProxyToken} → Among xs ys → Among (filter (is_other id) xs) ys
unfolding filter
filter-Among id nothing = nothing
filter-Among id (kept {t} a) = elim (Bool-cases (t.id == id)) [
  | inl e ↦ rw e (missing (filter-Among id a))
  | inr e ↦ rw e (kept (filter-Among id a))
]
filter-Among id (missing a) = missing (filter-Among id a)

-- What is left without every token of an identifier is among what is left without the first.
remove-Among :
    (id : ℕ) {xs ys : List ProxyToken}
    → Among xs ys
    → Among (filter (is_other id) xs) (remove id ys)
unfolding filter remove
remove-Among id nothing = nothing
remove-Among id (kept {t} a) = elim (Bool-cases (t.id == id)) [
  | inl e ↦ rw e (filter-Among id a)
  | inr e ↦ rw e (kept (remove-Among id a))
]
remove-Among id (missing {t} a) = elim (Bool-cases (t.id == id)) [
  | inl e ↦ rw e (filter-Among id a)
  | inr e ↦ rw e (missing (remove-Among id a))
]

active-filtered :
    (id : ℕ) (u : UserId) (ts : List ProxyToken)
    → filter (is_active_of u) (filter (λ t. not (is_own id u t)) ts)
      ≡ filter (is_other id) (filter (is_active_of u) ts)
unfolding filter
active-filtered id u [] = refl
active-filtered id u (t ∷ ts) = elim (Bool-cases (t.user_id == u)) [
  | inl mine ↦ elim (Bool-cases (t.id == id)) [
    | inl same ↦ elim (Bool-cases (is_none t.revoked_at)) [
      | inl on ↦ rw (mine, on, same) (active-filtered id u ts)
      | inr off ↦ rw (mine, off, same) (active-filtered id u ts)
    ]
    | inr other ↦ elim (Bool-cases (is_none t.revoked_at)) [
      | inl on ↦ rw (other, mine, on, other) (rw (active-filtered id u ts) refl)
      | inr off ↦ rw (other, mine, off) (active-filtered id u ts)
    ]
  ]
  | inr theirs ↦ elim (Bool-cases (t.id == id)) [
    | inl same ↦ rw (theirs, same, theirs) (active-filtered id u ts)
    | inr other ↦ rw (theirs, other, theirs) (active-filtered id u ts)
  ]
]

-- The loop ends below the cap: what is active is always among the tokens that the loop still has, and
-- each turn takes one from it.
evict-below :
    (fuel m : ℕ) (u : UserId) (ts : List ProxyToken) (s : AuthDb)
    → length ts ≤ fuel
    → 1 ≤ m
    → Among (active_tokens u s) ts
    → length (active_tokens u (evict fuel m u ts s)) < m
unfolding evict length active_tokens delete_proxy_token
evict-below fuel m u [] s enough some_room a = omega (arith, length-Among a)
evict-below zero m u (t ∷ ts) s enough some_room a = absurd (omega (arith, enough))
evict-below (suc fuel) m u (t ∷ ts) s enough some_room a =
    elim (Bool-cases (leb m (length (t ∷ ts)))) [
      | inl full ↦
          let victim = oldest t ts in
          let shorter = length-remove victim.id (t ∷ ts) (has_id-oldest t ts) in
          rw full (
            evict-below fuel m u (remove victim.id (t ∷ ts)) (delete_proxy_token victim.id u s)
              (omega (arith, enough, shorter)) some_room
              (subst (λ l. Among l (remove victim.id (t ∷ ts)))
                (sym (active-filtered victim.id u s.proxy_tokens)) (remove-Among victim.id a)))
      | inr room ↦ rw room (ground (arith, room, length-Among a))
    ]

module _ (id hash : ℕ) (user : UserId) (now : Time) where
  abbrev issued_token : ProxyToken
  issued_token = record {
    id = id;
    token_hash = hash;
    user_id = user;
    created_at = now;
    revoked_at = none;
  }

  length-append_one :
      (p : ProxyToken → Bool) (ts : List ProxyToken) (t : ProxyToken)
      → length (filter p (ts ++ t ∷ [])) ≤ suc (length (filter p ts))
  unfolding length filter
  length-append_one p [] t = ground arith
  length-append_one p (x ∷ ts) t = elim (Bool-cases (p x)) [
    | inl e ↦ rw e (omega (arith, length-append_one p ts t))
    | inr e ↦ rw e (length-append_one p ts t)
  ]

  issued-length :
      (s : AuthDb) {s' : AuthDb}
      → issue_proxy_token id hash user now s ≡ some s'
      → length (active_tokens user s') ≤ suc (length (active_tokens user s))
  unfolding issue_proxy_token add_proxy_token active_tokens
  issued-length s h = elim (Option-cases (find_first (is_taken issued_token) s.proxy_tokens)) [
    | inl new ↦ rw (after new h) (length-append_one (is_active_of user) s.proxy_tokens issued_token)
    | inr (t, taken) ↦ absurd (ground (arith, h, taken))
  ]
    where
      after :
          {s' : AuthDb}
          → find_first (is_taken issued_token) s.proxy_tokens ≡ none
          → issue_proxy_token id hash user now s ≡ some s'
          → s' ≡ record s { proxy_tokens = s.proxy_tokens ++ issued_token ∷ [] }
      after new h = ground (arith, h, new)

  -- When the handler returns, the user has at most ten active tokens, however many there were before.
  pub api_token_create-capped :
      (s : AuthDb) {s' : AuthDb}
      → api_token_create id hash user now s ≡ some s'
      → length (active_tokens user s') ≤ max_active_proxy_tokens
  unfolding api_token_create
  api_token_create-capped s h =
      let active = active_tokens user s in
      let s₁ = evict (length active) max_active_proxy_tokens user active s in
      omega (
        arith,
        issued-length s₁ h,
        evict-below (length active) max_active_proxy_tokens user active s (omega arith)
            (omega arith) (Among_refl active),
      )
