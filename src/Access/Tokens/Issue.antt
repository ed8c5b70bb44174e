-- ===== src/Access/Tokens/Issue.antt =====
-- A token that was issued resolves to its user, and to nobody once it is deleted.
use ctc.Common.{
  ℕ, zero, suc, ◌≡◌, refl, inl, inr, true, not, Bool-cases, none, some, Option-cases, List, [], ◌∷◌,
  ◌++◌, length, filter, find_first, find_first-append_new, leb, ◌==◌, ==_refl, arith,
}
use ctc.Domain.{UserId, Time}
use ctc.Access.Tokens.{
  User, ProxyToken, AuthDb, is_live, get_active_proxy_token, get_user_by_id, resolve, is_taken,
  add_proxy_token, is_own, delete_proxy_token, issue_proxy_token, active_tokens, oldest, remove,
  evict, max_active_proxy_tokens, api_token_create,
}

evict-users :
    (fuel max_active : ℕ) (u : UserId) (ts : List ProxyToken) (s : AuthDb)
    → (evict fuel max_active u ts s).users ≡ s.users
unfolding evict delete_proxy_token
evict-users fuel m u [] s = refl
evict-users zero m u (t ∷ ts) s = refl
evict-users (suc fuel) m u (t ∷ ts) s =
    let victim = oldest t ts in
    elim (Bool-cases (leb m (length (t ∷ ts)))) [
      | inl more ↦
          rw more
            (evict-users fuel m u (remove victim.id (t ∷ ts)) (delete_proxy_token victim.id u s))
      | inr room ↦ rw room refl
    ]

-- No token with the identifier or the hash of a new one is live under its hash.
live-untaken :
    (t : ProxyToken) (ts : List ProxyToken)
    → find_first (is_taken t) ts ≡ none
    → find_first (is_live t.token_hash) ts ≡ none
unfolding find_first
live-untaken t [] h = refl
live-untaken t (u ∷ ts) h = elim (Bool-cases (u.id == t.id)) [
  | inl same ↦ absurd (ground (arith, h, same))
  | inr other ↦ elim (Bool-cases (u.token_hash == t.token_hash)) [
    | inl same ↦ absurd (ground (arith, h, other, same))
    | inr differs ↦ rw differs (live-untaken t ts (rw (other, differs) at h))
  ]
]

-- So none is after a deletion.
live-filtered :
    (hash id : ℕ) (u : UserId) (ts : List ProxyToken)
    → find_first (is_live hash) ts ≡ none
    → find_first (is_live hash) (filter (λ t. not (is_own id u t)) ts) ≡ none
unfolding find_first filter
live-filtered hash id u [] h = refl
live-filtered hash id u (t ∷ ts) h = elim (Bool-cases (is_live hash t)) [
  | inl live ↦ absurd (ground (arith, h, live))
  | inr dead ↦ elim (Bool-cases (is_own id u t)) [
    | inl own ↦ rw own (live-filtered hash id u ts (rw dead at h))
    | inr other ↦ rw (other, dead) (live-filtered hash id u ts (rw dead at h))
  ]
]

filter-last :
    (id : ℕ) (u : UserId) (t : ProxyToken) (ts : List ProxyToken)
    → is_own id u t ≡ true
    → filter (λ t. not (is_own id u t)) (ts ++ t ∷ []) ≡ filter (λ t. not (is_own id u t)) ts
unfolding filter
filter-last id u t [] h = rw h refl
filter-last id u t (x ∷ ts) h = elim (Bool-cases (is_own id u x)) [
  | inl own ↦ rw own (filter-last id u t ts h)
  | inr other ↦ rw (other, filter-last id u t ts h) refl
]

module _ (id hash : ℕ) (user : UserId) (now : Time) where
  abbrev new_token : ProxyToken
  new_token = record {
    id = id;
    token_hash = hash;
    user_id = user;
    created_at = now;
    revoked_at = none;
  }

  issued :
      (s : AuthDb) {s' : AuthDb}
      → issue_proxy_token id hash user now s ≡ some s'
      → (find_first (is_taken new_token) s.proxy_tokens ≡ none)
        × (s' ≡ record s { proxy_tokens = s.proxy_tokens ++ new_token ∷ [] })
  unfolding issue_proxy_token add_proxy_token
  issued s {s'} h = elim (Option-cases (find_first (is_taken new_token) s.proxy_tokens)) [
    | inl new ↦ (new, ground (arith, h, new))
    | inr (t, taken) ↦ absurd (ground (arith, h, taken))
  ]

  resolve-issue_proxy_token :
      (s : AuthDb) {s' : AuthDb} {u : User}
      → issue_proxy_token id hash user now s ≡ some s'
      → get_user_by_id s user ≡ some u
      → (resolve s' hash ≡ some (record { user_id = u.id; is_giver = u.is_giver }))
        × (resolve (delete_proxy_token id user s') hash ≡ none)
  unfolding resolve get_active_proxy_token get_user_by_id delete_proxy_token
  resolve-issue_proxy_token s h known =
      let (untaken, after) = issued s h in
      let dead = live-untaken new_token s.proxy_tokens untaken in
      rw after (
        rw (find_first-append_new (is_live hash) s.proxy_tokens new_token dead, ==_refl hash, known)
            refl,
        rw
            (
              filter-last id user new_token s.proxy_tokens (rw (==_refl id, ==_refl user) refl),
              live-filtered hash id user s.proxy_tokens dead,
            )
            refl,
      )

  -- When the handler returns for a user who is there: the new token resolves to that user with the
  -- user's role, and once it is deleted by its owner it resolves to nobody.
  pub resolve-api_token_create :
      (s : AuthDb) {s' : AuthDb} {u : User}
      → api_token_create id hash user now s ≡ some s'
      → get_user_by_id s user ≡ some u
      → (resolve s' hash ≡ some (record { user_id = u.id; is_giver = u.is_giver }))
        × (resolve (delete_proxy_token id user s') hash ≡ none)
  unfolding api_token_create get_user_by_id
  resolve-api_token_create s h known =
      let active = active_tokens user s in
      let s₁ = evict (length active) max_active_proxy_tokens user active s in
      resolve-issue_proxy_token s₁ h
        (rw (evict-users (length active) max_active_proxy_tokens user active s) known)
