-- ===== src/Quota.antt =====
-- ctc/metering/live_quota.py: the cache of the givers' live quotas. The registry of PATs and the fetch
-- from GitHub are parameters; a fetch that fails is `none`. The two readings of the clock in `get`
-- are arguments, in whole seconds.
use ctc.Common.{
  ℕ, ◌+◌, ◌<◌, ◌≡◌, refl, String, true, Option, none, some, ℤ, pos, ltb, ◌==◌, ==_refl, inl, inr,
  Option-cases, arith, if◌then◌else◌,
}
use ctc.Domain.{UserId, Time}

-- The part of GitHub's answer that is read; a part that is missing is `none`.
pub record PremiumInteractions : Type 0 where
  pub entitlement : Option ℤ
  pub remaining : Option ℤ

pub record UserInfo : Type 0 where
  pub premium_interactions : Option PremiumInteractions
  pub quota_reset_date : Option String

pub record QuotaValue : Type 0 where
  pub entitlement : Option ℤ
  pub remaining : Option ℤ
  pub reset_date : Option String

abbrev pub Cache : Type 0
Cache = UserId → Option (Time × QuotaValue)

abbrev pub put : UserId → Option (Time × QuotaValue) → Cache → Cache
put giver_id v cache = λ i. if i == giver_id then v else cache i

abbrev pub value_of : UserInfo → QuotaValue
value_of u = elim u.premium_interactions [
  | none ↦ record { entitlement = none; remaining = none; reset_date = u.quota_reset_date }
  | some pi ↦ record {
    entitlement = pi.entitlement;
    remaining = pi.remaining;
    reset_date = u.quota_reset_date;
  }
]

unfoldable pub invalidate : UserId → Cache → Cache
invalidate giver_id cache = put giver_id none cache

unfoldable pub set_exhausted : UserId → Time → Cache → Cache
set_exhausted giver_id now cache =
    put giver_id
      (some (now, record { entitlement = none; remaining = some (pos 0); reset_date = none })) cache

module _ (ttl : ℕ) (pat_for : UserId → Option ℕ) (fetch_user : ℕ → Option UserInfo) where
  -- What is fetched is stored with the time after the fetch.
  abbrev store_fetched : UserId → Time → Option UserInfo → Cache → Option QuotaValue × Cache
  store_fetched giver_id later none cache = (none, cache)
  store_fetched giver_id later (some u) cache =
      (some (value_of u), put giver_id (some (later, value_of u)) cache)

  abbrev fetch : UserId → Time → Option ℕ → Cache → Option QuotaValue × Cache
  fetch giver_id later none cache = (none, cache)
  fetch giver_id later (some pat) cache = store_fetched giver_id later (fetch_user pat) cache

  abbrev on_hit :
      UserId → Time → Time → Option (Time × QuotaValue) → Cache → Option QuotaValue × Cache
  on_hit giver_id now later none cache = fetch giver_id later (pat_for giver_id) cache
  on_hit giver_id now later (some (at, value)) cache =
      if ltb now (at + ttl)
      then (some value, cache)
      else fetch giver_id later (pat_for giver_id) cache

  unfoldable pub get : UserId → Time → Time → Cache → Option QuotaValue × Cache
  get giver_id now later cache = on_hit giver_id now later (cache giver_id) cache

  abbrev remaining_of : Option QuotaValue → Option ℤ
  remaining_of none = none
  remaining_of (some v) = v.remaining

  unfoldable pub remaining : UserId → Time → Time → Cache → Option ℤ × Cache
  remaining giver_id now later cache =
      let (v, after) = get giver_id now later cache in (remaining_of v, after)

  -- A giver that was marked as exhausted has nothing remaining until the time to live has passed,
  -- whatever GitHub says, and the reading leaves the cache as it is.
  pub remaining-set_exhausted :
      (giver_id : UserId) (at now later : Time) (cache : Cache)
      → now < at + ttl
      → remaining giver_id now later (set_exhausted giver_id at cache)
        ≡ (some (pos 0), set_exhausted giver_id at cache)
  unfolding remaining get set_exhausted
  remaining-set_exhausted giver_id at now later cache fresh = rw (==_refl giver_id, fresh_test) refl
    where
      fresh_test : ltb now (at + ttl) ≡ true
      fresh_test = ground arith

  -- A value that is read after an invalidation is read again, with no change of the cache, by every
  -- reading within the time to live of the fetch.
  pub get-get :
      (giver_id : UserId) (now later now' later' : Time) (cache : Cache) {v : QuotaValue}
      → now' < later + ttl
      → (get giver_id now later (invalidate giver_id cache)).0 ≡ some v
      → get giver_id now' later' (get giver_id now later (invalidate giver_id cache)).1
        ≡ get giver_id now later (invalidate giver_id cache)
  unfolding get invalidate
  get-get giver_id now later now' later' cache fresh h = elim (Option-cases (pat_for giver_id)) [
    | inl no_pat ↦ absurd (no_value (rw (==_refl giver_id, no_pat) at h))
    | inr (p, has_pat) ↦ elim (Option-cases (fetch_user p)) [
      | inl failed ↦ absurd (no_value (rw (==_refl giver_id, has_pat, failed) at h))
      | inr (u, fetched) ↦
          rw (==_refl giver_id, has_pat, fetched, ==_refl giver_id, fresh_test) refl
    ]
  ]
    where
      no_value : {x : QuotaValue} → ◌≡◌ {A = Option QuotaValue} none (some x) → ⊥
      no_value k = ground (arith, k)

      fresh_test : ltb now' (later + ttl) ≡ true
      fresh_test = ground arith
