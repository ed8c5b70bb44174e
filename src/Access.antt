-- ===== src/Access.antt =====
-- ctc/api/rate_limit.py: the limits on requests. A number of tokens is scaled by the window, which makes
-- it whole: the float `tokens` is `tokens / window_s` here, and the clock is in whole seconds.
use ctc.Common.{
  ℕ, ◌+◌, ◌-◌, ◌*◌, ◌<◌, Bool, true, false, ◌&&◌, Option, none, some, List, [], ◌∷◌, ltb, leb, ◌==◌,
  if◌then◌else◌,
}
use ctc.Domain.{Time}
pub mod Rate
pub mod Tokens

-- `(tokens, last)`
pub record RateBucket : Type 0 where
  pub tokens : ℕ
  pub last : Time

-- `self._buckets`, by the scope and the key.
abbrev pub RateBuckets : Type 0
RateBuckets = ℕ → ℕ → Option RateBucket

abbrev pub min_ℕ : ℕ → ℕ → ℕ
min_ℕ a b = if leb a b then a else b

module _ (limit window_s : ℕ) where
  -- `max(0.0, now - last) * rate`; subtraction on ℕ stops at 0.
  abbrev pub refill : Time → RateBucket → ℕ
  refill now b = (now - b.last) * limit

  abbrev pub bucket_or_full : Time → Option RateBucket → RateBucket
  bucket_or_full now none = record { tokens = limit * window_s; last = now }
  bucket_or_full now (some b) = b

  abbrev pub spend : Time → ℕ → Bool × RateBucket
  spend now tokens =
      if ltb tokens window_s
      then (false, record { tokens = tokens; last = now })
      else (true, record { tokens = tokens - window_s; last = now })

  -- Whether the request is let through, and the bucket after it.
  unfoldable pub check_bucket_of : Time → Option RateBucket → Bool × RateBucket
  check_bucket_of now found =
      let b = bucket_or_full now found in
      spend now (min_ℕ (limit * window_s) (b.tokens + refill now b))

  abbrev pub put_bucket : ℕ → ℕ → RateBucket → RateBuckets → RateBuckets
  put_bucket scope key b buckets = λ s k. if s == scope && k == key then some b else buckets s k

  -- `false` is HTTPTooManyRequests.
  unfoldable pub check : ℕ → ℕ → Time → RateBuckets → Bool × RateBuckets
  check scope key now buckets =
      let (passed, b) = check_bucket_of now (buckets scope key) in
      (passed, put_bucket scope key b buckets)

  -- The requests of one key that are let through, at the times of the list.
  unfoldable pub admitted : ℕ → ℕ → List Time → RateBuckets → ℕ
  admitted scope key [] buckets = 0
  admitted scope key (t ∷ ts) buckets =
      let (passed, buckets') = check scope key t buckets in
      (if passed then 1 else 0) + admitted scope key ts buckets'
