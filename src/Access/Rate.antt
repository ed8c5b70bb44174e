-- ===== src/Access/Rate.antt =====
-- The rate limit holds over any sequence of requests.
use ctc.Common.{
  ℕ, ◌+◌, ◌-◌, ◌*◌, ◌≤◌, ◌≡◌, refl, inl, inr, Bool, Bool-cases, none, some, List, [], ◌∷◌, ltb,
  ==_refl, arith, if◌then◌else◌,
}
use ctc.Domain.{Time}
use ctc.Access.{RateBucket, RateBuckets, min_ℕ, spend, check_bucket_of, put_bucket, check, admitted}

-- The seconds that pass on the clock, from `last` on; where it is set back, none pass.
unfoldable pub elapsed : Time → List Time → ℕ
elapsed last [] = 0
elapsed last (t ∷ ts) = (t - last) + elapsed t ts

sub_self : (t : ℕ) → t - t ≡ 0
sub_self t = omega arith

module _ (limit window_s : ℕ) where
  -- One check pays a window for a request that it lets through, out of what was there and the refill.
  record Pays (now : Time) (b : RateBucket) (r : Bool × RateBucket) : Type 0 where
    paid : (if r.0 then 1 else 0) * window_s + r.1.tokens ≤ b.tokens + (now - b.last) * limit
    read_at : r.1.last ≡ now

  spend-Pays :
      (now : Time) (b : RateBucket) (x : ℕ)
      → x ≤ b.tokens + (now - b.last) * limit
      → Pays now b (spend limit window_s now x)
  spend-Pays now b x h = elim (Bool-cases (ltb x window_s)) [
    | inl e ↦ rw e (record { paid = omega (arith, h); read_at = refl })
    | inr e ↦ rw e (record { paid = ground (arith, h, e); read_at = refl })
  ]

  min_le : (a b : ℕ) → min_ℕ a b ≤ b
  min_le a b = ground arith

  check_bucket_of-Pays :
      (now : Time) (b : RateBucket) → Pays now b (check_bucket_of limit window_s now (some b))
  unfolding check_bucket_of
  check_bucket_of-Pays now b =
      spend-Pays now b _ (min_le (limit * window_s) (b.tokens + (now - b.last) * limit))

  check-bucket :
      (scope key : ℕ) (now : Time) (buckets : RateBuckets)
      → (check limit window_s scope key now buckets).1 scope key
        ≡ some (check_bucket_of limit window_s now (buckets scope key)).1
  unfolding check
  check-bucket scope key now buckets = rw (==_refl scope, ==_refl key) refl

  Pays-check :
      (scope key : ℕ) (now : Time) (buckets : RateBuckets) (b : RateBucket)
      → buckets scope key ≡ some b
      → Pays now b (check_bucket_of limit window_s now (buckets scope key))
  Pays-check scope key now buckets b e = rw e (check_bucket_of-Pays now b)

  step :
      (one rest left all first later : ℕ)
      → one * window_s + left ≤ all + first * limit
      → rest * window_s ≤ left + later * limit
      → (one + rest) * window_s ≤ all + (first + later) * limit
  step one rest left all first later h k = omega (arith, h, k)

  -- The requests of one key, the first of which pays out of the bucket `b`.
  abbrev Bounded : ℕ → ℕ → List Time → RateBuckets → RateBucket → Type 0
  Bounded scope key ts buckets b =
      admitted limit window_s scope key ts buckets * window_s ≤ b.tokens + elapsed b.last ts * limit

  admitted-Pays :
      (scope key : ℕ) (t : Time) (ts : List Time) (buckets : RateBuckets) (b : RateBucket)
      → Pays t b (check_bucket_of limit window_s t (buckets scope key))
      → Bounded scope key ts
          (check limit window_s scope key t buckets).1
          (check_bucket_of limit window_s t (buckets scope key)).1
      → Bounded scope key (t ∷ ts) buckets b
  unfolding admitted elapsed check
  admitted-Pays scope key t ts buckets b p rest =
      let r = check_bucket_of limit window_s t (buckets scope key) in
      let after = put_bucket limit window_s scope key r.1 buckets in
      step (if r.0 then 1 else 0) (admitted limit window_s scope key ts after) r.1.tokens b.tokens
        (t - b.last) (elapsed t ts) p.paid (rw p.read_at at rest)

  admitted-bucket :
      (scope key : ℕ) (ts : List Time) (buckets : RateBuckets) (b : RateBucket)
      → buckets scope key ≡ some b
      → Bounded scope key ts buckets b
  unfolding admitted elapsed
  admitted-bucket scope key [] buckets b e = omega arith
  admitted-bucket scope key (t ∷ ts) buckets b e =
      admitted-Pays scope key t ts buckets b (Pays-check scope key t buckets b e) (
        admitted-bucket scope key ts (check limit window_s scope key t buckets).1
          (check_bucket_of limit window_s t (buckets scope key)).1
          (check-bucket scope key t buckets))

  in_all : (n x t : ℕ) → n ≤ limit * window_s + ((t - t) + x) * limit → n ≤ limit * (window_s + x)
  in_all n x t h = let k = rw (sub_self t) at h in omega (arith, k)

  -- Of the requests of one key, at any times, the first of them with a full bucket, at most the limit
  -- is let through, and the limit again for each window that passes between them.
  pub admitted-bounded :
      (scope key : ℕ) (t : Time) (ts : List Time) (buckets : RateBuckets)
      → buckets scope key ≡ none
      → admitted limit window_s scope key (t ∷ ts) buckets * window_s
        ≤ limit * (window_s + elapsed t ts)
  unfolding elapsed check_bucket_of
  admitted-bounded scope key t ts buckets new =
      let full : RateBucket = record { tokens = limit * window_s; last = t } in
      in_all (admitted limit window_s scope key (t ∷ ts) buckets * window_s) (elapsed t ts) t (
        admitted-Pays scope key t ts buckets full (rw new (check_bucket_of-Pays t full)) (
          admitted-bucket scope key ts (check limit window_s scope key t buckets).1
            (check_bucket_of limit window_s t (buckets scope key)).1
            (check-bucket scope key t buckets)))
