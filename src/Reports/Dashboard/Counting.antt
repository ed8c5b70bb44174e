-- ===== src/Reports/Dashboard/Counting.antt =====
-- The loop over the requests in build_dashboard: it always returns, and counts each request once.
use ctc.Common.{
  ℕ, zero, suc, ◌+◌, ◌*◌, ◌≡◌, ◌≤◌, ◌∙◌, refl, some, List, [], ◌∷◌, length, All, All-filter,
  All-find_self, arith,
}
use native.Mathlib.Nat.{div-lt_iff_lt-mul}
use ctc.Domain.{
  CycleId, Time, RequestStatus, open_status, partially_funded, fulfilled, expired, cancelled,
  Request, derive_status,
}
use ctc.Store.{Db, Result, ok, >>=-ok, get_request}
use ctc.Store.Query.{request_funded}
use ctc.Engine.{request_status}
use ctc.Reports.{requests_of}
use ctc.Reports.Dashboard.{Counts, count_status, count_requests, fulfillment_rate_of}

-- The request's identifier is there.
abbrev pub IsThere : Db → Request → Type 0
IsThere s r = (x : Request) × (get_request s r.id ≡ some x)

pub requests_of-IsThere : (s : Db) (c : CycleId) → All (IsThere s) (requests_of s c)
unfolding requests_of get_request
requests_of-IsThere s c = All-filter _ _ s.requests (All-find_self (λ r. r.id) s.requests)

-- The loop over the requests returns, counts each once, and none but the closed as fulfilled.
pub record Counted (m : Result Counts × Db) (s : Db) (total : ℕ) : Type 0 where
  pub counts : Counts
  pub ran : m ≡ (ok counts, s)
  pub both : counts.open_count + counts.closed_count ≡ total
  pub closed : counts.fulfilled_count ≤ counts.closed_count

count_status_both :
    (t : RequestStatus) (c : Counts)
    → (count_status t c).open_count + (count_status t c).closed_count
      ≡ c.open_count + c.closed_count + 1
count_status_both open_status c = omega arith
count_status_both partially_funded c = omega arith
count_status_both fulfilled c = omega arith
count_status_both expired c = omega arith
count_status_both cancelled c = omega arith

count_status_closed :
    (t : RequestStatus) (c : Counts)
    → c.fulfilled_count ≤ c.closed_count
    → (count_status t c).fulfilled_count ≤ (count_status t c).closed_count
count_status_closed open_status c h = h
count_status_closed partially_funded c h = h
count_status_closed fulfilled c h = omega (arith, h)
count_status_closed expired c h = omega (arith, h)
count_status_closed cancelled c h = omega (arith, h)

pub request_status_found :
    (s : Db) (i : ℕ) (now : Time) (x : Request)
    → get_request s i ≡ some x
    → request_status i now s
      ≡ (ok (derive_status (request_funded s i) x.amount_needed x.expires_at now x.cancelled_at), s)
unfolding request_status
request_status_found s i now x h = rw h refl

pub count_requests_total :
    (s : Db) (now : Time) (rs : List Request) (c : Counts)
    → All (IsThere s) rs
    → c.fulfilled_count ≤ c.closed_count
    → Counted (count_requests now rs c s) s (c.open_count + c.closed_count + length rs)
unfolding count_requests length
count_requests_total s now [] c there h = record {
  counts = c;
  ran = refl;
  both = omega arith;
  closed = h;
}
count_requests_total s now (r ∷ rs) c ((x, e), there) h =
    let t = derive_status (request_funded s r.id) x.amount_needed x.expires_at now x.cancelled_at in
    let k = count_requests_total s now rs (count_status t c) there (count_status_closed t c h) in
    record {
      counts = k.counts;
      ran =
          >>=-ok (request_status r.id now) (λ a. count_requests now rs (count_status a c))
            (request_status_found s r.id now x e)
          ∙ k.ran;
      both = omega (arith, k.both, count_status_both t c);
      closed = k.closed;
    }

-- A rate is a percentage.
pub fulfillment_rate_of-bounded :
    (fulfilled_count total : ℕ)
    → fulfilled_count ≤ total
    → fulfillment_rate_of fulfilled_count total ≤ 100
unfolding fulfillment_rate_of
fulfillment_rate_of-bounded k zero h = omega arith
fulfillment_rate_of-bounded k (suc n) h =
    let under =
      (div-lt_iff_lt-mul {k = suc n} {x = k * 100} {y = 101} (omega arith)).1 (omega (arith, h)) in
    grind (arith, under)
