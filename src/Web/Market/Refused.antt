-- ===== src/Web/Market/Refused.antt =====
-- A call of the marketplace that is refused writes nothing.
use ctc.Common.{
  ℕ, ◌≡◌, refl, sym, ap, ◌∙◌, subst, Bool, true, false, Option, none, some, ℤ, pos, ltb,
  if◌then◌else◌, ltb_ℤ, ◌==◌,
}
use ctc.Domain.{UserId, RequestId, GrantId, Time, Request}
use ctc.Store.{Db, Error, Result, ok, err, Action, get_request}
use ctc.Engine.Market.{fund_request, cancel_request}
use ctc.Engine.Pool.{fund_request_from_pool, fund_request_from_received}
use ctc.Engine.Valid.{Atomic, transaction-Atomic}
use ctc.Engine.Cycle.{Calendar}
use ctc.Web.{Answer, sent, refused, Viewer, answered, fund_status, delete_status}
use ctc.Web.Requests.{Names, PublicRequest, build_public_request}
use ctc.Web.Market.{
  MarketConfig, Donate, with_user, if_valid, with_request, guard, shown, donate, pool_fund,
  delete_request,
}

-- A refusal below 500 left the tables as they were.
abbrev Kept : {A : Type 0} → Db → Answer A × Db → Type 0
Kept s (sent a, t) = Unit {0}
Kept s (refused n, t) = ltb n 500 ≡ true → t ≡ s

-- An answer after the call: a body or a 500.
abbrev IsLate : {A : Type 0} → Answer A → Type 0
IsLate (sent a) = Unit {0}
IsLate (refused n) = ltb n 500 ≡ false

module _ {A : Type 0} where
  late-Kept : (s t : Db) (a : Answer A) → IsLate a → Kept s (a, t)
  late-Kept s t (sent a) h = tt
  late-Kept s t (refused n) h = λ below. absurd (cc)

  with_user-Kept :
      (user : Option Viewer) (f : Viewer → Db → Answer A × Db) (s : Db)
      → ((u : Viewer) → Kept s (f u s))
      → Kept s (with_user user f s)
  with_user-Kept none f s h = λ _. refl
  with_user-Kept (some u) f s h = h u

  if_valid-Kept :
      (b : Bool) (f : Db → Answer A × Db) (s : Db) → Kept s (f s) → Kept s (if_valid b f s)
  if_valid-Kept true f s h = h
  if_valid-Kept false f s h = λ _. refl

  guard-Kept :
      (b : Bool) (n : ℕ) (f : Db → Answer A × Db) (s : Db) → Kept s (f s) → Kept s (guard b n f s)
  guard-Kept true n f s h = h
  guard-Kept false n f s h = λ _. refl

  found-Kept :
      (found : Option Request) (f : Request → Db → Answer A × Db) (s : Db)
      → ((r : Request) → Kept s (f r s))
      → Kept {A = A} s (elim found [ none ↦ (refused 404, s) | some r ↦ f r s ])
  found-Kept none f s h = λ _. refl
  found-Kept (some r) f s h = h r

  with_request-Kept :
      (rid : RequestId) (f : Request → Db → Answer A × Db) (s : Db)
      → ((r : Request) → Kept s (f r s))
      → Kept s (with_request rid f s)
  with_request-Kept rid f s h = found-Kept (get_request s rid) f s h

  settled-Kept :
      {B : Type 0} (status_of : Error → ℕ) (f : B → Db → Answer A) (s t : Db) (r : Result B)
      → ((e : Error) → r ≡ err e → t ≡ s)
      → ((b : B) → IsLate (f b t))
      → Kept s (answered status_of f (r, t))
  settled-Kept status_of f s t (ok b) atomic late = late-Kept s t (f b t) (late b)
  settled-Kept status_of f s t (err e) atomic late = λ _. atomic e refl

  -- A method of the engine that rolls back, and the answer after it.
  answered-Kept :
      {B : Type 0} (status_of : Error → ℕ) (f : B → Db → Answer A) (m : Action B) (s : Db)
      → Atomic m
      → ((b : B) (t : Db) → IsLate (f b t))
      → Kept s (answered status_of f (m s))
  answered-Kept status_of f m s atomic late =
      settled-Kept status_of f s (m s).1 (m s).0 (atomic s) (λ b. late b (m s).1)

module _ (names : Names) (config : MarketConfig) (cal : Calendar) (pct : ℕ) where
  found-IsLate :
      (found : Option Request) (f : Request → PublicRequest)
      → IsLate {A = PublicRequest} (elim found [ none ↦ refused 500 | some r ↦ sent (f r) ])
  found-IsLate none f = refl
  found-IsLate (some r) f = tt

  shown-IsLate :
      (rid : RequestId) (ts : Time) (viewer : Option UserId) (t : Db)
      → IsLate (shown names config cal pct rid ts viewer t)
  shown-IsLate rid ts viewer t =
      found-IsLate (get_request t rid) (λ r. build_public_request names t r ts viewer)

  abbrev chip_now :
      GrantId
      → (ℕ → GrantId)
      → RequestId
      → UserId
      → Bool
      → ℤ
      → Time
      → Db
      → Answer PublicRequest × Db
  chip_now id new_id rid u received x ts s =
      if received
      then answered fund_status (λ _ t. shown names config cal pct rid ts none t)
          (fund_request_from_received new_id rid u x ts s)
      else answered fund_status (λ _ t. shown names config cal pct rid ts none t)
          (fund_request id rid u x ts s)

  chip_now-Kept :
      (id : GrantId) (new_id : ℕ → GrantId) (rid : RequestId) (u : UserId) (received : Bool) (x : ℤ)
      (ts : Time) (s : Db)
      → Kept s (chip_now id new_id rid u received x ts s)
  unfolding fund_request fund_request_from_received
  chip_now-Kept id new_id rid u true x ts s =
      answered-Kept fund_status _ (fund_request_from_received new_id rid u x ts) s
        (transaction-Atomic _) (λ _ t. shown-IsLate rid ts none t)
  chip_now-Kept id new_id rid u false x ts s =
      answered-Kept fund_status _ (fund_request id rid u x ts) s (transaction-Atomic _)
        (λ _ t. shown-IsLate rid ts none t)

  donate-Kept :
      (id : GrantId) (new_id : ℕ → GrantId) (user : Option Viewer) (rid : RequestId) (b : Donate)
      (ts : Time) (s : Db)
      → Kept s (donate names config cal pct id new_id user rid b ts s)
  unfolding donate
  donate-Kept id new_id user rid b ts s = with_user-Kept user _ s λ u.
      let chip = chip_now id new_id rid u.id b.is_received b.amount ts in
      if_valid-Kept (ltb_ℤ (pos 0) b.amount) _ s (
        with_request-Kept rid (λ _. chip) s
          λ _. chip_now-Kept id new_id rid u.id b.is_received b.amount ts s)

  abbrev fund_now : (ℕ → GrantId) → RequestId → UserId → ℤ → Time → Db → Answer PublicRequest × Db
  fund_now new_id rid u x ts s =
      answered fund_status (λ _ t. shown names config cal pct rid ts (some u) t)
        (fund_request_from_pool new_id rid u x ts s)

  fund_now-Kept :
      (new_id : ℕ → GrantId) (rid : RequestId) (u : UserId) (x : ℤ) (ts : Time) (s : Db)
      → Kept s (fund_now new_id rid u x ts s)
  unfolding fund_request_from_pool
  fund_now-Kept new_id rid u x ts s =
      answered-Kept fund_status _ (fund_request_from_pool new_id rid u x ts) s
        (transaction-Atomic _) (λ _ t. shown-IsLate rid ts (some u) t)

  pool_fund-Kept :
      (new_id : ℕ → GrantId) (user : Option Viewer) (rid : RequestId) (x : ℤ) (ts : Time) (s : Db)
      → Kept s (pool_fund names config cal pct new_id user rid x ts s)
  unfolding pool_fund
  pool_fund-Kept new_id user rid x ts s = with_user-Kept user _ s λ u.
      let fund = fund_now new_id rid u.id x ts in
      let open_pool = guard config.shared_pool_enabled 409 fund in
      if_valid-Kept (ltb_ℤ (pos 0) x) _ s (
        with_request-Kept rid (λ r. guard (r.requester_id == u.id) 403 open_pool) s
          λ r. guard-Kept (r.requester_id == u.id) 403 open_pool s (
            guard-Kept config.shared_pool_enabled 409 fund s
              (fund_now-Kept new_id rid u.id x ts s)))

abbrev cancel_now : RequestId → UserId → Time → Db → Answer (Unit {0}) × Db
cancel_now rid u ts s = answered delete_status (λ _ t. sent tt) (cancel_request rid u ts s)

cancel_now-Kept :
    (rid : RequestId) (u : UserId) (ts : Time) (s : Db) → Kept s (cancel_now rid u ts s)
unfolding cancel_request
cancel_now-Kept rid u ts s =
    answered-Kept delete_status (λ _ t. sent tt) (cancel_request rid u ts) s (transaction-Atomic _)
      (λ _ t. tt)

delete_request-Kept :
    (user : Option Viewer) (rid : RequestId) (ts : Time) (s : Db)
    → Kept s (delete_request user rid ts s)
unfolding delete_request
delete_request-Kept user rid ts s = with_user-Kept user _ s λ u.
    with_request-Kept rid (λ r. guard (r.requester_id == u.id) 403 (cancel_now rid u.id ts)) s
      λ r.
        guard-Kept (r.requester_id == u.id) 403 (cancel_now rid u.id ts) s
          (cancel_now-Kept rid u.id ts s)

-- A call of a handler that does not look for the active cycle.
pub data MarketCall : Type 0 where
  call_donate : GrantId → (ℕ → GrantId) → RequestId → Donate → MarketCall
  call_pool_fund : (ℕ → GrantId) → RequestId → ℤ → MarketCall
  call_delete : RequestId → MarketCall

abbrev status_after : {A : Type 0} → Answer A × Db → Option ℕ × Db
status_after (sent _, t) = (none, t)
status_after (refused n, t) = (some n, t)

module _ (names : Names) (config : MarketConfig) (cal : Calendar) (pct : ℕ) where
  -- The status of the refusal, if the call is refused, and the tables after it.
  unfoldable pub call : MarketCall → Option Viewer → Time → Db → Option ℕ × Db
  call (call_donate id new_id rid b) user ts s =
      status_after (donate names config cal pct id new_id user rid b ts s)
  call (call_pool_fund new_id rid x) user ts s =
      status_after (pool_fund names config cal pct new_id user rid x ts s)
  call (call_delete rid) user ts s = status_after (delete_request user rid ts s)

  abbrev below_500 : Option ℕ → Bool
  below_500 none = false
  below_500 (some n) = ltb n 500

  status-Kept :
      {A : Type 0} (s t : Db) (n : ℕ) (a : Answer A) (u : Db)
      → Kept s (a, u)
      → status_after (a, u) ≡ (some n, t)
      → ltb n 500 ≡ true
      → t ≡ s
  status-Kept s t n (sent a) u k e below = absurd (cc)
  status-Kept s t n (refused m) u k e below =
      sym (ap (λ p. p.1) e)
      ∙ k (subst (λ (o : Option ℕ). below_500 o ≡ true) (sym (ap (λ p. p.0) e)) below)

  -- A chip-in, a draw on the pool or a deletion of a request, by any user or none and with any body,
  -- that is answered with an error status below 500 leaves the tables as they were.
  pub call-refused :
      (c : MarketCall) (user : Option Viewer) (ts : Time) (s t : Db) (n : ℕ)
      → call c user ts s ≡ (some n, t)
      → ltb n 500 ≡ true
      → t ≡ s
  unfolding call
  call-refused (call_donate id new_id rid b) user ts s t n =
      let run = donate names config cal pct id new_id user rid b ts s in
      status-Kept s t n run.0 run.1 (donate-Kept names config cal pct id new_id user rid b ts s)
  call-refused (call_pool_fund new_id rid x) user ts s t n =
      let run = pool_fund names config cal pct new_id user rid x ts s in
      status-Kept s t n run.0 run.1 (pool_fund-Kept names config cal pct new_id user rid x ts s)
  call-refused (call_delete rid) user ts s t n =
      let run = delete_request user rid ts s in
      status-Kept s t n run.0 run.1 (delete_request-Kept user rid ts s)
