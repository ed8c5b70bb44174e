-- ===== src/Engine/Valid/Pool.antt =====
-- The methods that move credit through the pool leave valid tables.
use ctc.Common.{ℕ, ◌≡◌, ◌⊎◌, inl, inr, subst, none, some, Option-cases, List, ℤ, ◌-ℤ◌, min_ℤ, arith}
use ctc.Domain.{
  UserId, CycleId, RequestId, GrantId, ContributionId, Time, Request, Grant, PoolContribution,
}
use ctc.Store.{Db, ok, get_request, grants_for_recipient}
use ctc.Store.Valid.{IsValid}
use ctc.Store.Query.{request_funded}
use ctc.Engine.{pool_available, re_donatable_remaining}
use ctc.Engine.Pool.{
  draw_pool, fund_request_from_pool, draw_received, fund_request_from_received, give_back,
  return_received_to_pool,
}
use ctc.Engine.Valid.{Safe, Atomic, Atomic-Safe, transaction-Atomic}
use ctc.Engine.Valid.Loops.{draw_pool-Safe, draw_received-Safe, give_back-Safe, received-AllFound}

module _ (new_id : ℕ → GrantId) (rid : RequestId) (actor : UserId) (amount : ℤ) (now : Time) where
  -- Past its checks, a draw on the pool is the fill.
  from_pool_passes :
      (s : Db) (r : Request) {gs : List Grant} {s' : Db}
      → get_request s rid ≡ some r
      → fund_request_from_pool new_id rid actor amount now s ≡ (ok gs, s')
      → (wanted : ℤ) × (draw_pool new_id rid r now wanted s ≡ (ok gs, s'))
  unfolding fund_request_from_pool
  from_pool_passes s r e h = (
    min_ℤ (min_ℤ amount (r.amount_needed -ℤ request_funded s rid)) (pool_available s r.cycle_id),
    ground arith,
  )

  from_received_passes :
      (s : Db) (r : Request) {gs : List Grant} {s' : Db}
      → get_request s rid ≡ some r
      → fund_request_from_received new_id rid actor amount now s ≡ (ok gs, s')
      → (wanted : ℤ) × (draw_received new_id rid r actor now wanted s ≡ (ok gs, s'))
  unfolding fund_request_from_received
  from_received_passes s r e h = (
    min_ℤ (min_ℤ amount (r.amount_needed -ℤ request_funded s rid))
        (re_donatable_remaining s r.cycle_id actor),
    ground arith,
  )

  no_request :
      (s : Db) {gs : List Grant} {s' : Db}
      → get_request s rid ≡ none
      → (fund_request_from_pool new_id rid actor amount now s ≡ (ok gs, s'))
        ⊎ (fund_request_from_received new_id rid actor amount now s ≡ (ok gs, s'))
      → ⊥
  unfolding fund_request_from_pool fund_request_from_received
  no_request s e (inl h) = ground (arith, e, h)
  no_request s e (inr h) = ground (arith, e, h)

  pub fund_request_from_pool-Safe : Safe (fund_request_from_pool new_id rid actor amount now)
  unfolding fund_request_from_pool
  fund_request_from_pool-Safe =
      Atomic-Safe (fund_request_from_pool new_id rid actor amount now) (transaction-Atomic _)
        (λ s gs s' v h. elim (Option-cases (get_request s rid)) [
          | inl absent ↦ absurd (no_request s absent (inl h))
          | inr (r, e) ↦
              let (wanted, ran) = from_pool_passes s r e h in
              subst IsValid (λ i. (ran i).1) (draw_pool-Safe new_id rid r now wanted s v)
        ])

  pub fund_request_from_received-Safe :
      Safe (fund_request_from_received new_id rid actor amount now)
  unfolding fund_request_from_received
  fund_request_from_received-Safe =
      Atomic-Safe (fund_request_from_received new_id rid actor amount now) (transaction-Atomic _)
        (λ s gs s' v h. elim (Option-cases (get_request s rid)) [
          | inl absent ↦ absurd (no_request s absent (inr h))
          | inr (r, e) ↦
              let (wanted, ran) = from_received_passes s r e h in
              subst IsValid (λ i. (ran i).1) (draw_received-Safe new_id rid r now actor wanted s v)
        ])

module _ (new_id : ℕ → ContributionId) (actor : UserId) (c : CycleId) (amount : ℤ)
    (now : Time) where
  return_passes :
      (s : Db) {pcs : List PoolContribution} {s' : Db}
      → return_received_to_pool new_id actor c amount now s ≡ (ok pcs, s')
      → (left : ℤ) × (give_back new_id c actor now 0 left (grants_for_recipient s c actor) s
          ≡ (ok pcs, s'))
  unfolding return_received_to_pool
  return_passes s h = (min_ℤ amount (re_donatable_remaining s c actor), ground arith)

  return-Atomic : Atomic (return_received_to_pool new_id actor c amount now)
  unfolding return_received_to_pool
  return-Atomic s e h = ground (arith, h)

  pub return_received_to_pool-Safe : Safe (return_received_to_pool new_id actor c amount now)
  return_received_to_pool-Safe =
      Atomic-Safe (return_received_to_pool new_id actor c amount now) return-Atomic (λ s pcs s' v h.
        let (left, ran) = return_passes s h in
        subst IsValid (λ i. (ran i).1)
          (give_back-Safe new_id c actor now 0 left (grants_for_recipient s c actor) s v
            (received-AllFound s c actor v)))
