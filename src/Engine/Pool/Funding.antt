-- ===== src/Engine/Pool/Funding.antt =====
-- What a request is funded with by a draw on the pool.
use ctc.Common.{
  ℕ, ◌≡◌, refl, inl, inr, true, false, none, some, List, [], ◌∷◌, ◌++◌, ℤ, pos, ◌+ℤ◌, ◌-ℤ◌, ◌<◌,
  ◌≤ℤ◌, leb_ℤ, leb_ℤ→lt, min_ℤ, min_ℤ_lem, Option-cases, sum_by, length, sort_by, int_laws, arith,
  ==→eq, ◌==◌,
}
use ctc.Domain.{UserId, RequestId, GrantId, Time, Request, Grant, is_closed}
use ctc.Domain.Status.{is_closed-derive_status_iff}
use ctc.Store.{Db, ok, pure, ◌>>=◌, >>=-eq-ok, get_request}
use ctc.Store.Query.{request_funded, contributions_with_capacity}
use ctc.Engine.{pool_available, givers_with_pool_capacity}
use ctc.Engine.Market.{status_at}
use ctc.Engine.Pool.{
  contribution_draw, pledge_draw, larger_first, fill, draw_pool, fund_request_from_pool,
}
use ctc.Engine.Pool.Fill.{fill_adds, fill_left, returned}

abbrev pub total : List Grant → ℤ
total = sum_by (λ g. g.amount)

total-append : (xs ys : List Grant) → total (xs ++ ys) ≡ total xs +ℤ total ys
unfolding sum_by
total-append [] ys = omega int_laws
total-append (x ∷ xs) ys = rw (total-append xs ys) (omega int_laws)

-- What two fills add up to, one on what the other left.
combined :
    (rid : RequestId) (wanted : ℤ) (s s₁ s₂ : Db) (xs ys : List Grant) (l m : ℤ) {gs : List Grant}
    {s' : Db}
    → gs ≡ xs ++ ys
    → s' ≡ s₂
    → request_funded s₁ rid +ℤ l ≡ request_funded s rid +ℤ wanted
    → total xs +ℤ l ≡ wanted
    → request_funded s₂ rid +ℤ m ≡ request_funded s₁ rid +ℤ l
    → total ys +ℤ m ≡ l
    → pos 0 ≤ℤ m
    → l ≤ℤ wanted
    → m ≤ℤ l
    → (request_funded s' rid ≡ request_funded s rid +ℤ total gs)
      × (pos 0 ≤ℤ total gs)
      × (total gs ≤ℤ wanted)
combined rid wanted s s₁ s₂ xs ys l m eg es a b c d p q o =
    rw (eg, es, total-append xs ys)
      (
        grind (int_laws, a, b, c, d),
        grind (int_laws, a, b, c, d, p, q, o),
        grind (int_laws, a, b, c, d, p, q, o),
      )

module _ (new_id : ℕ → GrantId) (rid : RequestId) (actor : UserId) (amount : ℤ) (now : Time) where
  draw_pool-adds :
      (r : Request) (wanted : ℤ) (s : Db) {gs : List Grant} {s' : Db}
      → pos 0 ≤ℤ wanted
      → draw_pool new_id rid r now wanted s ≡ (ok gs, s')
      → (request_funded s' rid ≡ request_funded s rid +ℤ total gs)
        × (pos 0 ≤ℤ total gs)
        × (total gs ≤ℤ wanted)
  unfolding draw_pool
  draw_pool-adds r wanted s p h =
      let recycled = contributions_with_capacity s r.cycle_id in
      let by_contribution = contribution_draw new_id rid r now in
      let by_pledge = pledge_draw new_id rid r now in
      let pledges_then = λ (m : List Grant × ℤ) (t : Db).
        (fill by_pledge (length recycled) m.1
              (sort_by larger_first (givers_with_pool_capacity t r.cycle_id))
            >>= (λ second. pure (m.0 ++ second.0)))
          t in
      let (first, s₁, filled, rest) =
        >>=-eq-ok (fill by_contribution 0 wanted recycled) pledges_then h in
      let givers = sort_by larger_first (givers_with_pool_capacity s₁ r.cycle_id) in
      let (second, s₂, filled_too, last) =
        >>=-eq-ok (fill by_pledge (length recycled) first.1 givers)
          (λ m t. (ok (first.0 ++ m.0), t)) rest in
      let (er, es) = returned last in
      let (kept, below) = fill_left by_contribution 0 wanted recycled s p filled in
      let (kept_too, below_too) =
        fill_left by_pledge (length recycled) first.1 givers s₁ kept filled_too in
      let (sums, funds) =
        fill_adds by_contribution rid (λ _ _ _. refl) (λ _ _ _. refl) 0 wanted recycled s filled in
      let (sums_too, funds_too) =
        fill_adds by_pledge rid (λ _ _ _. refl) (λ _ _ _. refl) (length recycled) first.1 givers s₁
          filled_too in
      combined rid wanted s s₁ s₂ first.0 second.0 first.1 second.1 er es funds sums funds_too
        sums_too kept_too below below_too

  module _ (s : Db) where
    abbrev wanted_of : Request → ℤ
    wanted_of r =
        min_ℤ (min_ℤ amount (r.amount_needed -ℤ request_funded s rid)) (pool_available s r.cycle_id)

    passes :
        (r : Request) {gs : List Grant} {s' : Db}
        → get_request s rid ≡ some r
        → fund_request_from_pool new_id rid actor amount now s ≡ (ok gs, s')
        → ((actor == r.requester_id) ≡ true)
          × (is_closed (status_at r (request_funded s rid) now) ≡ false)
          × (leb_ℤ (wanted_of r) (pos 0) ≡ false)
          × (draw_pool new_id rid r now (wanted_of r) s ≡ (ok gs, s'))
    unfolding fund_request_from_pool
    passes r e h = ground arith

  -- What a draw on the pool has been checked against, and what it adds up to.
  pub record PoolFunds (s s' : Db) (gs : List Grant) (request : Request) : Type 0 where
    pub found : get_request s rid ≡ some request
    pub asked_by : actor ≡ request.requester_id
    pub live : request.cancelled_at ≡ none
    pub timely : now < request.expires_at
    pub raised : request_funded s' rid ≡ request_funded s rid +ℤ total gs
    pub needed : request_funded s' rid ≤ℤ request.amount_needed
    pub positive : pos 0 ≤ℤ total gs
    pub asked : total gs ≤ℤ amount
    pub covered : total gs ≤ℤ pool_available s request.cycle_id

  bounds :
      (a b c t f f' : ℤ)
      → f' ≡ f +ℤ t
      → t ≤ℤ min_ℤ (min_ℤ a (b -ℤ f)) c
      → (f' ≤ℤ b) × (t ≤ℤ a) × (t ≤ℤ c)
  bounds a b c t f f' e p =
      let q = min_ℤ_lem a (b -ℤ f) in
      let q' = min_ℤ_lem (min_ℤ a (b -ℤ f)) c in
      (grind (int_laws, e, p, q, q'), grind (int_laws, p, q, q'), grind (int_laws, p, q, q'))

  known :
      (s : Db) {gs : List Grant} {s' : Db}
      → fund_request_from_pool new_id rid actor amount now s ≡ (ok gs, s')
      → (r : Request) × (get_request s rid ≡ some r)
  unfolding fund_request_from_pool
  known s h = elim (Option-cases (get_request s rid)) [
    | inl absent ↦ absurd (ground arith)
    | inr found ↦ found
  ]

  -- A draw on the pool that returns is made by the requester of a request that is still open. It
  -- raises the request's funding by exactly the sum of the grants that it booked, and not beyond
  -- what is needed; the sum is at most what was asked and at most what the pool had available.
  pub fund_request_from_pool-PoolFunds :
      (s : Db) {gs : List Grant} {s' : Db}
      → fund_request_from_pool new_id rid actor amount now s ≡ (ok gs, s')
      → (r : Request) × PoolFunds s s' gs r
  fund_request_from_pool-PoolFunds s {gs} {s'} h =
      let (r, e) = known s h in
      let funded = request_funded s rid in
      let available = pool_available s r.cycle_id in
      let (by_requester, status, some_room, drawn) = passes s r e h in
      let (live, _, timely) =
        (is_closed-derive_status_iff funded r.amount_needed r.expires_at now r.cancelled_at).0
          status in
      let wanted = leb_ℤ→lt (wanted_of s r) (pos 0) some_room in
      let (adds, nonneg, within) =
        draw_pool-adds r (wanted_of s r) s (omega (arith, wanted)) drawn in
      let (needed, asked, covered) =
        bounds amount r.amount_needed available (total gs) funded (request_funded s' rid) adds
          within in
      (
        r,
        record {
          found = e;
          asked_by = ==→eq actor r.requester_id by_requester;
          live = live;
          timely = timely;
          raised = adds;
          needed = needed;
          positive = nonneg;
          asked = asked;
          covered = covered;
        },
      )
