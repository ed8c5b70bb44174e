-- ===== src/Engine/Pool.antt =====
-- ctc/accounting/engine.py: fund_request_from_pool, fund_request_from_received and
-- return_received_to_pool. `new_id` gives the uuids of the rows that a call inserts, one for each
-- turn of its loops.
use ctc.Common.{
  ℕ, suc, ◌+◌, Bool, true, false, not, Option, none, some, List, [], ◌∷◌, ◌++◌, ℤ, pos, ◌-ℤ◌, leb_ℤ,
  min_ℤ, ◌==◌, is_none, sort_by, length, if◌then◌else◌,
}
use ctc.Domain.{
  UserId, CycleId, RequestId, GrantId, ContributionId, Time, pooled, Request, Grant,
  PoolContribution, is_closed,
}
use ctc.Store.{
  Action, Error, invalid_consumption, insufficient_credit, request_closed, pure, gets, or_raise,
  raise_if, transaction, ◌>>=◌, ◌>>◌, get_request, add_grant, add_pool_contribution,
  grants_for_recipient,
}
use ctc.Store.Query.{request_funded, contributions_with_capacity}
use ctc.Engine.{pool_available, givers_with_pool_capacity, grant_remaining, re_donatable_remaining}
use ctc.Engine.Market.{status_at}
pub mod Fill
pub mod Funding

-- `if left <= 0: break`, after the grant `g` was booked.
abbrev pub stop_or_go : Grant → ℤ → Action (List Grant × ℤ) → Action (List Grant × ℤ)
stop_or_go g left rest =
    if leb_ℤ left (pos 0) then pure (g ∷ [], left) else do more ← rest; pure (g ∷ more.0, more.1)

-- The two loops of `fund_request_from_pool`: take from each offer what is left to take, and stop when
-- nothing is. Returns the grants booked and what is left.
unfoldable pub fill :
    {A : Type 0} → (ℕ → A → ℤ → Grant) → ℕ → ℤ → List (A × ℤ) → Action (List Grant × ℤ)
fill book n left [] = pure ([], left)
fill book n left ((a, room) ∷ offers) =
    let take = min_ℤ left room in
    let skip = fill book (suc n) left offers in
    let rest = fill book (suc n) (left -ℤ take) offers in
    if leb_ℤ take (pos 0)
    then skip
    else do add_grant (book n a take); stop_or_go (book n a take) (left -ℤ take) rest

-- A draw of a contribution keeps the origin grant's donor and records the chain.
abbrev pub contribution_draw :
    (ℕ → GrantId) → RequestId → Request → Time → ℕ → PoolContribution → ℤ → Grant
contribution_draw new_id request_id r now n pc take = record {
  id = new_id n;
  cycle_id = r.cycle_id;
  request_id = request_id;
  donor_id = pc.donor_id;
  recipient_id = r.requester_id;
  amount = take;
  created_at = now;
  source = pooled;
  origin_grant_id = some pc.origin_grant_id;
  via_user_id = none;
  contribution_id = some pc.id;
}

abbrev pub pledge_draw : (ℕ → GrantId) → RequestId → Request → Time → ℕ → UserId → ℤ → Grant
pledge_draw new_id request_id r now n giver_id take = record {
  id = new_id n;
  cycle_id = r.cycle_id;
  request_id = request_id;
  donor_id = giver_id;
  recipient_id = r.requester_id;
  amount = take;
  created_at = now;
  source = pooled;
  origin_grant_id = none;
  via_user_id = none;
  contribution_id = none;
}

-- `sorted(..., key=lambda t: t[1], reverse=True)`
abbrev pub larger_first : UserId × ℤ → UserId × ℤ → Bool
larger_first a b = leb_ℤ b.1 a.1

-- The fill itself, past the checks: contributions first, then the pledges as they then stand.
unfoldable pub draw_pool : (ℕ → GrantId) → RequestId → Request → Time → ℤ → Action (List Grant)
draw_pool new_id request_id r now wanted = do
  recycled ← gets (λ s. contributions_with_capacity s r.cycle_id)
  first ← fill (contribution_draw new_id request_id r now) 0 wanted recycled
  givers ← gets (λ s. sort_by larger_first (givers_with_pool_capacity s r.cycle_id))
  second ← fill (pledge_draw new_id request_id r now) (length recycled) first.1 givers
  pure (first.0 ++ second.0)

unfoldable pub fund_request_from_pool :
    (ℕ → GrantId) → RequestId → UserId → ℤ → Time → Action (List Grant)
unfolding transaction
fund_request_from_pool new_id request_id actor_id amount now = transaction do
  r ← or_raise (← gets (λ s. get_request s request_id)) invalid_consumption
  raise_if (not (actor_id == r.requester_id)) invalid_consumption
  funded ← gets (λ s. request_funded s request_id)
  raise_if (is_closed (status_at r funded now)) (request_closed (status_at r funded now))
  available ← gets (λ s. pool_available s r.cycle_id)
  let wanted = min_ℤ (min_ℤ amount (r.amount_needed -ℤ funded)) available
  raise_if (leb_ℤ wanted (pos 0)) insufficient_credit
  draw_pool new_id request_id r now wanted

-- A re-donation keeps the donor and the source of the grant that it comes out of.
abbrev pub re_donation : (ℕ → GrantId) → RequestId → Request → UserId → Time → ℕ → Grant → ℤ → Grant
re_donation new_id request_id r actor_id now n g take = record {
  id = new_id n;
  cycle_id = r.cycle_id;
  request_id = request_id;
  donor_id = g.donor_id;
  recipient_id = r.requester_id;
  amount = take;
  created_at = now;
  source = g.source;
  origin_grant_id = some g.id;
  via_user_id = some actor_id;
  contribution_id = none;
}

-- The loop of `fund_request_from_received`.
unfoldable pub re_donate :
    (ℕ → GrantId) → RequestId → Request → UserId → Time → ℕ → ℤ → List Grant → Action (List Grant)
re_donate new_id request_id r actor_id now n left [] = pure []
re_donate new_id request_id r actor_id now n left (g ∷ received) =
    let skip = re_donate new_id request_id r actor_id now (suc n) left received in
    let go_on = λ (l : ℤ). re_donate new_id request_id r actor_id now (suc n) l received in
    if not (is_none g.origin_grant_id)
    then skip
    else if g.donor_id == r.requester_id
    then skip
    else do
      room ← gets (λ s. grant_remaining s r.cycle_id g.id)
      if leb_ℤ (min_ℤ left room) (pos 0) then skip else do
        let child = re_donation new_id request_id r actor_id now n g (min_ℤ left room)
        add_grant child
        if leb_ℤ (left -ℤ min_ℤ left room) (pos 0)
            then pure (child ∷ [])
            else do more ← go_on (left -ℤ min_ℤ left room); pure (child ∷ more)

abbrev pub nonempty {ℓ} : {A : Type ℓ} → List A → Bool
nonempty [] = false
nonempty (_ ∷ _) = true

-- The re-donation itself, past the checks.
unfoldable pub draw_received :
    (ℕ → GrantId) → RequestId → Request → UserId → Time → ℤ → Action (List Grant)
draw_received new_id request_id r actor_id now wanted = do
  received ← gets (λ s. grants_for_recipient s r.cycle_id actor_id)
  grants ← re_donate new_id request_id r actor_id now 0 wanted received
  raise_if (not (nonempty grants)) insufficient_credit
  pure grants

unfoldable pub fund_request_from_received :
    (ℕ → GrantId) → RequestId → UserId → ℤ → Time → Action (List Grant)
unfolding transaction
fund_request_from_received new_id request_id actor_id amount now = transaction do
  r ← or_raise (← gets (λ s. get_request s request_id)) invalid_consumption
  raise_if (actor_id == r.requester_id) invalid_consumption
  funded ← gets (λ s. request_funded s request_id)
  raise_if (is_closed (status_at r funded now)) (request_closed (status_at r funded now))
  room ← gets (λ s. re_donatable_remaining s r.cycle_id actor_id)
  let wanted = min_ℤ (min_ℤ amount (r.amount_needed -ℤ funded)) room
  raise_if (leb_ℤ wanted (pos 0)) insufficient_credit
  draw_received new_id request_id r actor_id now wanted

abbrev pub contribution_of :
    (ℕ → ContributionId) → CycleId → UserId → Time → ℕ → Grant → ℤ → PoolContribution
contribution_of new_id cycle_id actor_id now n g take = record {
  id = new_id n;
  cycle_id = cycle_id;
  contributor_id = actor_id;
  origin_grant_id = g.id;
  donor_id = g.donor_id;
  amount = take;
  created_at = now;
}

-- The loop of `return_received_to_pool`.
unfoldable pub give_back :
    (ℕ → ContributionId)
    → CycleId
    → UserId
    → Time
    → ℕ
    → ℤ
    → List Grant
    → Action (List PoolContribution)
give_back new_id cycle_id actor_id now n left [] = pure []
give_back new_id cycle_id actor_id now n left (g ∷ received) =
    let skip = give_back new_id cycle_id actor_id now (suc n) left received in
    let go_on = λ (l : ℤ). give_back new_id cycle_id actor_id now (suc n) l received in
    if not (is_none g.origin_grant_id) then skip else do
      room ← gets (λ s. grant_remaining s cycle_id g.id)
      if leb_ℤ (min_ℤ left room) (pos 0) then skip else do
        let pc = contribution_of new_id cycle_id actor_id now n g (min_ℤ left room)
        add_pool_contribution pc
        if leb_ℤ (left -ℤ min_ℤ left room) (pos 0)
            then pure (pc ∷ [])
            else do more ← go_on (left -ℤ min_ℤ left room); pure (pc ∷ more)

unfoldable pub return_received_to_pool :
    (ℕ → ContributionId) → UserId → CycleId → ℤ → Time → Action (List PoolContribution)
unfolding transaction
return_received_to_pool new_id actor_id cycle_id amount now = do
  raise_if (leb_ℤ amount (pos 0)) invalid_consumption
  transaction do
    room ← gets (λ s. re_donatable_remaining s cycle_id actor_id)
    raise_if (leb_ℤ (min_ℤ amount room) (pos 0)) insufficient_credit
    received ← gets (λ s. grants_for_recipient s cycle_id actor_id)
    give_back new_id cycle_id actor_id now 0 (min_ℤ amount room) received
