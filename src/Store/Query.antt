-- ===== src/Store/Query.antt =====
-- ctc/store/accounting_store.py: the sums from which every balance is derived.
use ctc.Common.{
  ℕ, Bool, not, ◌&&◌, ◌||◌, Option, none, some, List, [], ◌∷◌, ℤ, pos, ◌+ℤ◌, ◌-ℤ◌, min_ℤ, max_ℤ,
  ltb, leb, ◌==◌, equals, is_none, sum_where, filter, sort_by, if◌then◌else◌,
}
use ctc.Domain.{
  UserId, CycleId, RequestId, GrantId, own, pool, grant, bypass, GrantSource, personal, pooled,
  Request, Grant, PoolContribution, same_bucket, same_source,
}
use ctc.Store.{Db, get_request, get_grant}

unfoldable pub own_consumed : Db → CycleId → UserId → ℤ
own_consumed s cycle_id giver_id =
    sum_where (λ e. e.cycle_id == cycle_id && same_bucket e.bucket own && e.consumer_id == giver_id)
      (λ e. e.credits) s.consumption_events

unfoldable pub bypass_consumed : Db → CycleId → UserId → ℤ
bypass_consumed s cycle_id giver_id =
    sum_where
      (λ e. e.cycle_id == cycle_id && same_bucket e.bucket bypass && e.source_giver_id == giver_id)
      (λ e. e.credits) s.consumption_events

unfoldable pub pool_consumed_from : Db → CycleId → UserId → ℤ
pool_consumed_from s cycle_id giver_id =
    sum_where
      (λ e. e.cycle_id == cycle_id && same_bucket e.bucket pool && e.source_giver_id == giver_id)
      (λ e. e.credits) s.consumption_events

unfoldable pub pool_consumed_by : Db → CycleId → UserId → ℤ
pool_consumed_by s cycle_id consumer_id =
    sum_where
      (λ e. e.cycle_id == cycle_id && same_bucket e.bucket pool && e.consumer_id == consumer_id)
      (λ e. e.credits) s.consumption_events

unfoldable pub grant_consumed : Db → CycleId → GrantId → ℤ
grant_consumed s cycle_id grant_id =
    sum_where
      (λ e. e.cycle_id == cycle_id && same_bucket e.bucket grant && equals e.grant_id grant_id)
      (λ e. e.credits) s.consumption_events

unfoldable pub grants_consumed_from : Db → CycleId → UserId → ℤ
grants_consumed_from s cycle_id giver_id =
    sum_where
      (λ e. e.cycle_id == cycle_id && same_bucket e.bucket grant && e.source_giver_id == giver_id)
      (λ e. e.credits) s.consumption_events

unfoldable pub consumed_total : Db → CycleId → UserId → ℤ
consumed_total s cycle_id user_id =
    sum_where (λ e. e.cycle_id == cycle_id && e.consumer_id == user_id) (λ e. e.credits)
      s.consumption_events

unfoldable pub donated_live : Db → CycleId → UserId → ℤ
donated_live s cycle_id giver_id =
    sum_where
      (λ e.
        e.cycle_id == cycle_id && e.source_giver_id == giver_id && not (e.consumer_id == giver_id))
      (λ e. e.credits) s.consumption_events

unfoldable pub consumed_from_others : Db → CycleId → UserId → ℤ
consumed_from_others s cycle_id user_id =
    sum_where
      (λ e.
        e.cycle_id == cycle_id && e.consumer_id == user_id && not (e.source_giver_id == user_id))
      (λ e. e.credits) s.consumption_events

-- `_USED_SUBQ`: what was burned out of a grant, over all cycles.
unfoldable pub used : Db → GrantId → ℤ
used s grant_id =
    sum_where (λ e. same_bucket e.bucket grant && equals e.grant_id grant_id) (λ e. e.credits)
      s.consumption_events

-- `CASE WHEN cancelled_at IS NULL THEN amount ELSE MIN(amount, spent) END`, on the row that the
-- join with `requests` gives; without one the grant drops out of the sum.
abbrev pub charge : Option Request → ℤ → ℤ → ℤ
charge none amount spent = pos 0
charge (some r) amount spent = elim r.cancelled_at [ none ↦ amount | some _ ↦ min_ℤ amount spent ]

-- `_LEAF_CHARGE`
unfoldable pub leaf_charge : Db → Grant → ℤ
leaf_charge s c = charge (get_request s c.request_id) c.amount (used s c.id)

-- Subquery `t` of `_granted_out_by_source`: what moved onward out of a grant.
unfoldable pub moved : Db → GrantId → ℤ
moved s grant_id = sum_where (λ c. equals c.origin_grant_id grant_id) (leaf_charge s) s.grants

-- What a grant charges its donor.
unfoldable pub donor_charge : Db → Grant → ℤ
donor_charge s g = charge (get_request s g.request_id) g.amount (used s g.id +ℤ moved s g.id)

abbrev pub is_funded_by : CycleId → UserId → GrantSource → Grant → Bool
is_funded_by cycle_id donor_id source g =
    g.cycle_id == cycle_id
    && g.donor_id == donor_id
    && same_source g.source source
    && is_none g.origin_grant_id

-- `_granted_out_by_source`
unfoldable pub granted_out_by_source : Db → CycleId → UserId → GrantSource → ℤ
granted_out_by_source s cycle_id donor_id source =
    sum_where (is_funded_by cycle_id donor_id source) (donor_charge s) s.grants

unfoldable pub granted_out : Db → CycleId → UserId → ℤ
granted_out s cycle_id donor_id = granted_out_by_source s cycle_id donor_id personal

unfoldable pub pool_granted_out : Db → CycleId → UserId → ℤ
pool_granted_out s cycle_id giver_id = granted_out_by_source s cycle_id giver_id pooled

unfoldable pub transferred_out : Db → GrantId → ℤ
transferred_out s grant_id =
    sum_where (λ c. equals c.origin_grant_id grant_id && is_none c.contribution_id) (leaf_charge s)
      s.grants

unfoldable pub contribution_drawn_for_origin : Db → GrantId → ℤ
contribution_drawn_for_origin s grant_id =
    sum_where (λ c. equals c.origin_grant_id grant_id && not (is_none c.contribution_id))
      (leaf_charge s) s.grants

unfoldable pub contributed_out : Db → GrantId → ℤ
contributed_out s grant_id =
    sum_where (λ pc. pc.origin_grant_id == grant_id) (λ pc. pc.amount) s.pool_contributions

-- Subquery `d` of `contributions_with_capacity`.
unfoldable pub drawn : Db → ℕ → ℤ
drawn s contribution_id =
    sum_where (λ c. equals c.contribution_id contribution_id) (leaf_charge s) s.grants

-- The request of a contribution's origin grant, by the two joins.
unfoldable pub origin_request : Db → PoolContribution → Option Request
origin_request s pc = elim (get_grant s pc.origin_grant_id) [
  | none ↦ none
  | some og ↦ get_request s og.request_id
]

abbrev pub capacity_of : Option Request → ℤ → ℤ → ℤ
capacity_of none amount spent = pos 0
capacity_of (some ro) amount spent = elim ro.cancelled_at [
  | none ↦ max_ℤ (pos 0) (amount -ℤ spent)
  | some _ ↦ pos 0
]

unfoldable pub capacity : Db → PoolContribution → ℤ
capacity s pc = capacity_of (origin_request s pc) pc.amount (drawn s pc.id)

-- `ORDER BY created_at, id`
abbrev older : PoolContribution × ℤ → PoolContribution × ℤ → Bool
older (a, _) (b, _) = ltb a.created_at b.created_at || a.created_at == b.created_at && leb a.id b.id

-- The rows that the joins keep, each with its capacity.
unfoldable pub with_capacity : Db → CycleId → List PoolContribution → List (PoolContribution × ℤ)
with_capacity s cycle_id [] = []
with_capacity s cycle_id (pc ∷ pcs) =
    if pc.cycle_id == cycle_id && not (is_none (origin_request s pc))
    then (pc, capacity s pc) ∷ with_capacity s cycle_id pcs
    else with_capacity s cycle_id pcs

unfoldable pub contributions_with_capacity : Db → CycleId → List (PoolContribution × ℤ)
contributions_with_capacity s cycle_id =
    sort_by older (with_capacity s cycle_id s.pool_contributions)

unfoldable pub request_funded : Db → RequestId → ℤ
request_funded s request_id = sum_where (λ g. g.request_id == request_id) (λ g. g.amount) s.grants

unfoldable pub request_pool_funded : Db → RequestId → ℤ
request_pool_funded s request_id =
    sum_where (λ g. g.request_id == request_id && same_source g.source pooled) (λ g. g.amount)
      s.grants

abbrev newer : Request → Request → Bool
newer a b = ltb b.created_at a.created_at || a.created_at == b.created_at && leb b.id a.id

-- `WHERE cycle_id=? AND cancelled_at IS NULL ORDER BY created_at DESC, id DESC`
unfoldable pub list_requests : Db → CycleId → List Request
list_requests s cycle_id =
    sort_by newer (filter (λ r. r.cycle_id == cycle_id && is_none r.cancelled_at) s.requests)
