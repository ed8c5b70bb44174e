-- ===== src/Store/Display.antt =====
-- ctc/store/accounting_store.py: the sums and counts that are only displayed.
use ctc.Common.{
  ℕ, suc, Bool, false, not, ◌&&◌, ◌||◌, Option, none, some, List, [], ◌∷◌, ℤ, pos, ◌==◌, equals,
  is_none, contains, filter, length, map, sum_where, if◌then◌else◌,
}
use ctc.Domain.{
  UserId, CycleId, RequestId, grant, GrantSource, personal, pooled, Request, Grant,
  PoolContribution, Event, same_bucket, same_source,
}
use ctc.Store.{Db, get_grant}
use ctc.Store.Query.{leaf_charge, drawn, origin_request}

-- `WHERE c.cycle_id=? AND c.via_user_id=? AND c.contribution_id IS NULL`
unfoldable pub re_donated_by : Db → CycleId → UserId → ℤ
re_donated_by s cycle_id user_id =
    sum_where
      (λ c. c.cycle_id == cycle_id && equals c.via_user_id user_id && is_none c.contribution_id)
      (leaf_charge s) s.grants

-- The whole contribution while its origin request is live, what the pool drew of it after; without a
-- request the row drops out of the sum.
abbrev pub returned_charge : Option Request → ℤ → ℤ → ℤ
returned_charge none amount spent = pos 0
returned_charge (some ro) amount spent = if is_none ro.cancelled_at then amount else spent

unfoldable pub returned_to_pool_by : Db → CycleId → UserId → ℤ
returned_to_pool_by s cycle_id user_id =
    sum_where (λ pc. pc.cycle_id == cycle_id && pc.contributor_id == user_id)
      (λ (pc : PoolContribution). returned_charge (origin_request s pc) pc.amount (drawn s pc.id))
      s.pool_contributions

-- `COALESCE(via_user_id, donor_id)`
abbrev pub actor_of : Grant → UserId
actor_of g = elim g.via_user_id [ none ↦ g.donor_id | some u ↦ u ]

unfoldable pub grants_count_by : Db → CycleId → UserId → ℕ
grants_count_by s cycle_id donor_id =
    length (filter (λ g. g.cycle_id == cycle_id && actor_of g == donor_id) s.grants)

-- `JOIN grants g ON g.id = ce.grant_id`
abbrev pub grant_of : Db → Event → Option Grant
grant_of s e = elim e.grant_id [ none ↦ none | some i ↦ get_grant s i ]

abbrev pub is_of_source : GrantSource → Option Grant → Bool
is_of_source source none = false
is_of_source source (some g) = same_source g.source source

abbrev pub draws_from : Db → CycleId → UserId → GrantSource → Event → Bool
draws_from s cycle_id giver_id source e =
    e.cycle_id == cycle_id
    && same_bucket e.bucket grant
    && e.source_giver_id == giver_id
    && is_of_source source (grant_of s e)

unfoldable pub personal_grants_consumed_from : Db → CycleId → UserId → ℤ
personal_grants_consumed_from s cycle_id giver_id =
    sum_where (draws_from s cycle_id giver_id personal) (λ e. e.credits) s.consumption_events

unfoldable pub pool_grants_consumed_from : Db → CycleId → UserId → ℤ
pool_grants_consumed_from s cycle_id giver_id =
    sum_where (draws_from s cycle_id giver_id pooled) (λ e. e.credits) s.consumption_events

abbrev pub is_for : RequestId → Option Grant → Bool
is_for request_id none = false
is_for request_id (some g) = g.request_id == request_id

unfoldable pub request_consumed : Db → RequestId → ℤ
request_consumed s request_id =
    sum_where (λ e. same_bucket e.bucket grant && is_for request_id (grant_of s e)) (λ e. e.credits)
      s.consumption_events

-- `COUNT(DISTINCT ...)`
unfoldable pub count_distinct : List ℕ → ℕ
count_distinct [] = 0
count_distinct (k ∷ ks) = let n = count_distinct ks in if contains ks k then n else suc n

unfoldable pub request_donor_count : Db → RequestId → ℕ
request_donor_count s request_id = count_distinct (
    map actor_of (
      filter
        (λ g.
          g.request_id == request_id
          && (same_source g.source personal || not (is_none g.via_user_id)))
        s.grants))
