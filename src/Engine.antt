-- ===== src/Engine.antt =====
-- ctc/accounting/engine.py: the balances that AccountingEngine derives from the tables. Its methods
-- that write are in the child modules, and the theorems about a method in the modules below its own.
use ctc.Common.{
  Bool, true, false, not, Option, none, some, List, [], ◌∷◌, ℤ, pos, ◌+ℤ◌, ◌-ℤ◌, ltb_ℤ, max_ℤ,
  is_none, filter, sum_by, contains, if◌then◌else◌,
}
use ctc.Domain.{
  UserId, CycleId, RequestId, GrantId, Time, RequestStatus, GiverCycle, Request, Grant,
  derive_status,
}
use ctc.Store.{
  Db, HealthStatus, valid, GiverPat, Action, invalid_consumption, pure, gets, or_raise, ◌>>=◌,
  get_giver_cycle, all_giver_cycles, get_grant, get_request, grants_for_recipient,
}
use ctc.Store.Query.{
  own_consumed, bypass_consumed, granted_out, pool_consumed_from, pool_granted_out, grant_consumed,
  transferred_out, contributed_out, contributions_with_capacity, request_funded,
}
pub mod Pledge
pub mod Market
pub mod Pool
pub mod Consume
pub mod Reconcile
pub mod Cycle
pub mod Valid

abbrev balance_of : Option GiverCycle → ℤ → ℤ → ℤ → ℤ
balance_of none own bypass granted = pos 0
balance_of (some gc) own bypass granted = gc.quota -ℤ gc.pledge -ℤ own -ℤ bypass -ℤ granted

unfoldable pub personal_remaining : Db → CycleId → UserId → ℤ
personal_remaining s cycle_id giver_id =
    balance_of (get_giver_cycle s cycle_id giver_id) (own_consumed s cycle_id giver_id)
      (bypass_consumed s cycle_id giver_id) (granted_out s cycle_id giver_id)

unfoldable pub pledge_used : Db → CycleId → UserId → ℤ
pledge_used s cycle_id giver_id =
    pool_consumed_from s cycle_id giver_id +ℤ pool_granted_out s cycle_id giver_id

abbrev undrawn : Option GiverCycle → ℤ → ℤ
undrawn none spent = pos 0
undrawn (some gc) spent = max_ℤ (pos 0) (gc.pledge -ℤ spent)

unfoldable pub pledge_remaining : Db → CycleId → UserId → ℤ
pledge_remaining s cycle_id giver_id =
    undrawn (get_giver_cycle s cycle_id giver_id) (pledge_used s cycle_id giver_id)

-- `DEAD_VERDICTS` of ctc/auth/pat_health.py; NULL is unknown, which is not dead.
unfoldable pub is_dead_verdict : Option HealthStatus → Bool
is_dead_verdict none = false
is_dead_verdict (some valid) = false
is_dead_verdict (some _) = true

-- `SELECT user_id FROM giver_pats WHERE health_status IN (...)`
unfoldable pub dead_in : List GiverPat → List UserId
dead_in [] = []
dead_in (p ∷ ps) = if is_dead_verdict p.health_status then p.user_id ∷ dead_in ps else dead_in ps

unfoldable pub dead_pat_givers : Db → List UserId
dead_pat_givers s = dead_in s.giver_pats

unfoldable pub live_giver_cycles : Db → CycleId → List GiverCycle
live_giver_cycles s cycle_id =
    filter (λ gc. not (contains (dead_pat_givers s) gc.giver_id)) (all_giver_cycles s cycle_id)

unfoldable pub pool_available : Db → CycleId → ℤ
pool_available s cycle_id =
    sum_by (λ gc. pledge_remaining s cycle_id gc.giver_id) (live_giver_cycles s cycle_id)
    +ℤ sum_by (λ e. e.1) (contributions_with_capacity s cycle_id)

abbrev is_cancelled : Option Request → Bool
is_cancelled none = false
is_cancelled (some r) = not (is_none r.cancelled_at)

-- What is left of a grant that is there.
unfoldable pub left_of_grant : Db → CycleId → GrantId → Grant → ℤ
left_of_grant s cycle_id grant_id g =
    if is_cancelled (get_request s g.request_id)
    then pos 0
    else g.amount
      -ℤ grant_consumed s cycle_id grant_id
      -ℤ transferred_out s grant_id
      -ℤ contributed_out s grant_id

unfoldable pub grant_remaining : Db → CycleId → GrantId → ℤ
grant_remaining s cycle_id grant_id = elim (get_grant s grant_id) [
  | none ↦ pos 0
  | some g ↦ left_of_grant s cycle_id grant_id g
]

unfoldable pub re_donatable_remaining : Db → CycleId → UserId → ℤ
re_donatable_remaining s cycle_id user_id =
    sum_by (λ g. grant_remaining s cycle_id g.id)
      (filter (λ g. is_none g.origin_grant_id) (grants_for_recipient s cycle_id user_id))

-- The loop of `givers_with_pool_capacity`.
unfoldable pub capacities : Db → CycleId → List GiverCycle → List (UserId × ℤ)
capacities s cycle_id [] = []
capacities s cycle_id (gc ∷ gcs) =
    if ltb_ℤ (pos 0) (pledge_remaining s cycle_id gc.giver_id)
    then (gc.giver_id, pledge_remaining s cycle_id gc.giver_id) ∷ capacities s cycle_id gcs
    else capacities s cycle_id gcs

unfoldable pub givers_with_pool_capacity : Db → CycleId → List (UserId × ℤ)
givers_with_pool_capacity s cycle_id = capacities s cycle_id (live_giver_cycles s cycle_id)

unfoldable pub active_grants : Db → CycleId → UserId → List Grant
active_grants s cycle_id consumer_id =
    filter (λ g. ltb_ℤ (pos 0) (grant_remaining s cycle_id g.id))
      (grants_for_recipient s cycle_id consumer_id)

unfoldable pub request_status : RequestId → Time → Action RequestStatus
request_status request_id now = do
  r ← or_raise (← gets (λ s. get_request s request_id)) invalid_consumption
  funded ← gets (λ s. request_funded s request_id)
  pure (derive_status funded r.amount_needed r.expires_at now r.cancelled_at)
