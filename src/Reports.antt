-- ===== src/Reports.antt =====
-- ctc/accounting/reports.py: what the dashboard and the report of a cycle share. The texts that
-- Python's formatting gives are a parameter.
use ctc.Common.{
  ℕ, zero, suc, ◌+◌, String, Bool, true, false, ◌&&◌, ◌||◌, Option, none, some, List, [], ◌∷◌, ℤ,
  ◌==◌, same_text, contains, filter, if◌then◌else◌, map,
}
use ctc.Domain.{UserId, CycleId, Time, pool, grant, Bucket, Request, Event, same_bucket}
use ctc.Store.{Db}
use ctc.Standing.Leaderboard.{LeaderboardUser}
pub mod Dashboard
pub mod Cycle
pub mod History

-- How Python's formatting shows a time, an amount and an identifier, and its order on names.
pub record Format : Type 0 where
  pub date : Time → String
  pub clock : Time → String
  pub amount_text : ℤ → String
  pub short_id : UserId → String
  pub id_text : UserId → String
  pub name_le : String → String → Bool

-- A set of identifiers, each once.
unfoldable pub distinct_ids : List ℕ → List ℕ
distinct_ids [] = []
distinct_ids (k ∷ ks) = let rest = distinct_ids ks in if contains rest k then rest else k ∷ rest

-- `{u.user_id: u for u in users}.get(user_id)`, where the last user with an identifier wins.
unfoldable pub user_with : UserId → List LeaderboardUser → Option LeaderboardUser
user_with user_id [] = none
user_with user_id (u ∷ users) = elim (user_with user_id users) [
  | some found ↦ some found
  | none ↦ if u.user_id == user_id then some u else none
]

-- The user's name, or another text where the user is unknown.
abbrev pub name_or : String → Option LeaderboardUser → String
name_or text none = text
name_or text (some u) = u.name

-- `bucket IN ('pool','grant')`
abbrev pub is_shared : Bucket → Bool
is_shared b = same_bucket b pool || same_bucket b grant

unfoldable pub shared_events : Db → CycleId → List Event
shared_events s cycle_id =
    filter (λ e. e.cycle_id == cycle_id && is_shared e.bucket) s.consumption_events

-- `SELECT ... FROM requests WHERE cycle_id=?`
unfoldable pub requests_of : Db → CycleId → List Request
requests_of s cycle_id = filter (λ r. r.cycle_id == cycle_id) s.requests
