-- ===== src/Routing/Select.antt =====
-- ctc/routing/attribution.py: select_source and any_giver_pat; ctc/auth/identity.py: the registry of
-- PATs, which is an interface.
use ctc.Common.{
  ℕ, Bool, true, false, not, ◌&&◌, Option, none, some, List, [], ◌∷◌, ℤ, pos, ltb_ℤ, contains,
  is_none, if◌then◌else◌,
}
use ctc.Domain.{UserId, CycleId, GrantId, Bucket, own, pool, grant, bypass, Grant}
use ctc.Store.{Db, HealthStatus, valid}
use ctc.Engine.{personal_remaining, pledge_remaining, grant_remaining, active_grants}
use ctc.Routing.{Source, Pat, ConsumerIdentity, Health, is_dead}
pub mod Gate
pub mod Exhausted

pub record PatRegistry : Type 0 where
  pub pat_for : UserId → Option Pat
  pub list_givers : List UserId
  pub pat_health_status : UserId → Option HealthStatus

pub data ParticipantsMode : Type 0 where
  givers_and_consumers givers_only : ParticipantsMode

abbrev pub is_givers_only : ParticipantsMode → Bool
is_givers_only givers_only = true
is_givers_only _ = false

abbrev pub source_of_grant : Grant → Option Pat → Option Source → Option Source
source_of_grant g none later = later
source_of_grant g (some pat) later =
    some (record { bucket = grant; giver_id = g.donor_id; pat = pat; grant_id = some g.id })

abbrev pub source_of_own : UserId → Option Pat → Option Source → Option Source
source_of_own uid none later = later
source_of_own uid (some pat) later =
    some (record { bucket = own; giver_id = uid; pat = pat; grant_id = none })

-- The key of a source: its grant's identifier, or its giver's; `source.grant_id or source.giver_id`.
abbrev pub key_of : Source → ℕ
key_of source = elim source.grant_id [ none ↦ source.giver_id | some i ↦ i ]

module _ (pats : PatRegistry) (health : Health) (exclude : List ℕ) where
  -- The loop of `_grant_source`. A key of `exclude` is a grant's or a giver's identifier.
  unfoldable pub first_grant : List Grant → Option Source
  first_grant [] = none
  first_grant (g ∷ gs) =
      let later = first_grant gs in
      if contains exclude g.id
      then later
      else if is_dead health g.donor_id
      then later
      else source_of_grant g (pats.pat_for g.donor_id) later

  unfoldable pub grant_source : Db → CycleId → UserId → Option Source
  grant_source s cycle_id consumer_id = first_grant (active_grants s cycle_id consumer_id)

  unfoldable pub select_source : ParticipantsMode → Db → CycleId → ConsumerIdentity → Option Source
  select_source mode s cycle_id consumer =
      let uid = consumer.user_id in
      let by_grant = grant_source s cycle_id uid in
      let by_own = source_of_own uid (pats.pat_for uid) by_grant in
      if is_givers_only mode && not consumer.is_giver
      then none
      else if not consumer.is_giver
      then by_grant
      else if contains exclude uid
      then by_grant
      else if is_dead health uid
      then by_grant
      else if ltb_ℤ (pos 0) (personal_remaining s cycle_id uid)
      then by_own
      else by_grant

-- The headroom of the grant that a source names.
abbrev pub grant_headroom : Db → CycleId → Option GrantId → Bool
grant_headroom s cycle_id none = false
grant_headroom s cycle_id (some i) = ltb_ℤ (pos 0) (grant_remaining s cycle_id i)

unfoldable pub bucket_has_headroom : Db → CycleId → Source → Bool
bucket_has_headroom s cycle_id source = elim source.bucket [
  | own ↦ ltb_ℤ (pos 0) (personal_remaining s cycle_id source.giver_id)
  | grant ↦ grant_headroom s cycle_id source.grant_id
  | pool ↦ ltb_ℤ (pos 0) (pledge_remaining s cycle_id source.giver_id)
  | bypass ↦ true
]

abbrev is_valid : Option HealthStatus → Bool
is_valid (some valid) = true
is_valid _ = false

-- `if fallback is None: fallback = pat`
abbrev or_else {ℓ} : {A : Type ℓ} → Option A → Option A → Option A
or_else none b = b
or_else (some a) b = some a

-- The loop of `any_giver_pat`.
unfoldable pub healthy_pat : PatRegistry → Option Pat → List UserId → Option Pat
healthy_pat pats fallback [] = fallback
healthy_pat pats fallback (giver_id ∷ givers) =
    let skip = healthy_pat pats fallback givers in
    let keep = healthy_pat pats (or_else fallback (pats.pat_for giver_id)) givers in
    if is_none (pats.pat_for giver_id)
    then skip
    else if is_valid (pats.pat_health_status giver_id)
    then pats.pat_for giver_id
    else keep

unfoldable pub any_giver_pat : PatRegistry → Option Pat
any_giver_pat pats = healthy_pat pats none pats.list_givers
