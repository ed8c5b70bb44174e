-- ===== src/Domain.antt =====
-- ctc/domain/types.py and ctc/domain/rules.py: the rows of the accounting tables and the status of
-- a request. Identifiers and tags are texts that the program only compares, so they are numbers
-- here; times are epoch seconds, and amounts are signed integers in nano-AIU.
use ctc.Common.{
  ℕ, String, Bool, true, false, Option, none, some, ◌+◌, ◌*◌, ℤ, pos, negsuc, leb, leb_ℤ, ltb_ℤ,
  if◌then◌else◌,
}
pub mod Status

abbrev pub UserId : Type 0
UserId = ℕ

abbrev pub CycleId : Type 0
CycleId = ℕ

abbrev pub RequestId : Type 0
RequestId = ℕ

abbrev pub GrantId : Type 0
GrantId = ℕ

abbrev pub ContributionId : Type 0
ContributionId = ℕ

abbrev pub EventId : Type 0
EventId = ℕ

abbrev pub Time : Type 0
Time = ℕ

pub data Role : Type 0 where
  giver consumer : Role

pub data Bucket : Type 0 where
  own pool grant bypass : Bucket

-- `open` is the status of a request that nobody has funded.
pub data RequestStatus : Type 0 where
  open_status partially_funded fulfilled expired cancelled : RequestStatus

-- `source`, 'personal' or 'pool'.
pub data GrantSource : Type 0 where
  personal pooled : GrantSource

pub data CycleStatus : Type 0 where
  active archived : CycleStatus

pub record Cycle : Type 0 where
  pub id : CycleId
  pub label : String
  pub starts_at : Time
  pub ends_at : Time
  pub status : CycleStatus

pub record GiverCycle : Type 0 where
  pub cycle_id : CycleId
  pub giver_id : UserId
  pub quota : ℤ
  pub pledge : ℤ
  pub burn_baseline : Option ℤ
  pub pending_drift : Option ℤ
  pub pending_drift_at : Option Time

pub record Request : Type 0 where
  pub id : RequestId
  pub cycle_id : CycleId
  pub requester_id : UserId
  pub requester_role : Role
  pub amount_needed : ℤ
  pub reason : String
  pub target : Option String
  pub created_at : Time
  pub expires_at : Time
  pub cancelled_at : Option Time

pub record Grant : Type 0 where
  pub id : GrantId
  pub cycle_id : CycleId
  pub request_id : RequestId
  pub donor_id : UserId
  pub recipient_id : UserId
  pub amount : ℤ
  pub created_at : Time
  pub source : GrantSource
  pub origin_grant_id : Option GrantId
  pub via_user_id : Option UserId
  pub contribution_id : Option ContributionId

pub record PoolContribution : Type 0 where
  pub id : ContributionId
  pub cycle_id : CycleId
  pub contributor_id : UserId
  pub origin_grant_id : GrantId
  pub donor_id : UserId
  pub amount : ℤ
  pub created_at : Time

pub record Event : Type 0 where
  pub id : EventId
  pub cycle_id : CycleId
  pub ts : Time
  pub consumer_id : UserId
  pub source_giver_id : UserId
  pub bucket : Bucket
  pub grant_id : Option GrantId
  pub credits : ℤ
  pub run_tag : Option ℕ
  pub model : Option ℕ
  pub exchange_id : Option ℕ

abbrev pub same_bucket : Bucket → Bucket → Bool
same_bucket own own = true
same_bucket pool pool = true
same_bucket grant grant = true
same_bucket bypass bypass = true
same_bucket _ _ = false

abbrev pub same_source : GrantSource → GrantSource → Bool
same_source personal personal = true
same_source pooled pooled = true
same_source _ _ = false

unfoldable pub derive_status : ℤ → ℤ → Time → Time → Option Time → RequestStatus
derive_status amount_funded amount_needed expires_at now (some _) = cancelled
derive_status amount_funded amount_needed expires_at now none =
    if leb_ℤ amount_needed amount_funded
    then fulfilled
    else if leb expires_at now
    then expired
    else if ltb_ℤ (pos 0) amount_funded
    then partially_funded
    else open_status

-- `status in (FULFILLED, EXPIRED, CANCELLED)`
unfoldable pub is_closed : RequestStatus → Bool
is_closed open_status = false
is_closed partially_funded = false
is_closed _ = true

-- `NANO_PER_AIU` of ctc/domain/config.py.
abbrev pub nano_per_aiu : ℕ
nano_per_aiu = 1_000_000_000

-- An amount of whole AIU, as `n * NANO_PER_AIU`.
unfoldable pub nano : ℤ → ℤ
nano (pos n) = pos (n * nano_per_aiu)
nano (negsuc n) = negsuc (n * nano_per_aiu + 999_999_999)
