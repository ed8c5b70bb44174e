-- ===== src/Engine/Consume.antt =====
-- ctc/accounting/engine.py: record_consumption, which books one event after the checks of its bucket.
use ctc.Common.{
  ℕ, Bool, true, false, not, ◌&&◌, Option, none, some, ℤ, pos, ltb_ℤ, leb_ℤ, ◌==◌, if◌then◌else◌,
}
use ctc.Domain.{
  UserId, CycleId, GrantId, EventId, Time, Bucket, own, pool, grant, bypass, Event, Grant,
}
use ctc.Store.{
  Db, Action, invalid_consumption, insufficient_credit, pure, gets, or_raise, raise_if, transaction,
  ◌>>=◌, ◌>>◌, get_grant, add_event,
}
use ctc.Engine.{personal_remaining, pledge_remaining, grant_remaining}
pub mod Booking
pub mod Limits

-- The display labels of an event, which no balance reads.
pub record Tags : Type 0 where
  pub run_tag : Option ℕ
  pub model : Option ℕ
  pub exchange_id : Option ℕ

-- `self.store.get_grant(grant_id) if grant_id else None`, with the identifier that was found.
unfoldable pub chosen_grant : Db → Option GrantId → Option (GrantId × Grant)
chosen_grant s none = none
chosen_grant s (some i) = elim (get_grant s i) [ none ↦ none | some g ↦ some (i, g) ]

-- The checks of each bucket.
unfoldable pub check_bucket :
    CycleId → UserId → UserId → Bucket → ℤ → Option GrantId → Bool → Action (Unit {0})
check_bucket cycle_id consumer_id source_id own credits grant_id allow_overshoot = do
  raise_if (not (consumer_id == source_id)) invalid_consumption
  room ← gets (λ s. personal_remaining s cycle_id source_id)
  raise_if (not allow_overshoot && ltb_ℤ room credits) insufficient_credit
check_bucket cycle_id consumer_id source_id bypass credits grant_id allow_overshoot =
    raise_if (not (consumer_id == source_id)) invalid_consumption
check_bucket cycle_id consumer_id source_id pool credits grant_id allow_overshoot = do
  room ← gets (λ s. pledge_remaining s cycle_id source_id)
  raise_if (not allow_overshoot && ltb_ℤ room credits) insufficient_credit
check_bucket cycle_id consumer_id source_id grant credits grant_id allow_overshoot = do
  g ← or_raise (← gets (λ s. chosen_grant s grant_id)) invalid_consumption
  raise_if (not (g.1.donor_id == source_id)) invalid_consumption
  room ← gets (λ s. grant_remaining s cycle_id g.0)
  raise_if (not allow_overshoot && ltb_ℤ room credits) insufficient_credit

abbrev pub event_of :
    EventId → CycleId → UserId → UserId → Bucket → ℤ → Option GrantId → Time → Tags → Event
event_of id cycle_id consumer_id source_id bucket credits grant_id ts tags = record {
  id = id;
  cycle_id = cycle_id;
  ts = ts;
  consumer_id = consumer_id;
  source_giver_id = source_id;
  bucket = bucket;
  grant_id = grant_id;
  credits = credits;
  run_tag = tags.run_tag;
  model = tags.model;
  exchange_id = tags.exchange_id;
}

-- `id` is the new row's `uuid.uuid4().hex`.
unfoldable pub record_consumption :
    EventId
    → CycleId
    → UserId
    → UserId
    → Bucket
    → ℤ
    → Option GrantId
    → Time
    → Bool
    → Tags
    → Action Event
unfolding transaction add_event
record_consumption id cycle_id consumer_id source_id bucket credits grant_id ts allow_overshoot
      tags =
    do
      raise_if (leb_ℤ credits (pos 0)) invalid_consumption
      transaction do
        check_bucket cycle_id consumer_id source_id bucket credits grant_id allow_overshoot
        let event = event_of id cycle_id consumer_id source_id bucket credits grant_id ts tags
        add_event event
        pure event
