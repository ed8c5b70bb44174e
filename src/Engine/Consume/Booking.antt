-- ===== src/Engine/Consume/Booking.antt =====
-- What record_consumption books, and what its checks admit.
use ctc.Common.{◌≡◌, inl, inr, Bool, false, Option, some, ℤ, pos, ◌≤ℤ◌, ◌<ℤ◌, Option-cases, arith}
use ctc.Domain.{
  UserId, CycleId, GrantId, EventId, Time, Bucket, own, pool, grant, bypass, Event, Grant,
}
use ctc.Store.{Db, ok, with_event, get_grant}
use ctc.Engine.{personal_remaining, grant_remaining}
use ctc.Engine.Consume.{Tags, event_of, chosen_grant, check_bucket, record_consumption}

-- The checks read and never write.
pub check_bucket-state :
    (c : CycleId) (u v : UserId) (b : Bucket) (credits : ℤ) (g : Option GrantId) (o : Bool) (s : Db)
    → (check_bucket c u v b credits g o s).1 ≡ s
unfolding check_bucket
check_bucket-state c u v own credits g o s = ground arith
check_bucket-state c u v pool credits g o s = ground arith
check_bucket-state c u v grant credits g o s = ground arith
check_bucket-state c u v bypass credits g o s = ground arith

module _ (id : EventId) (c : CycleId) (u v : UserId) (b : Bucket) (credits : ℤ) (g : Option GrantId)
    (ts : Time) (o : Bool) (tags : Tags) (s : Db) where
  pub record_consumption_inv :
      {e : Event} {s' : Db}
      → record_consumption id c u v b credits g ts o tags s ≡ (ok e, s')
      → (e ≡ event_of id c u v b credits g ts tags)
        × (s' ≡ with_event s (event_of id c u v b credits g ts tags))
        × (pos 0 <ℤ credits)
        × ((check_bucket c u v b credits g o s).0 ≡ ok tt)
  unfolding record_consumption
  record_consumption_inv h = ground (arith, check_bucket-state c u v b credits g o s)

module _ (c : CycleId) (u v : UserId) (credits : ℤ) (g : Option GrantId) (s : Db) where
  pub check_bucket-own :
      (check_bucket c u v own credits g false s).0 ≡ ok tt
      → (u ≡ v) × (credits ≤ℤ personal_remaining s c v)
  unfolding check_bucket
  check_bucket-own h = ground arith

  -- What a grant draw within its limit has been checked against.
  pub record DrawsGrant : Type 0 where
    pub grant_id : GrantId
    pub row : Grant
    pub chosen : g ≡ some grant_id
    pub found : get_grant s grant_id ≡ some row
    pub donor : row.donor_id ≡ v
    pub covered : credits ≤ℤ grant_remaining s c grant_id

  pub check_bucket-grant : (check_bucket c u v grant credits g false s).0 ≡ ok tt → DrawsGrant
  unfolding check_bucket chosen_grant
  check_bucket-grant h = elim (Option-cases g) [
    | inl absent ↦ absurd (ground arith)
    | inr (i, e) ↦ elim (Option-cases (get_grant s i)) [
      | inl unknown ↦ absurd (ground arith)
      | inr (r, f) ↦ record {
        grant_id = i;
        row = r;
        chosen = e;
        found = f;
        donor = ground arith;
        covered = ground arith;
      }
    ]
  ]
