-- ===== src/Engine/Valid/Booking.antt =====
-- The methods that write single rows leave valid tables.
use ctc.Common.{◌≡◌, refl, inl, inr, String, Bool, Option, none, some, Option-cases, ℤ, arith}
use ctc.Domain.{
  UserId, CycleId, RequestId, GrantId, EventId, Time, Role, Bucket, Request, Grant, nano,
}
use ctc.Store.{
  Db, ok, get_giver_cycle, get_grant, add_grant, get_request, upsert_giver_cycle, with_row,
  add_request, mark_cancelled,
}
use ctc.Store.Frame.{Keeps}
use ctc.Store.Valid.{with_event-IsValid, with_grant-IsValid}
use ctc.Engine.{pledge_used}
use ctc.Engine.Pledge.{
  set_quota, set_pledge, retract_pledge, raise_ceiling, sync_quota_ceiling, Live,
}
use ctc.Engine.Market.{create_request, cancel_request, fund_request, chip_in}
use ctc.Engine.Market.Funding.{fund_request_inv}
use ctc.Engine.Consume.{Tags, event_of, record_consumption}
use ctc.Engine.Consume.Booking.{check_bucket-state, record_consumption_inv}
use ctc.Engine.Valid.{ledger, Safe, Atomic, Atomic-Safe, transaction-Atomic}

pub set_pledge-Keeps : (c : CycleId) (u : UserId) (p : ℤ) → Keeps ledger (set_pledge c u p)
unfolding set_pledge upsert_giver_cycle with_row
set_pledge-Keeps c u p s = ground arith

pub set_quota-Keeps : (c : CycleId) (u : UserId) (q : ℤ) → Keeps ledger (set_quota c u q)
unfolding set_quota upsert_giver_cycle with_row
set_quota-Keeps c u q s = ground arith

pub retract_pledge-Keeps : (c : CycleId) (u : UserId) → Keeps ledger (retract_pledge c u)
unfolding retract_pledge
retract_pledge-Keeps c u s = ground (arith, set_pledge-Keeps c u (pledge_used s c u) s)

pub create_request-Keeps :
    (id : RequestId) (c : CycleId) (u : UserId) (role : Role) (x : ℤ) (reason : String)
    (target : Option String) (at ends : Time)
    → Keeps ledger (create_request id c u role x reason target at ends)
unfolding create_request add_request
create_request-Keeps id c u role x reason target at ends s = ground arith

pub cancel_request-Keeps :
    (i : RequestId) (u : UserId) (now : Time) → Keeps ledger (cancel_request i u now)
unfolding cancel_request mark_cancelled
cancel_request-Keeps i u now s = ground arith

pub sync_quota_ceiling-Keeps :
    (c : CycleId) (u : UserId) (live : Option Live) → Keeps ledger (sync_quota_ceiling c u live)
unfolding sync_quota_ceiling raise_ceiling
sync_quota_ceiling-Keeps c u none s = refl
sync_quota_ceiling-Keeps c u (some live) s = elim (Option-cases live.entitlement) [
  | inl e ↦ rw e refl
  | inr (ent, e) ↦ elim (Option-cases (get_giver_cycle s c u)) [
    | inl absent ↦ ground (arith, e, absent)
    | inr (gc, there) ↦ ground (arith, e, there, set_quota-Keeps c u (nano ent) s)
  ]
]

-- A chip-in that returns has booked a grant with a new identifier.
fund_request_fresh :
    (id : GrantId) (rid : RequestId) (u : UserId) (x : ℤ) (now : Time) (s : Db) {g : Grant}
    {s' : Db} (r : Request)
    → get_request s rid ≡ some r
    → fund_request id rid u x now s ≡ (ok g, s')
    → get_grant s id ≡ none
unfolding fund_request add_grant
fund_request_fresh id rid u x now s r e h = ground arith

pub fund_request-Safe :
    (id : GrantId) (rid : RequestId) (u : UserId) (x : ℤ) (now : Time)
    → Safe (fund_request id rid u x now)
unfolding fund_request
fund_request-Safe id rid u x now =
    Atomic-Safe (fund_request id rid u x now) (transaction-Atomic _) (λ s g s' v h.
      let (r, f) = fund_request_inv s id rid u x now h in
      rw (f.after, f.booked)
        (with_grant-IsValid s (chip_in id rid r u g.amount now) v
          (fund_request_fresh id rid u x now s r f.found h) (f.positive, tt)))

record_consumption-Atomic :
    (id : EventId) (c : CycleId) (u v : UserId) (b : Bucket) (x : ℤ) (g : Option GrantId)
    (ts : Time) (o : Bool) (tags : Tags)
    → Atomic (record_consumption id c u v b x g ts o tags)
unfolding record_consumption
record_consumption-Atomic id c u v b x g ts o tags s e h =
    ground (arith, h, check_bucket-state c u v b x g o s)

pub record_consumption-Safe :
    (id : EventId) (c : CycleId) (u v : UserId) (b : Bucket) (x : ℤ) (g : Option GrantId)
    (ts : Time) (o : Bool) (tags : Tags)
    → Safe (record_consumption id c u v b x g ts o tags)
record_consumption-Safe id c u v b x g ts o tags =
    Atomic-Safe (record_consumption id c u v b x g ts o tags)
      (record_consumption-Atomic id c u v b x g ts o tags)
      (λ s e s' w h.
        let (_, after, p, _) = record_consumption_inv id c u v b x g ts o tags s h in
        rw after (with_event-IsValid s (event_of id c u v b x g ts tags) w p))
