-- ===== src/Routing/Debit/Bills.antt =====
-- The bills of a run of the program, in the order in which they are debited, with whatever else moves
-- the tables between them, against the ledger that adds each bill up.
use ctc.Common.{ℕ, ◌≡◌, ◌∙◌, ap, refl, List, [], ◌∷◌, ℤ, pos, max_ℤ}
use ctc.Domain.{CycleId, EventId, Time}
use ctc.Store.{Db, ok}
use ctc.Store.Query.{consumed_total}
use ctc.Engine.Consume.{Tags}
use ctc.Routing.{Source, ConsumerIdentity, debit}
use ctc.Routing.Debit.{Ledger, ledger, with_charge, debit-with_charge}

-- The arguments of a call of `debit`, with the identifiers that its events get.
pub record Bill : Type 0 where
  pub last_id : EventId
  pub new_id : ℕ → EventId
  pub cycle_id : CycleId
  pub consumer : ConsumerIdentity
  pub source : Source
  pub cost : ℤ
  pub ts : Time
  pub tags : Tags

-- From the first tables to the last: debits that return, and steps that book no consumption.
pub data Billed : Db → List Bill → Db → Type 0 where
  done : {s : Db} → Billed s [] s
  debited :
      {s s₁ t : Db} {bills : List Bill} (b : Bill)
      → debit b.last_id b.new_id b.cycle_id b.consumer b.source b.cost b.ts b.tags s ≡ (ok tt, s₁)
      → Billed s₁ bills t
      → Billed s (b ∷ bills) t
  otherwise :
      {s s₁ t : Db} {bills : List Bill}
      → s₁.consumption_events ≡ s.consumption_events
      → Billed s₁ bills t
      → Billed s bills t

-- The abstract program: each bill in turn is charged to its consumer.
unfoldable pub charge_all : List Bill → Ledger → Ledger
charge_all [] l = l
charge_all (b ∷ bills) l =
    charge_all bills (with_charge b.cycle_id b.consumer.user_id (max_ℤ (pos 0) b.cost) l)

ledger_same : (s t : Db) → t.consumption_events ≡ s.consumption_events → ledger t ≡ ledger s
unfolding ledger consumed_total
ledger_same s t e = rw e refl

-- Whatever the bills are, in whatever order they are debited and whatever is done between them that
-- books no consumption: what the tables say that each user has consumed in each cycle is what the ledger
-- says that charges the bills one after the other, each to its consumer and in its cycle alone.
pub Billed-charge_all :
    {s t : Db} {bills : List Bill} → Billed s bills t → ledger t ≡ charge_all bills (ledger s)
unfolding charge_all
Billed-charge_all done = refl
Billed-charge_all (debited {bills = bills} b ran rest) =
    Billed-charge_all rest
    ∙ ap (charge_all bills) (
        debit-with_charge b.last_id b.new_id b.cycle_id b.consumer b.source b.ts b.tags b.cost _
          ran)
Billed-charge_all (otherwise {s = s} {s₁ = s₁} {bills = bills} same rest) =
    Billed-charge_all rest ∙ ap (charge_all bills) (ledger_same s s₁ same)
