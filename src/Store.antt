-- ===== src/Store.antt =====
-- ctc/store/accounting_store.py over the schema of ctc/store/db.py: the tables, the statements that
-- read and write single rows, and the transaction that AccountingEngine wraps its methods in.
-- A table lists its rows in the order of insertion; a primary key is checked on insertion.
use ctc.Common.{
  String, ℕ, ◌≡◌, refl, Bool, true, false, ◌&&◌, Option, none, some, List, [], ◌∷◌, ◌++◌, ℤ, ◌==◌,
  leb, is_none, filter, find, find_first, update_where, sort_by, if◌then◌else◌,
}
use ctc.Domain.{
  UserId, CycleId, RequestId, GrantId, EventId, Time, RequestStatus, Cycle, CycleStatus, active,
  GiverCycle, Request, Grant, PoolContribution, Event,
}
pub mod Query
pub mod Events
pub mod Grants
pub mod Children
pub mod Valid
pub mod Pats
pub mod Frame
pub mod Snapshots
pub mod Display

-- The verdicts that ctc/auth/pat_health.py stores with a giver's PAT.
pub data HealthStatus : Type 0 where
  valid expired_pat forbidden no_entitlement no_copilot_permission : HealthStatus

-- What `health_error` tells of a check with no verdict: the request raised, or was answered with
-- another status.
pub data CheckFailure : Type 0 where
  request_raised : CheckFailure
  unexpected_status : ℕ → CheckFailure

-- `giver_pats`, without the encrypted PAT.
pub record GiverPat : Type 0 where
  pub user_id : UserId
  pub entitlement : Option ℤ
  pub remaining_at_submit : Option ℤ
  pub quota_reset_date : Option String
  pub health_status : Option HealthStatus
  pub health_checked_at : Option Time
  pub health_error : Option CheckFailure

-- `cycle_reports`; a report is stored as the code points of its JSON.
pub record CycleReport : Type 0 where
  pub cycle_id : CycleId
  pub report_json : List ℕ
  pub created_at : Time

pub record Db : Type 0 where
  pub cycles : List Cycle
  pub giver_cycles : List GiverCycle
  pub requests : List Request
  pub grants : List Grant
  pub pool_contributions : List PoolContribution
  pub consumption_events : List Event
  pub giver_pats : List GiverPat
  pub cycle_reports : List CycleReport

-- ctc/accounting/errors.py; an error keeps its class and drops its text. `integrity` is the
-- database's refusal of a row whose primary key is taken, `type_error` and `value_error` are Python's.
pub data Error : Type 0 where
  insufficient_credit invalid_consumption invalid_pledge integrity type_error value_error : Error
  request_closed : RequestStatus → Error

pub data Result (A : Type 0) : Type 0 where
  ok : A → Result A
  err : Error → Result A

-- A method: what was written before a raise stays written, unless a transaction rolls it back.
abbrev pub Action : Type 0 → Type 0
Action A = Db → Result A × Db

module _ {A : Type 0} where
  abbrev pub pure : A → Action A
  pure a s = (ok a, s)

  abbrev pub raise : Error → Action A
  raise e s = (err e, s)

  abbrev pub gets : (Db → A) → Action A
  gets f s = (ok (f s), s)

  abbrev pub or_raise : Option A → Error → Action A
  or_raise none e = raise e
  or_raise (some a) _ = pure a

  -- `COMMIT` on a return, `ROLLBACK` and the same error on a raise.
  abbrev pub settle : Db → Result A × Db → Result A × Db
  settle s (ok a, s') = (ok a, s')
  settle s (err e, s') = (err e, s)

  -- `BEGIN IMMEDIATE ... COMMIT`, `except BaseException: ROLLBACK; raise`
  unfoldable pub transaction : Action A → Action A
  transaction m s = settle s (m s)

infixl 5 ◌>>=◌ ◌>>◌
abbrev pub ◌>>=◌ : {A B : Type 0} → Action A → (A → Action B) → Action B
◌>>=◌ m f s = let (r, s') = m s in elim r [ ok a ↦ f a s' | err e ↦ raise e s' ]

abbrev pub ◌>>◌ : {A B : Type 0} → Action A → Action B → Action B
m >> k = m >>= λ _. k

result_cases :
    {A B : Type 0} (r : Result A) (s : Db) (f : A → Action B) {s' : Db} {b : B}
    → ◌≡◌ {A = Result B × Db} (elim r [ ok a ↦ f a s | err e ↦ raise e s ]) (ok b, s')
    → (a : A) × (r ≡ ok a) × (f a s ≡ (ok b, s'))
result_cases (ok a) s f h = (a, refl, h)
result_cases (err e) s f h = absurd (cc)

-- Inversion of a sequence that returns.
pub >>=-eq-ok :
    {A B : Type 0} (m : Action A) (f : A → Action B) {s s' : Db} {b : B}
    → (m >>= f) s ≡ (ok b, s')
    → (a : A) × (s₁ : Db) × (m s ≡ (ok a, s₁)) × (f a s₁ ≡ (ok b, s'))
>>=-eq-ok m f {s} h =
    let (a, e, k) = result_cases (m s).0 (m s).1 f h in (a, (m s).1, (λ i. (e i, (m s).1)), k)

-- A sequence whose first part returns.
pub >>=-ok :
    {A B : Type 0} (m : Action A) (f : A → Action B) {s s₁ : Db} {a : A}
    → m s ≡ (ok a, s₁)
    → (m >>= f) s ≡ f a s₁
>>=-ok m f e = λ i. let (r, t) = e i in elim r [ ok x ↦ f x t | err x ↦ raise x t ]

abbrev pub raise_if : Bool → Error → Action (Unit {0})
raise_if c e s = (if c then err e else ok tt, s)

abbrev pub modify : (Db → Db) → Action (Unit {0})
modify f s = (ok tt, f s)

unfoldable pub get_cycle : Db → CycleId → Option Cycle
get_cycle s cycle_id = find (λ c. c.id) cycle_id s.cycles

abbrev pub is_active : CycleStatus → Bool
is_active active = true
is_active _ = false

abbrev pub first {ℓ} : {A : Type ℓ} → List A → Option A
first [] = none
first (x ∷ _) = some x

-- `WHERE status='active' ORDER BY starts_at DESC LIMIT 1`
unfoldable pub active_cycle : Db → Option Cycle
active_cycle s =
    first (sort_by (λ a b. leb b.starts_at a.starts_at) (filter (λ c. is_active c.status) s.cycles))

unfoldable pub add_cycle : Cycle → Action (Unit {0})
add_cycle c = do
  raise_if (if is_none (← gets (λ s. get_cycle s c.id)) then false else true) integrity
  modify (λ s. record s { cycles = s.cycles ++ c ∷ [] })

abbrev pub is_row : CycleId → UserId → GiverCycle → Bool
is_row cycle_id giver_id gc = gc.cycle_id == cycle_id && gc.giver_id == giver_id

unfoldable pub get_giver_cycle : Db → CycleId → UserId → Option GiverCycle
get_giver_cycle s cycle_id giver_id = find_first (is_row cycle_id giver_id) s.giver_cycles

unfoldable pub all_giver_cycles : Db → CycleId → List GiverCycle
all_giver_cycles s cycle_id = filter (λ gc. gc.cycle_id == cycle_id) s.giver_cycles

-- The insert of `upsert_giver_cycle` leaves the reconcile columns NULL, its update leaves them alone.
abbrev upsert : CycleId → UserId → ℤ → ℤ → Option GiverCycle → List GiverCycle → List GiverCycle
upsert cycle_id giver_id quota pledge none rows =
    rows
    ++ record {
      cycle_id = cycle_id;
      giver_id = giver_id;
      quota = quota;
      pledge = pledge;
      burn_baseline = none;
      pending_drift = none;
      pending_drift_at = none;
    }
      ∷ []
upsert cycle_id giver_id quota pledge (some _) rows =
    update_where (is_row cycle_id giver_id) (λ gc. record gc { quota = quota; pledge = pledge })
      rows

-- The tables after `upsert_giver_cycle`.
unfoldable pub with_row : Db → CycleId → UserId → ℤ → ℤ → Db
with_row s cycle_id giver_id quota pledge = record s {
  giver_cycles =
      upsert cycle_id giver_id quota pledge (get_giver_cycle s cycle_id giver_id) s.giver_cycles;
}

unfoldable pub upsert_giver_cycle : CycleId → UserId → ℤ → ℤ → Action (Unit {0})
upsert_giver_cycle cycle_id giver_id quota pledge =
    modify (λ s. with_row s cycle_id giver_id quota pledge)

unfoldable pub with_baseline : Db → CycleId → UserId → ℤ → Db
with_baseline s cycle_id giver_id baseline = record s {
  giver_cycles =
      update_where (is_row cycle_id giver_id) (λ gc. record gc { burn_baseline = some baseline })
        s.giver_cycles;
}

unfoldable pub set_burn_baseline : CycleId → UserId → ℤ → Action (Unit {0})
set_burn_baseline cycle_id giver_id baseline =
    modify (λ s. with_baseline s cycle_id giver_id baseline)

unfoldable pub with_pending : Db → CycleId → UserId → Option ℤ → Option Time → Db
with_pending s cycle_id giver_id drift at = record s {
  giver_cycles =
      update_where (is_row cycle_id giver_id)
        (λ gc. record gc { pending_drift = drift; pending_drift_at = at }) s.giver_cycles;
}

unfoldable pub set_pending_drift : CycleId → UserId → Option ℤ → Option Time → Action (Unit {0})
set_pending_drift cycle_id giver_id drift at =
    modify (λ s. with_pending s cycle_id giver_id drift at)

unfoldable pub get_request : Db → RequestId → Option Request
get_request s request_id = find (λ r. r.id) request_id s.requests

unfoldable pub add_request : Request → Action (Unit {0})
add_request r = do
  raise_if (if is_none (← gets (λ s. get_request s r.id)) then false else true) integrity
  modify (λ s. record s { requests = s.requests ++ r ∷ [] })

-- `AccountingStore.cancel_request`
unfoldable pub mark_cancelled : RequestId → Time → Action (Unit {0})
mark_cancelled request_id now = modify λ s. record s {
  requests =
      update_where (λ r. r.id == request_id && is_none r.cancelled_at)
        (λ r. record r { cancelled_at = some now }) s.requests;
}

unfoldable pub get_grant : Db → GrantId → Option Grant
get_grant s grant_id = find (λ g. g.id) grant_id s.grants

-- The table with one more row.
abbrev pub with_grant : Db → Grant → Db
with_grant s g = record s { grants = s.grants ++ g ∷ [] }

unfoldable pub add_grant : Grant → Action (Unit {0})
add_grant g = do
  raise_if (if is_none (← gets (λ s. get_grant s g.id)) then false else true) integrity
  modify (λ s. with_grant s g)

-- `WHERE cycle_id=? AND recipient_id=? ORDER BY created_at`
unfoldable pub grants_for_recipient : Db → CycleId → UserId → List Grant
grants_for_recipient s cycle_id recipient_id =
    sort_by (λ a b. leb a.created_at b.created_at)
      (filter (λ g. g.cycle_id == cycle_id && g.recipient_id == recipient_id) s.grants)

unfoldable pub get_contribution : Db → ℕ → Option PoolContribution
get_contribution s i = find (λ pc. pc.id) i s.pool_contributions

unfoldable pub add_pool_contribution : PoolContribution → Action (Unit {0})
add_pool_contribution pc = do
  raise_if (if is_none (← gets (λ s. get_contribution s pc.id)) then false else true) integrity
  modify (λ s. record s { pool_contributions = s.pool_contributions ++ pc ∷ [] })

unfoldable pub get_event : Db → EventId → Option Event
get_event s i = find (λ e. e.id) i s.consumption_events

abbrev pub with_event : Db → Event → Db
with_event s e = record s { consumption_events = s.consumption_events ++ e ∷ [] }

unfoldable pub add_event : Event → Action (Unit {0})
add_event e = do
  raise_if (if is_none (← gets (λ s. get_event s e.id)) then false else true) integrity
  modify (λ s. with_event s e)
