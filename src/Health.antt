-- ===== src/Health.antt =====
-- ctc/auth/pat_health.py: the periodic check of the givers' PATs. The registry, the two endpoints and
-- the clock are parameters; a request that raises is `none`. One check reads the clock once.
use ctc.Common.{
  ℕ, zero, suc, ◌+◌, Bool, true, false, Option, none, some, List, [], ◌∷◌, ℤ, pos, max_ℤ, ltb_ℤ,
  ◌==◌, is_none, contains, if◌then◌else◌,
}
use ctc.Domain.{UserId, CycleId, EventId, Time, GiverCycle}
use ctc.Store.{
  Db, Result, ok, err, HealthStatus, valid, expired_pat, forbidden, no_entitlement,
  no_copilot_permission, CheckFailure, request_raised, unexpected_status, GiverPat, get_giver_cycle,
}
use ctc.Store.Pats.{
  set_giver_quota_snapshot, set_pat_health_ok, set_pat_health_error, list_giver_ids,
}
use ctc.Quota.{UserInfo, PremiumInteractions}
use ctc.Engine.{is_dead_verdict}
use ctc.Engine.Pledge.{Live, retract_pledge}
use ctc.Engine.Reconcile.{Seen, reconcile_giver}
use ctc.Engine.Cycle.{Calendar, ensure_active_cycle}
pub mod Outage
pub mod Dead

pub data DisplayStatus : Type 0 where
  unreachable : DisplayStatus
  stored : HealthStatus → DisplayStatus

abbrev pub displayed : GiverPat → Option DisplayStatus
displayed p = elim p.health_error [
  | some _ ↦ some unreachable
  | none ↦ elim p.health_status [ none ↦ none | some v ↦ some (stored v) ]
]

-- `none` is a user without a row.
unfoldable pub display_status : Option GiverPat → Option DisplayStatus
display_status none = none
display_status (some p) = displayed p

abbrev pub entitlement_in : Option UserInfo → Option ℤ
entitlement_in none = none
entitlement_in (some u) = elim u.premium_interactions [ none ↦ none | some pi ↦ pi.entitlement ]

abbrev pub remaining_in : UserInfo → Option ℤ
remaining_in u = elim u.premium_interactions [ none ↦ none | some pi ↦ pi.remaining ]

abbrev pub or_zero : Option ℤ → ℤ
or_zero none = pos 0
or_zero (some n) = n

abbrev pub with_quota : Option ℤ → HealthStatus
with_quota none = no_entitlement
with_quota (some ent) = if ltb_ℤ (pos 0) ent then valid else no_entitlement

unfoldable pub classify : ℕ → Option UserInfo → Option HealthStatus
classify status body =
    if status == 200
    then some (with_quota (entitlement_in body))
    else if status == 401
    then some expired_pat
    else if status == 403
    then some forbidden
    else none

unfoldable pub classify_copilot_api : ℕ → Option HealthStatus
classify_copilot_api status = if status == 401 then some no_copilot_permission else none

pub record Checker : Type 0 where
  pub pat_for : UserId → Option ℕ
  pub fetch_raw : ℕ → ℕ → Option (ℕ × Option UserInfo)
  pub fetch_copilot_api : Option (ℕ → ℕ → Option ℕ)
  pub now : ℕ → Time
  pub new_id : ℕ → EventId
  pub has_engine : Bool
  pub cal : Calendar
  pub pct : ℕ

-- The engine's throttle and the tables.
pub record State : Type 0 where
  pub seen : Seen
  pub db : Db

module _ (checker : Checker) where
  abbrev pub answered_verdict : Option ℕ → Option HealthStatus
  answered_verdict none = none
  answered_verdict (some status) = classify_copilot_api status

  unfoldable pub copilot_api_verdict : ℕ → ℕ → Option HealthStatus
  copilot_api_verdict n pat = elim checker.fetch_copilot_api [
    | none ↦ none
    | some fetch ↦ answered_verdict (fetch n pat)
  ]

  -- `await self._copilot_api_verdict(giver_id, pat) or VALID`
  abbrev pub or_valid : Option HealthStatus → HealthStatus
  or_valid none = valid
  or_valid (some v) = v

  abbrev pub second_opinion : ℕ → ℕ → HealthStatus → HealthStatus
  second_opinion n pat valid = or_valid (copilot_api_verdict n pat)
  second_opinion n pat v = v

  -- The cycle of the call, or the one that ensure_active_cycle returns.
  unfoldable pub cycle_of : ℕ → Option CycleId → Db → Result CycleId × Db
  cycle_of n (some cycle_id) s = (ok cycle_id, s)
  cycle_of n none s =
      let (r, s') = ensure_active_cycle checker.cal checker.pct (checker.now n) s in
      (elim r [ ok c ↦ ok c.id | err e ↦ err e ], s')

  -- What the engine does for a verdict, once the cycle is known; what it raises is logged.
  unfoldable pub retract_dead_pledge : CycleId → UserId → State → State
  retract_dead_pledge cycle_id giver_id w = record w {
    db = (retract_pledge cycle_id giver_id w.db).1;
  }

  unfoldable pub reconcile_valid : ℕ → CycleId → UserId → Option UserInfo → State → State
  reconcile_valid n cycle_id giver_id body w =
      let live : Live = record {
        entitlement = entitlement_in body;
        remaining = elim body [ none ↦ none | some u ↦ remaining_in u ];
      } in
      let (seen, r) =
        reconcile_giver (checker.new_id n) cycle_id giver_id (some live) (checker.now n) false
          w.seen w.db in
      record { seen = seen; db = r.1 }

  abbrev pub with_cycle :
      (CycleId → State → State)
      → HealthStatus
      → Seen
      → Result CycleId × Db
      → Result (Option HealthStatus) × State
  with_cycle f v seen (ok cycle_id, s) = (ok (some v), f cycle_id (record { seen = seen; db = s }))
  with_cycle f v seen (err e, s) = (err e, record { seen = seen; db = s })

  abbrev pub engine_with :
      Bool
      → ℕ
      → Option CycleId
      → (CycleId → State → State)
      → HealthStatus
      → State
      → Result (Option HealthStatus) × State
  engine_with true n cycle_id f v w = with_cycle f v w.seen (cycle_of n cycle_id w.db)
  engine_with false n cycle_id f v w = (ok (some v), w)

  abbrev pub engine_step :
      ℕ
      → Option CycleId
      → (CycleId → State → State)
      → HealthStatus
      → State
      → Result (Option HealthStatus) × State
  engine_step n cycle_id f v w = engine_with checker.has_engine n cycle_id f v w

  unfoldable pub snapshot : UserId → Option UserInfo → State → State
  snapshot giver_id none w = w
  snapshot giver_id (some u) w = record w {
    db =
        set_giver_quota_snapshot giver_id (or_zero (entitlement_in (some u)))
          (max_ℤ (pos 0) (or_zero (remaining_in u))) u.quota_reset_date w.db;
  }

  -- After a definitive verdict.
  unfoldable pub act_on :
      ℕ
      → UserId
      → Option CycleId
      → Option UserInfo
      → HealthStatus
      → State
      → Result (Option HealthStatus) × State
  act_on n giver_id cycle_id body valid w =
      engine_step n cycle_id (λ c. reconcile_valid n c giver_id body) valid
        (snapshot giver_id body w)
  act_on n giver_id cycle_id body v w =
      engine_step n cycle_id (λ c. retract_dead_pledge c giver_id) v w

  abbrev pub note_error : ℕ → UserId → CheckFailure → State → Result (Option HealthStatus) × State
  note_error n giver_id error w =
      (ok none, record w { db = set_pat_health_error giver_id error (checker.now n) w.db })

  abbrev pub note_verdict :
      ℕ
      → UserId
      → Option CycleId
      → Option UserInfo
      → HealthStatus
      → State
      → Result (Option HealthStatus) × State
  note_verdict n giver_id cycle_id body v w =
      act_on n giver_id cycle_id body v
        (record w { db = set_pat_health_ok giver_id v (checker.now n) w.db })

  abbrev pub on_verdict :
      ℕ
      → UserId
      → Option CycleId
      → ℕ
      → ℕ
      → Option UserInfo
      → Option HealthStatus
      → State
      → Result (Option HealthStatus) × State
  on_verdict n giver_id cycle_id pat status body none w =
      note_error n giver_id (unexpected_status status) w
  on_verdict n giver_id cycle_id pat status body (some v) w =
      note_verdict n giver_id cycle_id body (second_opinion n pat v) w

  abbrev pub on_answer :
      ℕ
      → UserId
      → Option CycleId
      → ℕ
      → Option (ℕ × Option UserInfo)
      → State
      → Result (Option HealthStatus) × State
  on_answer n giver_id cycle_id pat none w = note_error n giver_id request_raised w
  on_answer n giver_id cycle_id pat (some (status, body)) w =
      on_verdict n giver_id cycle_id pat status body (classify status body) w

  abbrev pub check_with :
      ℕ → UserId → Option CycleId → Option ℕ → State → Result (Option HealthStatus) × State
  check_with n giver_id cycle_id none w = (ok none, w)
  check_with n giver_id cycle_id (some pat) w =
      on_answer n giver_id cycle_id pat (checker.fetch_raw n pat) w

  -- The check with the number `n`.
  unfoldable pub check_one :
      ℕ → UserId → Option CycleId → State → Result (Option HealthStatus) × State
  check_one n giver_id cycle_id w = check_with n giver_id cycle_id (checker.pat_for giver_id) w

  -- The loops of run_once: what a check raises is logged, and the next giver is checked.
  unfoldable pub check_all : ℕ → Option CycleId → List UserId → State → State
  check_all n cycle_id [] w = w
  check_all n cycle_id (g ∷ gs) w = check_all (suc n) cycle_id gs (check_one n g cycle_id w).1

  abbrev pub is_pending : Option GiverCycle → Bool
  is_pending none = false
  is_pending (some gc) = if is_none gc.pending_drift then false else true

  -- The givers whose drift the first phase noted.
  unfoldable pub pending_in : Db → CycleId → List UserId → List UserId
  pending_in s cycle_id [] = []
  pending_in s cycle_id (g ∷ gs) =
      let rest = pending_in s cycle_id gs in
      if is_pending (get_giver_cycle s cycle_id g) then g ∷ rest else rest

  abbrev pub second_phase : ℕ → List UserId → Seen → Result CycleId × Db → Result (Unit {0}) × State
  second_phase n gs seen (ok cycle_id, s) =
      (ok tt, check_all n (some cycle_id) gs (record { seen = seen; db = s }))
  second_phase n gs seen (err e, s) = (err e, record { seen = seen; db = s })

  -- The sleep changes nothing here.
  abbrev pub confirm : ℕ → List UserId → State → Result (Unit {0}) × State
  confirm n [] w = (ok tt, w)
  confirm n (g ∷ gs) w = second_phase n (g ∷ gs) w.seen (cycle_of n none w.db)

  abbrev pub first_phase : ℕ → ℕ → Seen → Result CycleId × Db → Result (Unit {0}) × State
  first_phase n m seen (err e, s) = (err e, record { seen = seen; db = s })
  first_phase n m seen (ok cycle_id, s) =
      let w =
        check_all n (some cycle_id) (list_giver_ids s.giver_pats)
          (record { seen = seen; db = s }) in
      confirm m (pending_in w.db cycle_id (list_giver_ids w.db.giver_pats)) w

  abbrev pub run_with : Bool → ℕ → ℕ → State → Result (Unit {0}) × State
  run_with true n m w = first_phase n m w.seen (cycle_of n none w.db)
  run_with false n m w = (ok tt, check_all n none (list_giver_ids w.db.giver_pats) w)

  -- The checks of the two phases are numbered from `n` and from `m`.
  unfoldable pub run_once : ℕ → ℕ → State → Result (Unit {0}) × State
  run_once n m w = run_with checker.has_engine n m w
