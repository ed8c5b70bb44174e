-- ===== src/Proxy/Gate.antt =====
-- proxy.py: candidate_givers, reconcile_candidate, and the part of _serve that lets a billable request
-- through or blocks it. ensure_active_cycle returns a cycle or raises, so the answer 503 for no cycle
-- cannot come up. The live quotas are kept, as they are where there is a database. The set of the
-- candidates is a list with no giver twice, and what answers from outside is indexed by their number.
use ctc.Common.{
  ℕ, zero, suc, ◌+◌, ◌≡◌, ◌⊎◌, refl, inl, inr, ◌∙◌, sym, subst, Bool, true, false, not, ◌||◌,
  Bool-cases, Option, none, some, Option-cases, List, [], ◌∷◌, ℤ, ◌==◌, contains, arith,
  if◌then◌else◌,
}
use ctc.Domain.{UserId, CycleId, EventId, Time, Cycle, Grant}
use ctc.Store.{Db, Result, ok, err, Error}
use ctc.Quota.{UserInfo, QuotaValue, Cache, get}
use ctc.Engine.{active_grants}
use ctc.Engine.Pledge.{Live, sync_quota_ceiling}
use ctc.Engine.Reconcile.{Seen, reconcile_giver}
use ctc.Engine.Cycle.{Calendar, ensure_active_cycle}
use ctc.Routing.{Source, ConsumerIdentity, Health, is_dead}
use ctc.Routing.Select.{PatRegistry, ParticipantsMode, select_source, bucket_has_headroom}
use ctc.Routing.Select.Gate.{IsUsable, select_source-IsUsable}
use ctc.Routing.Pin.{SessionKey, SessionPin, pinned_source, usable_pin}
pub mod Sound

-- `set.add`
abbrev pub add_id : UserId → List UserId → List UserId
add_id u ids = if contains ids u then ids else u ∷ ids

unfoldable pub donors_of : List Grant → List UserId
donors_of [] = []
donors_of (g ∷ gs) = add_id g.donor_id (donors_of gs)

unfoldable pub candidate_givers : Db → CycleId → ConsumerIdentity → List UserId
candidate_givers s cycle_id consumer =
    let donors = donors_of (active_grants s cycle_id consumer.user_id) in
    if consumer.is_giver then add_id consumer.user_id donors else donors

pub record GateState : Type 0 where
  pub db : Db
  pub seen : Seen
  pub cache : Cache
  pub pins : List SessionPin

pub record Outside : Type 0 where
  pub fetch_user : ℕ → ℕ → Option UserInfo
  pub new_id : ℕ → EventId
  pub now : Time
  pub cal : Calendar
  pub pct : ℕ

pub data Verdict : Type 0 where
  raised : Error → Verdict
  blocked : ℕ → Verdict
  admitted : Cycle → ConsumerIdentity → Health → Source → Verdict

module _ (world : Outside) (pats : PatRegistry) (ttl : ℕ) (mode : ParticipantsMode) where
  -- What either call raises is logged.
  abbrev pub heal_with_live :
      ℕ → CycleId → UserId → Option QuotaValue → GateState → Option ℤ × GateState
  heal_with_live n cycle_id giver_id none st = (none, st)
  heal_with_live n cycle_id giver_id (some v) st =
      let live : Live = record { entitlement = v.entitlement; remaining = v.remaining } in
      let synced = (sync_quota_ceiling cycle_id giver_id (some live) st.db).1 in
      let (seen, r) =
        reconcile_giver (world.new_id n) cycle_id giver_id (some live) world.now false st.seen
          synced in
      (v.remaining, record st { db = r.1; seen = seen })

  unfoldable pub reconcile_candidate : ℕ → CycleId → UserId → GateState → Option ℤ × GateState
  reconcile_candidate n cycle_id giver_id st =
      let (v, cache) =
        get ttl pats.pat_for (world.fetch_user n) giver_id world.now world.now st.cache in
      heal_with_live n cycle_id giver_id v (record st { cache = cache })

  -- `health[gid] = ...`
  abbrev pub set_health : UserId → Option ℤ → Health → Health
  set_health giver_id r health = λ u. if u == giver_id then r else health u

  -- The loop over the candidates.
  unfoldable pub prefetch : ℕ → CycleId → List UserId → Health → GateState → Health × GateState
  prefetch n cycle_id [] health st = (health, st)
  prefetch n cycle_id (g ∷ gs) health st =
      let (r, st') = reconcile_candidate n cycle_id g st in
      prefetch (suc n) cycle_id gs (set_health g r health) st'

  abbrev pub verdict_of : Cycle → ConsumerIdentity → Health → Option Source → Verdict
  verdict_of cycle consumer health none = blocked 402
  verdict_of cycle consumer health (some source) = admitted cycle consumer health source

  abbrev pub or_select : Db → Cycle → ConsumerIdentity → Health → Option Source → Option Source
  or_select s cycle consumer health none = select_source pats health [] mode s cycle.id consumer
  or_select s cycle consumer health (some source) = some source

  -- The pinned source, and where there is none the selected one.
  unfoldable pub choose :
      Option SessionKey → Cycle → ConsumerIdentity → Health → GateState → Verdict × GateState
  choose pin_key cycle consumer health st =
      let (pinned, pins) = pinned_source pin_key st.db (some cycle.id) health world.now st.pins in
      (
        verdict_of cycle consumer health (or_select st.db cycle consumer health pinned),
        record st { pins = pins },
      )

  -- `(consumer.user_id, client_session_id)`, where the client sends a session.
  abbrev pub pin_key_of : ConsumerIdentity → Option ℕ → Option SessionKey
  pin_key_of consumer none = none
  pin_key_of consumer (some session) = some (consumer.user_id, session)

  abbrev pub with_consumer :
      Option ConsumerIdentity → Option ℕ → Cycle → GateState → Verdict × GateState
  with_consumer none session cycle st = (blocked 401, st)
  with_consumer (some consumer) session cycle st =
      let (health, st') =
        prefetch 0 cycle.id (candidate_givers st.db cycle.id consumer) (λ _. none) st in
      choose (pin_key_of consumer session) cycle consumer health st'

  abbrev pub on_cycle :
      Option ConsumerIdentity → Option ℕ → GateState → Result Cycle × Db → Verdict × GateState
  on_cycle consumer session st (err e, s) = (raised e, record st { db = s })
  on_cycle consumer session st (ok cycle, s) =
      with_consumer consumer session cycle (record st { db = s })

  -- For a billable request, with the consumer that its token resolves to and its session.
  unfoldable pub gate : Option ConsumerIdentity → Option ℕ → GateState → Verdict × GateState
  gate consumer session st =
      on_cycle consumer session st (ensure_active_cycle world.cal world.pct world.now st.db)
