-- ===== src/Proxy/Gate/Sound.antt =====
-- The gate lets a billable request through only with credit behind it.
use ctc.Common.{
  ℕ, ◌≡◌, refl, inl, inr, subst, true, false, ◌||◌, Bool-cases, Option, none, some, Option-cases,
  List, [], find_first, leb, arith,
}
use ctc.Domain.{CycleId, Time, Cycle}
use ctc.Store.{Db, Result, ok, err, Error}
use ctc.Engine.Cycle.{ensure_active_cycle}
use ctc.Routing.{Source, ConsumerIdentity, Health, is_dead}
use ctc.Routing.Select.{PatRegistry, ParticipantsMode, select_source, bucket_has_headroom}
use ctc.Routing.Select.Gate.{select_source-IsUsable}
use ctc.Routing.Pin.{SessionKey, SessionPin, has_key, sweep_expired_pins, pinned_source, usable_pin}
use ctc.Proxy.Gate.{
  GateState, Outside, Verdict, raised, blocked, admitted, candidate_givers, prefetch, verdict_of,
  or_select, choose, pin_key_of, with_consumer, on_cycle, gate,
}

module _ (world : Outside) (pats : PatRegistry) (ttl : ℕ) (mode : ParticipantsMode) where
  abbrev Backed : Db → CycleId → Health → Source → Type 0
  Backed s c health source =
      (bucket_has_headroom s c source ≡ true) × (is_dead health source.giver_id ≡ false)

  -- The health of the candidates in the cycle `c` and the state after they were checked.
  abbrev pub checked : Cycle → ConsumerIdentity → Db → GateState → Health × GateState
  checked c u s st =
      prefetch world pats ttl mode 0 c.id (candidate_givers s c.id u) (λ _. none)
        (record st { db = s })

  -- The cycle that the gate works in, and the tables then.
  abbrev pub Opens : GateState → Cycle → Db → Type 0
  Opens st c s = ensure_active_cycle world.cal world.pct world.now st.db ≡ (ok c, s)

  abbrev pub pinned_at : Option ℕ → Cycle → ConsumerIdentity → Health × GateState → Option Source
  pinned_at session c u (health, st) =
      (pinned_source (pin_key_of world pats ttl mode u session) st.db (some c.id) health world.now
        st.pins).0

  abbrev pub selected_at : Cycle → ConsumerIdentity → Health × GateState → Option Source
  selected_at c u (health, st) = select_source pats health [] mode st.db c.id u

  -- What the verdict on a request says, with the state before.
  pub data IsSound (consumer : Option ConsumerIdentity) (session : Option ℕ) (st : GateState)
      : Verdict → Type 0 where
    crashed :
        {e : Error}
        → (ensure_active_cycle world.cal world.pct world.now st.db).0 ≡ err e
        → IsSound consumer session st (raised e)
    unknown : consumer ≡ none → IsSound consumer session st (blocked 401)
    no_credit :
        (c : Cycle) (u : ConsumerIdentity) (s : Db)
        → consumer ≡ some u
        → Opens st c s
        → pinned_at session c u (checked c u s st) ≡ none
        → selected_at c u (checked c u s st) ≡ none
        → IsSound consumer session st (blocked 402)
    backed :
        (c : Cycle) (u : ConsumerIdentity) (s : Db) (source : Source)
        → consumer ≡ some u
        → Opens st c s
        → Backed (checked c u s st).1.db c.id (checked c u s st).0 source
        → IsSound consumer session st (admitted c u (checked c u s st).0 source)

  usable_pin-Backed :
      (s : Db) (c : CycleId) (health : Health) (now : Time) (o : Option SessionPin)
      {source : Source}
      → usable_pin s (some c) health now o ≡ some source
      → Backed s c health source
  unfolding usable_pin
  usable_pin-Backed s c health now none h = absurd (ground (arith, h))
  usable_pin-Backed s c health now (some p) {source} h =
      elim (Bool-cases (leb p.expires_at now || is_dead health p.source.giver_id)) [
        | inl out ↦ absurd (ground (arith, h, out))
        | inr fit ↦ elim (Bool-cases (bucket_has_headroom s c p.source)) [
          | inl room ↦
              subst (Backed s c health) (some_inj (rw (fit, room) at h)) (room, ground (arith, fit))
          | inr empty ↦ absurd (ground (arith, h, fit, empty))
        ]
      ]
    where
      some_inj : {x y : Source} → ◌≡◌ {A = Option Source} (some x) (some y) → x ≡ y
      some_inj k = ground (arith, k)

  pinned_source-Backed :
      (key : Option SessionKey) (s : Db) (c : CycleId) (health : Health) (now : Time)
      (pins : List SessionPin) {source : Source}
      → (pinned_source key s (some c) health now pins).0 ≡ some source
      → Backed s c health source
  unfolding pinned_source
  pinned_source-Backed none s c health now pins h = absurd (ground (arith, h))
  pinned_source-Backed (some k) s c health now pins h =
      usable_pin-Backed s c health now (find_first (has_key k) (sweep_expired_pins now pins)) h

  module _ (session : Option ℕ) (c : Cycle) (u : ConsumerIdentity) (s : Db) (st : GateState)
      (opened : Opens st c s) where
    chosen-IsSound :
        (pinned : Option Source)
        → pinned_at session c u (checked c u s st) ≡ pinned
        → IsSound (some u) session st (
            verdict_of world pats ttl mode c u (checked c u s st).0 (
              or_select world pats ttl mode
                (checked c u s st).1.db
                c
                u
                (checked c u s st).0
                pinned))
    chosen-IsSound (some source) e = backed c u s source refl opened (
        pinned_source-Backed (pin_key_of world pats ttl mode u session) (checked c u s st).1.db c.id
          (checked c u s st).0 world.now (checked c u s st).1.pins e)
    chosen-IsSound none e = elim (Option-cases (selected_at c u (checked c u s st))) [
      | inl nothing ↦ rw nothing (no_credit c u s refl opened e nothing)
      | inr (source, found) ↦
          let usable =
            select_source-IsUsable pats (checked c u s st).0 [] (checked c u s st).1.db c.id mode u
              found in
          rw found (backed c u s source refl opened (usable.headroom, usable.alive))
    ]

    choose-IsSound :
        IsSound
          (some u)
          session
          st
          (choose world pats ttl mode
            (pin_key_of world pats ttl mode u session)
            c
            u
            (checked c u s st).0
            (checked c u s st).1).0
    unfolding choose
    choose-IsSound = chosen-IsSound (pinned_at session c u (checked c u s st)) refl

  with_consumer-IsSound :
      (consumer : Option ConsumerIdentity) (session : Option ℕ) (c : Cycle) (s : Db)
      (st : GateState)
      → Opens st c s
      → IsSound consumer session st
          (with_consumer world pats ttl mode consumer session c (record st { db = s })).0
  with_consumer-IsSound none session c s st opened = unknown refl
  with_consumer-IsSound (some u) session c s st opened = choose-IsSound session c u s st opened

  on_cycle-IsSound :
      (consumer : Option ConsumerIdentity) (session : Option ℕ) (st : GateState) (r : Result Cycle)
      (s : Db)
      → ensure_active_cycle world.cal world.pct world.now st.db ≡ (r, s)
      → IsSound consumer session st (on_cycle world pats ttl mode consumer session st (r, s)).0
  on_cycle-IsSound consumer session st (ok c) s e = with_consumer-IsSound consumer session c s st e
  on_cycle-IsSound consumer session st (err x) s e = crashed (λ i. (e i).0)

  -- In the active cycle, after the quotas of the candidates were checked, a billable request is
  -- answered 401 only if its token resolves to no consumer, and 402 only if neither a pinned source
  -- can be used nor another be selected for the consumer; it is let through only with a source whose
  -- bucket has headroom and whose giver is not reported dead, whether it is pinned or selected. It
  -- raises only what ensure_active_cycle raises.
  pub gate-IsSound :
      (consumer : Option ConsumerIdentity) (session : Option ℕ) (st : GateState)
      → IsSound consumer session st (gate world pats ttl mode consumer session st).0
  unfolding gate
  gate-IsSound consumer session st =
      let run = ensure_active_cycle world.cal world.pct world.now st.db in
      on_cycle-IsSound consumer session st run.0 run.1 refl
