-- ===== src/Health/Dead.antt =====
-- A check that finds a PAT dead takes what its giver pledged out of the pool.
use ctc.Common.{
  ℕ, ◌≡◌, refl, ◌∙◌, subst, sym, inl, inr, Bool, true, false, Bool-cases, Option, none, some, List,
  [], ◌∷◌, ◌==◌, update_where, find, find_first, contains, pos, arith,
}
use ctc.Domain.{UserId, CycleId, Time, GiverCycle}
use ctc.Store.{
  Db, Result, ok, HealthStatus, valid, expired_pat, forbidden, no_entitlement,
  no_copilot_permission, GiverPat, get_request, get_giver_cycle,
}
use ctc.Store.Pats.{set_pat_health_ok, get_giver_pat}
use ctc.Store.Query.{
  pool_consumed_from, pool_granted_out, granted_out_by_source, donor_charge, moved, leaf_charge,
  used,
}
use ctc.Quota.{UserInfo}
use ctc.Engine.{is_dead_verdict, dead_in, dead_pat_givers, pledge_used, pledge_remaining}
use ctc.Engine.Pledge.Range.{IsPledged}
use ctc.Engine.Pledge.Retract.{retracted, pledge_remaining-Retracted}
use ctc.Health.{
  Checker, State, classify, second_opinion, check_one, act_on, engine_with, check_with, on_answer,
  on_verdict, cycle_of, retract_dead_pledge,
}

-- The verdict is in the row that was there.
dead-written :
    (u : UserId) (v : HealthStatus) (now : Time) (ps : List GiverPat) {p : GiverPat}
    → is_dead_verdict (some v) ≡ true
    → find (λ p. p.user_id) u ps ≡ some p
    → contains
        (dead_in (
          update_where
            (λ p. p.user_id == u)
            (λ p. record p {
              health_status = some v;
              health_error = none;
              health_checked_at = some now;
            })
            ps))
        u
      ≡ true
unfolding find find_first contains dead_in update_where
dead-written u v now [] d h = absurd (ground (arith, h))
dead-written u v now (q ∷ ps) d h = elim (Bool-cases (q.user_id == u)) [
  | inl e ↦ rw (e, d, e) refl
  | inr e ↦ elim (Bool-cases (is_dead_verdict q.health_status)) [
    | inl k ↦ rw (e, k, e) (dead-written u v now ps d (rw e at h))
    | inr k ↦ rw (e, k) (dead-written u v now ps d (rw e at h))
  ]
]

module _ (checker : Checker) (n : ℕ) (g : UserId) (c : CycleId) where
  engine_with-engine :
      (b : Bool) (f : CycleId → State → State) (v : HealthStatus) (w : State)
      → b ≡ true
      → engine_with checker b n (some c) f v w ≡ (ok (some v), f c w)
  unfolding cycle_of
  engine_with-engine true f v w e = refl
  engine_with-engine false f v w e = absurd (ground (arith, e))

  act_on-dead :
      (body : Option UserInfo) (v : HealthStatus) (w : State)
      → checker.has_engine ≡ true
      → is_dead_verdict (some v) ≡ true
      → act_on checker n g (some c) body v w ≡ (ok (some v), retract_dead_pledge checker c g w)
  unfolding act_on is_dead_verdict
  act_on-dead body valid w e d = absurd (ground (arith, d))
  act_on-dead body expired_pat w e d = engine_with-engine checker.has_engine _ expired_pat w e
  act_on-dead body forbidden w e d = engine_with-engine checker.has_engine _ forbidden w e
  act_on-dead body no_entitlement w e d = engine_with-engine checker.has_engine _ no_entitlement w e
  act_on-dead body no_copilot_permission w e d =
      engine_with-engine checker.has_engine _ no_copilot_permission w e

  -- What a check leaves behind that found the PAT dead, for the row that the giver had.
  pub record Withdrawn (v : HealthStatus) (row : GiverCycle) (w : State)
      (r : Result (Option HealthStatus) × State) : Type 0 where
    pub returned : r.0 ≡ ok (some v)
    pub dead : contains (dead_pat_givers r.1.db) g ≡ true
    pub nothing_left : pledge_remaining r.1.db c g ≡ pos 0
    pub after :
        (row' : GiverCycle) × IsPledged r.1.db c g row'
        × (row'.quota ≡ row.quota)
        × (row'.pledge ≡ pledge_used w.db c g)

  IsPledged-set_pat_health_ok :
      (v : HealthStatus) (now : Time) (s : Db) {row : GiverCycle}
      → IsPledged s c g row
      → IsPledged (set_pat_health_ok g v now s) c g row
  unfolding set_pat_health_ok pledge_used get_giver_cycle pool_consumed_from pool_granted_out
      granted_out_by_source donor_charge moved leaf_charge used get_request
  IsPledged-set_pat_health_ok v now s h = record {
    found = h.found;
    covers = h.covers;
    within = h.within;
  }

  pledge_used-set_pat_health_ok :
      (v : HealthStatus) (now : Time) (s : Db)
      → pledge_used (set_pat_health_ok g v now s) c g ≡ pledge_used s c g
  unfolding set_pat_health_ok pledge_used pool_consumed_from pool_granted_out granted_out_by_source
      donor_charge moved leaf_charge used get_request
  pledge_used-set_pat_health_ok v now s = refl

  dead-set_pat_health_ok :
      (v : HealthStatus) (now : Time) (s s' : Db) {p : GiverPat}
      → is_dead_verdict (some v) ≡ true
      → get_giver_pat s g ≡ some p
      → s'.giver_pats ≡ (set_pat_health_ok g v now s).giver_pats
      → contains (dead_pat_givers s') g ≡ true
  unfolding set_pat_health_ok dead_pat_givers get_giver_pat
  dead-set_pat_health_ok v now s s' d found same =
      rw same (dead-written g v now s.giver_pats d found)

  retract-Withdrawn :
      (v : HealthStatus) (w : State) {row : GiverCycle} {p : GiverPat}
      → is_dead_verdict (some v) ≡ true
      → IsPledged w.db c g row
      → get_giver_pat w.db g ≡ some p
      → Withdrawn v row w (
        ok (some v),
        retract_dead_pledge checker c g
            (record w { db = set_pat_health_ok g v (checker.now n) w.db }),
      )
  unfolding retract_dead_pledge
  retract-Withdrawn v w {row} d pledged found =
      let s = set_pat_health_ok g v (checker.now n) w.db in
      let (s', r) = retracted s c g (IsPledged-set_pat_health_ok v (checker.now n) w.db pledged) in
      let (row', v', eq, ep) = r.after in
      subst (λ t. Withdrawn v row w (ok (some v), record { seen = w.seen; db = t }))
        (λ i. (sym r.returned i).1)
        (record {
          returned = refl;
          dead = dead-set_pat_health_ok v (checker.now n) w.db s' d found r.pats;
          nothing_left = pledge_remaining-Retracted r;
          after = (row', v', eq, ep ∙ pledge_used-set_pat_health_ok v (checker.now n) w.db);
        })

  -- With an engine, for a giver whose row is in range and whose PAT is stored: when the first endpoint
  -- gives a verdict, and that verdict, or the one that the second endpoint puts in its place, is a
  -- dead one, the check returns it, the giver is among the dead, and the pledge falls to what was drawn
  -- from it, with the quota as it was, so nothing of it is left.
  pub check_one-Withdrawn :
      (w : State) {row : GiverCycle} {p : GiverPat} {pat status : ℕ} {body : Option UserInfo}
      {v : HealthStatus}
      → checker.has_engine ≡ true
      → checker.pat_for g ≡ some pat
      → checker.fetch_raw n pat ≡ some (status, body)
      → classify status body ≡ some v
      → is_dead_verdict (some (second_opinion checker n pat v)) ≡ true
      → IsPledged w.db c g row
      → get_giver_pat w.db g ≡ some p
      → Withdrawn (second_opinion checker n pat v) row w (check_one checker n g (some c) w)
  unfolding check_one
  check_one-Withdrawn w {row} {pat = pat} {status = status} {body = body} {v = v} engine has answer
        verdict d pledged found =
      let v' = second_opinion checker n pat v in
      let acted =
        act_on-dead body v' (record w { db = set_pat_health_ok g v' (checker.now n) w.db }) engine
          d in
      let path =
        (λ i. check_with checker n g (some c) (has i) w)
        ∙ (λ i. on_answer checker n g (some c) pat (answer i) w)
        ∙ (λ i. on_verdict checker n g (some c) pat status body (verdict i) w)
        ∙ acted in
      subst (Withdrawn v' row w) (sym path) (retract-Withdrawn v' w d pledged found)
