-- ===== src/Proxy/Failover/Sources.antt =====
-- The forward loop makes at most one attempt for each giver that was checked and one more, and never
-- tries a source twice.
use ctc.Common.{
  ℕ, zero, suc, ◌≡◌, ◌≤◌, ◌⊎◌, refl, inl, inr, true, false, not, ◌&&◌, Bool-cases, Option, none,
  some, Option-cases, List, [], ◌∷◌, contains, length, subst, arith, ◌==◌,
}
use ctc.Domain.{UserId, CycleId}
use ctc.Routing.{Source, ConsumerIdentity, Health}
use ctc.Routing.Select.{PatRegistry, ParticipantsMode, key_of}
use ctc.Routing.Select.Gate.{select_source-IsUsable}
use ctc.Routing.Pin.{SessionKey}
use ctc.Proxy.{
  is_falsy, is_quota_exceeded_402, is_invalid_auto_mode_selector_401, is_pat_rejected_401,
}
use ctc.Proxy.Failover.{
  World, Response, Reply, no_answer, answered, Flight, Next, stop, retry, Ending, sent_of,
  reconcile_exhausted, next_source, excluding, reselect, after_402, healed_flight,
  bootstrap_session_token, heal_from, after_401, after_reply, forward,
}

-- No source of the list has a key that is excluded or that an earlier one has.
abbrev pub AreNew : List ℕ → List Source → Type 0
AreNew exclude [] = Unit
AreNew exclude (x ∷ xs) = (contains exclude (key_of x) ≡ false) × AreNew (key_of x ∷ exclude) xs

module _ (world : World) (pats : PatRegistry) (ttl : ℕ) (mode : ParticipantsMode) (health : Health)
    (cycle_id : CycleId) (consumer : ConsumerIdentity) (pin_key : Option SessionKey) where
  -- A retry excludes the source that failed and goes on with one that is not excluded.
  record Moves (f f' : Flight) : Type 0 where
    grown : f'.exclude ≡ key_of f.source ∷ f.exclude
    fresh : contains (key_of f.source ∷ f.exclude) (key_of f'.source) ≡ false

  retry_inj : {f g : Flight} → retry f ≡ retry g → f ≡ g
  retry_inj h = cc

  not_retry : {e : Ending} {f g : Flight} → stop e f ≡ retry g → ⊥
  not_retry h = ground (arith, h)

  next_cases :
      (x : Next) → ((e : Ending) × (f : Flight) × (x ≡ stop e f)) ⊎ ((f : Flight) × (x ≡ retry f))
  next_cases (stop e f) = inl (e, f, refl)
  next_cases (retry f) = inr (f, refl)

  next_source-allowed :
      (f : Flight) {nxt : Source}
      → next_source world pats ttl mode health cycle_id consumer pin_key f ≡ some nxt
      → contains f.exclude (key_of nxt) ≡ false
  unfolding next_source
  next_source-allowed f h =
      (select_source-IsUsable pats health f.exclude f.db cycle_id mode consumer h).allowed

  -- Going on from the state that excludes the source that failed.
  went_on :
      (f f' : Flight) {nxt : Source}
      → contains (key_of f.source ∷ f.exclude) (key_of nxt) ≡ false
      → f'.exclude ≡ key_of f.source ∷ f.exclude
      → f'.source ≡ nxt
      → Moves f f'
  went_on f f' fresh grown same = record { grown = grown; fresh = rw same fresh }

  reselect-Moves :
      (r : Response) (f : Flight) {f' : Flight}
      → reselect world pats ttl mode health cycle_id consumer pin_key r f ≡ retry f'
      → Moves f f'
  unfolding reselect excluding
  reselect-Moves r f h =
      elim (Option-cases (
        next_source world pats ttl mode health cycle_id consumer pin_key
          (excluding world pats ttl mode health cycle_id consumer pin_key f))) [
            | inl e ↦ absurd (not_retry (rw e at h))
            | inr (nxt, e) ↦ subst (Moves f) (retry_inj (rw e at h)) (
                went_on f
                  (record (excluding world pats ttl mode health cycle_id consumer pin_key f) {
                    source = nxt;
                  })
                  (next_source-allowed
                    (excluding world pats ttl mode health cycle_id consumer pin_key f) e)
                  refl refl)
          ]

  -- Settling the burn of an exhausted giver changes neither the source nor what is excluded.
  Moves-reconcile_exhausted :
      (n : ℕ) (u : UserId) (f f' : Flight)
      → Moves (reconcile_exhausted world pats ttl cycle_id n u f) f'
      → Moves f f'
  unfolding reconcile_exhausted
  Moves-reconcile_exhausted n u f f' m = record { grown = m.grown; fresh = m.fresh }

  after_402-Moves :
      (n : ℕ) (r : Response) (f : Flight) {f' : Flight}
      → after_402 world pats ttl mode health cycle_id consumer pin_key n r f ≡ retry f'
      → Moves f f'
  unfolding after_402
  after_402-Moves n r f {f'} h =
      elim (Option-cases (is_quota_exceeded_402 world.loads r.status r.body)) [
        | inl e ↦ absurd (not_retry (rw e at h))
        | inr (true, e) ↦ Moves-reconcile_exhausted n f.source.giver_id f f' (
            reselect-Moves r (reconcile_exhausted world pats ttl cycle_id n f.source.giver_id f)
              (rw e at h))
        | inr (false, e) ↦ absurd (not_retry (rw e at h))
      ]

  heal-Moves :
      (n : ℕ) (r : Response) (f : Flight) {f' : Flight}
      → heal_from world pats ttl mode health cycle_id consumer pin_key n r
          (excluding world pats ttl mode health cycle_id consumer pin_key f)
          (next_source world pats ttl mode health cycle_id consumer pin_key
            (excluding world pats ttl mode health cycle_id consumer pin_key f))
        ≡ retry f'
      → Moves f f'
  unfolding excluding healed_flight
  heal-Moves n r f h =
      elim (Option-cases (
        next_source world pats ttl mode health cycle_id consumer pin_key
          (excluding world pats ttl mode health cycle_id consumer pin_key f))) [
            | inl e ↦ absurd (not_retry (rw e at h))
            | inr (nxt, e) ↦ elim (Option-cases (bootstrap_session_token world n nxt)) [
              | inl failed ↦ absurd (not_retry (rw (e, failed) at h))
              | inr (healed, done) ↦ subst (Moves f) (retry_inj (rw (e, done) at h)) (
                  went_on f
                    (healed_flight world pats ttl mode health cycle_id consumer pin_key n
                      (excluding world pats ttl mode health cycle_id consumer pin_key f) nxt healed)
                    (next_source-allowed
                      (excluding world pats ttl mode health cycle_id consumer pin_key f) e)
                    refl refl)
            ]
          ]

  after_401-Moves :
      (n : ℕ) (r : Response) (f : Flight) {f' : Flight}
      → after_401 world pats ttl mode health cycle_id consumer pin_key n r f ≡ retry f'
      → Moves f f'
  unfolding after_401
  after_401-Moves n r f h =
      elim (Bool-cases
        (not (is_falsy f.token) && is_invalid_auto_mode_selector_401 r.status r.body)) [
          | inl e ↦ heal-Moves n r f (rw e at h)
          | inr e ↦ elim (Bool-cases (is_pat_rejected_401 r.status r.body)) [
            | inl p ↦ reselect-Moves r f (rw (e, p) at h)
            | inr p ↦ absurd (not_retry (rw (e, p) at h))
          ]
        ]

  after_reply-Moves :
      (n : ℕ) (reply : Reply) (f : Flight) {f' : Flight}
      → after_reply world pats ttl mode health cycle_id consumer pin_key n reply f ≡ retry f'
      → Moves f f'
  unfolding after_reply
  after_reply-Moves n no_answer f h = absurd (not_retry h)
  after_reply-Moves n (answered r none) f h = elim (Bool-cases (r.status == 402)) [
    | inl e ↦ after_402-Moves n r f (rw e at h)
    | inr e ↦ elim (Bool-cases (r.status == 401)) [
      | inl p ↦ after_401-Moves n r f (rw (e, p) at h)
      | inr p ↦ absurd (not_retry (rw (e, p) at h))
    ]
  ]
  after_reply-Moves n (answered r (some state)) f h = elim (Bool-cases (r.status == 402)) [
    | inl e ↦ absurd (not_retry (rw e at h))
    | inr e ↦ elim (Bool-cases (r.status == 401)) [
      | inl p ↦ absurd (not_retry (rw (e, p) at h))
      | inr p ↦ absurd (not_retry (rw (e, p) at h))
    ]
  ]

  -- Whatever the upstream answers, from a first source that is not excluded: the loop tries that source
  -- first, then at most as many others as attempts are left, and no source whose key is excluded or
  -- was tried before.
  pub forward-AreNew :
      (left n : ℕ) (f : Flight)
      → contains f.exclude (key_of f.source) ≡ false
      → (later : List Source) × ((forward world pats ttl mode health cycle_id consumer pin_key left
            n f).0
          ≡ f.source ∷ later)
        × AreNew f.exclude (f.source ∷ later)
        × (length later ≤ left)
  unfolding forward length
  forward-AreNew zero n f new = ([], refl, (new, tt), omega arith)
  forward-AreNew (suc left) n f new =
      elim (next_cases (
        after_reply world pats ttl mode health cycle_id consumer pin_key n
          (world.upstream n (sent_of f)) f)) [
            | inl (e, f', stopped) ↦ ([], rw stopped refl, (new, tt), omega arith)
            | inr (f', again) ↦
                let m = after_reply-Moves n (world.upstream n (sent_of f)) f again in
                let (later, ran, fresh, few) =
                  forward-AreNew left (suc n) f' (rw m.grown m.fresh) in
                (
                  f'.source ∷ later,
                  rw again (rw ran refl),
                  (new, subst (λ ex. AreNew ex (f'.source ∷ later)) m.grown fresh),
                  omega (arith, few),
                )
          ]
