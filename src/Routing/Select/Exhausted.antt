-- ===== src/Routing/Select/Exhausted.antt =====
-- No source is selected only when no grant could be.
use ctc.Common.{
  ℕ, ◌≡◌, ◌⊎◌, inl, inr, true, false, not, ◌&&◌, Bool-cases, Option, none, some, Option-cases, List,
  [], ◌∷◌, pos, ltb_ℤ, contains, All, arith,
}
use ctc.Domain.{CycleId, UserId, Grant}
use ctc.Store.{Db}
use ctc.Engine.{personal_remaining, active_grants}
use ctc.Routing.{Source, ConsumerIdentity, Health, is_dead}
use ctc.Routing.Select.{
  PatRegistry, ParticipantsMode, is_givers_only, source_of_own, first_grant, grant_source,
  select_source,
}

module _ (pats : PatRegistry) (health : Health) (exclude : List ℕ) where
  -- A grant that is excluded, or whose giver is reported dead or has no PAT.
  pub IsSkipped : Grant → Type 0
  IsSkipped g =
      (contains exclude g.id ≡ true)
      ⊎ (is_dead health g.donor_id ≡ true)
      ⊎ (pats.pat_for g.donor_id ≡ none)

  first_grant-none :
      (gs : List Grant) → first_grant pats health exclude gs ≡ none → All IsSkipped gs
  unfolding first_grant IsSkipped
  first_grant-none [] h = tt
  first_grant-none (g ∷ gs) h = elim (Bool-cases (contains exclude g.id)) [
    | inl e ↦ (inl e, first_grant-none gs (rw e at h))
    | inr e ↦ elim (Bool-cases (is_dead health g.donor_id)) [
      | inl d ↦ (inr (inl d), first_grant-none gs (rw (e, d) at h))
      | inr d ↦ elim (Option-cases (pats.pat_for g.donor_id)) [
        | inl no_pat ↦ (inr (inr no_pat), first_grant-none gs (rw (e, d, no_pat) at h))
        | inr (p, has_pat) ↦ absurd (no_some (rw (e, d, has_pat) at h))
      ]
    ]
  ]
    where
      no_some : {x : Source} → ◌≡◌ {A = Option Source} (some x) none → ⊥
      no_some k = ground (arith, k)

  source_of_own-none :
      (u : UserId) (later : Option Source)
      → source_of_own u (pats.pat_for u) later ≡ none
      → later ≡ none
  source_of_own-none u later h = elim (Option-cases (pats.pat_for u)) [
    | inl e ↦ rw e at h
    | inr (p, e) ↦ absurd (ground (arith, e, h))
  ]

  module _ (s : Db) (c : CycleId) where
    select_source-grant :
        (mode : ParticipantsMode) (consumer : ConsumerIdentity)
        → (is_givers_only mode && not consumer.is_giver) ≡ false
        → select_source pats health exclude mode s c consumer ≡ none
        → grant_source pats health exclude s c consumer.user_id ≡ none
    unfolding select_source
    select_source-grant mode consumer opened h =
        let u = consumer.user_id in
        elim (Bool-cases (not consumer.is_giver)) [
          | inl guest ↦ rw (opened, guest) at h
          | inr host ↦ elim (Bool-cases (contains exclude u)) [
            | inl out ↦ rw (opened, host, out) at h
            | inr in_play ↦ elim (Bool-cases (is_dead health u)) [
              | inl d ↦ rw (opened, host, in_play, d) at h
              | inr d ↦ elim (Bool-cases (ltb_ℤ (pos 0) (personal_remaining s c u))) [
                | inl credit ↦
                    source_of_own-none u (grant_source pats health exclude s c u)
                      (rw (opened, host, in_play, d, credit) at h)
                | inr broke ↦ rw (opened, host, in_play, d, broke) at h
              ]
            ]
          ]
        ]

    -- When no source is selected for a consumer that the mode admits, every active grant of the
    -- consumer is excluded, or its giver is reported dead or has no PAT.
    pub select_source-none :
        (mode : ParticipantsMode) (consumer : ConsumerIdentity)
        → (is_givers_only mode && not consumer.is_giver) ≡ false
        → select_source pats health exclude mode s c consumer ≡ none
        → All IsSkipped (active_grants s c consumer.user_id)
    unfolding grant_source
    select_source-none mode consumer opened h =
        first_grant-none (active_grants s c consumer.user_id)
          (select_source-grant mode consumer opened h)
