-- ===== src/Routing/Select/Gate.antt =====
-- The gate of select_source is the one that a pinned source is checked against.
use ctc.Common.{
  ℕ, ◌≡◌, inl, inr, true, false, not, ◌&&◌, subst, Bool-cases, Option, none, some, Option-cases,
  List, [], ◌∷◌, pos, ltb_ℤ, contains, filter, All, arith,
}
use ctc.Domain.{UserId, CycleId, own, grant, Grant}
use ctc.Store.{Db, grants_for_recipient}
use ctc.Engine.{personal_remaining, grant_remaining, active_grants}
use ctc.Routing.{Source, ConsumerIdentity, Health, is_dead}
use ctc.Routing.Select.{
  key_of, PatRegistry, ParticipantsMode, is_givers_only, source_of_own, first_grant, grant_source,
  select_source, bucket_has_headroom,
}

module _ (pats : PatRegistry) (health : Health) (exclude : List ℕ) (s : Db) (c : CycleId) where
  -- A source that may be used: it is not excluded, its bucket has credit, its giver is not dead, and
  -- its PAT is the giver's.
  pub record IsUsable (source : Source) : Type 0 where
    pub allowed : contains exclude (key_of source) ≡ false
    pub headroom : bucket_has_headroom s c source ≡ true
    pub alive : is_dead health source.giver_id ≡ false
    pub forwarded : pats.pat_for source.giver_id ≡ some source.pat

  some_inj : {x y : Source} → ◌≡◌ {A = Option Source} (some x) (some y) → x ≡ y
  some_inj h = ground (arith, h)

  active_rows :
      (gs : List Grant)
      → All
          (λ g. ltb_ℤ (pos 0) (grant_remaining s c g.id) ≡ true)
          (filter (λ g. ltb_ℤ (pos 0) (grant_remaining s c g.id)) gs)
  unfolding filter
  active_rows [] = tt
  active_rows (g ∷ gs) = elim (Bool-cases (ltb_ℤ (pos 0) (grant_remaining s c g.id))) [
    | inl e ↦ rw e (e, active_rows gs)
    | inr e ↦ rw e (active_rows gs)
  ]

  first_grant-IsUsable :
      (gs : List Grant) {source : Source}
      → All (λ g. ltb_ℤ (pos 0) (grant_remaining s c g.id) ≡ true) gs
      → first_grant pats health exclude gs ≡ some source
      → IsUsable source
  unfolding first_grant bucket_has_headroom
  first_grant-IsUsable [] k h = absurd (ground arith)
  first_grant-IsUsable (g ∷ gs) {source} k h = elim (Bool-cases (contains exclude g.id)) [
    | inl e ↦ first_grant-IsUsable gs k.1 (rw e at h)
    | inr e ↦ elim (Bool-cases (is_dead health g.donor_id)) [
      | inl d ↦ first_grant-IsUsable gs k.1 (rw (e, d) at h)
      | inr d ↦ elim (Option-cases (pats.pat_for g.donor_id)) [
        | inl no_pat ↦ first_grant-IsUsable gs k.1 (rw (e, d, no_pat) at h)
        | inr (p, has_pat) ↦
            let picked : Source = record {
              bucket = grant;
              giver_id = g.donor_id;
              pat = p;
              grant_id = some g.id;
            } in
            let usable : IsUsable picked = record {
              allowed = e;
              headroom = k.0;
              alive = d;
              forwarded = has_pat;
            } in
            subst IsUsable (some_inj (rw (e, d, has_pat) at h)) usable
      ]
    ]
  ]

  grant_source-IsUsable :
      (u : UserId) {source : Source}
      → grant_source pats health exclude s c u ≡ some source
      → IsUsable source
  unfolding grant_source active_grants
  grant_source-IsUsable u h =
      first_grant-IsUsable (active_grants s c u) (active_rows (grants_for_recipient s c u)) h

  own_or_grant-IsUsable :
      (u : UserId) {source : Source}
      → contains exclude u ≡ false
      → is_dead health u ≡ false
      → ltb_ℤ (pos 0) (personal_remaining s c u) ≡ true
      → source_of_own u (pats.pat_for u) (grant_source pats health exclude s c u) ≡ some source
      → IsUsable source
  unfolding bucket_has_headroom
  own_or_grant-IsUsable u in_play d credit h = elim (Option-cases (pats.pat_for u)) [
    | inl no_pat ↦ grant_source-IsUsable u (rw no_pat at h)
    | inr (p, has_pat) ↦
        let picked : Source = record { bucket = own; giver_id = u; pat = p; grant_id = none } in
        let usable : IsUsable picked = record {
          allowed = in_play;
          headroom = credit;
          alive = d;
          forwarded = has_pat;
        } in
        subst IsUsable (some_inj (rw has_pat at h)) usable
  ]

  -- A source that is selected is not excluded; it has credit in its bucket, a giver who is not
  -- reported dead, and the giver's own PAT.
  pub select_source-IsUsable :
      (mode : ParticipantsMode) (consumer : ConsumerIdentity) {source : Source}
      → select_source pats health exclude mode s c consumer ≡ some source
      → IsUsable source
  unfolding select_source
  select_source-IsUsable mode consumer h =
      let u = consumer.user_id in
      elim (Bool-cases (is_givers_only mode && not consumer.is_giver)) [
        | inl closed ↦ absurd (ground arith)
        | inr opened ↦ elim (Bool-cases (not consumer.is_giver)) [
          | inl guest ↦ grant_source-IsUsable u (rw (opened, guest) at h)
          | inr host ↦ elim (Bool-cases (contains exclude u)) [
            | inl out ↦ grant_source-IsUsable u (rw (opened, host, out) at h)
            | inr in_play ↦ elim (Bool-cases (is_dead health u)) [
              | inl d ↦ grant_source-IsUsable u (rw (opened, host, in_play, d) at h)
              | inr d ↦ elim (Bool-cases (ltb_ℤ (pos 0) (personal_remaining s c u))) [
                | inl credit ↦
                    own_or_grant-IsUsable u in_play d credit
                      (rw (opened, host, in_play, d, credit) at h)
                | inr broke ↦ grant_source-IsUsable u (rw (opened, host, in_play, d, broke) at h)
              ]
            ]
          ]
        ]
      ]
