-- ===== src/Engine/Cycle/Active.antt =====
-- After ensure_active_cycle the cycle that it returns is the only active one.
use ctc.Common.{
  ℕ, ◌≡◌, ◌<◌, refl, ◌⊎◌, inl, inr, Bool, true, false, Bool-cases, Option, none, some, Option-cases,
  List, [], ◌∷◌, ◌++◌, subst, find, update_where, ltb, leb, ◌==◌, ==→eq, is_none, insert_by,
  sort_by, filter, All, All-append, All-map, All-sort_by, All-update_where, ◌∙◌, sym, arith,
}
use ctc.Domain.{CycleId, Time, active, archived, Cycle}
use ctc.Store.{
  Db, ok, Action, transaction, pure, ◌>>◌, >>=-ok, is_active, first, active_cycle, get_cycle,
}
use ctc.Engine.Cycle.Seeding.{seed-cycles}
use ctc.Engine.{dead_pat_givers}
use ctc.Engine.Cycle.{
  Calendar, month_cycle, with_status, seed, open_row, open_month_cycle, roll_from, roll_over,
  ensure_active_cycle,
}

-- Every active cycle has this id.
abbrev pub OneActive : Db → CycleId → Type 0
OneActive s id = All (λ c. is_active c.status ≡ true → c.id ≡ id) s.cycles

abbrev NoneActive : Db → Type 0
NoneActive s = All (λ c. is_active c.status ≡ false) s.cycles

abbrev by_start : Cycle → Cycle → Bool
by_start a b = leb b.starts_at a.starts_at

first-insert_by : (x : Cycle) (ys : List Cycle) → first (insert_by by_start x ys) ≡ none → ⊥
unfolding insert_by
first-insert_by x [] h = ground arith
first-insert_by x (y ∷ ys) h = ground arith

none_active :
    (cs : List Cycle)
    → first (sort_by by_start (filter (λ c. is_active c.status) cs)) ≡ none
    → All (λ c. is_active c.status ≡ false) cs
unfolding sort_by filter
none_active [] h = tt
none_active (c ∷ cs) h = elim (Bool-cases (is_active c.status)) [
  | inl e ↦
      absurd
        (first-insert_by c (sort_by by_start (filter (λ x. is_active x.status) cs)) (rw e at h))
  | inr e ↦ (e, none_active cs (rw e at h))
]

active_cycle-NoneActive : (s : Db) → active_cycle s ≡ none → NoneActive s
unfolding active_cycle
active_cycle-NoneActive s h = none_active s.cycles h

first-All : (P : Cycle → Type 0) (cs : List Cycle) {c : Cycle} → All P cs → first cs ≡ some c → P c
first-All P [] k h = absurd (ground arith)
first-All P (x ∷ cs) k h = subst P (ground arith) k.0

active_ids :
    (id : CycleId) (cs : List Cycle)
    → All (λ c. is_active c.status ≡ true → c.id ≡ id) cs
    → All (λ c. c.id ≡ id) (filter (λ c. is_active c.status) cs)
unfolding filter
active_ids id [] k = tt
active_ids id (c ∷ cs) k = elim (Bool-cases (is_active c.status)) [
  | inl e ↦ rw e (k.0 e, active_ids id cs k.1)
  | inr e ↦ rw e (active_ids id cs k.1)
]

active_cycle-OneActive :
    (s : Db) (id : CycleId) {c : Cycle} → OneActive s id → active_cycle s ≡ some c → c.id ≡ id
unfolding active_cycle
active_cycle-OneActive s id k h =
    first-All (λ c. c.id ≡ id) (sort_by by_start (filter (λ c. is_active c.status) s.cycles))
      (All-sort_by (λ c. c.id ≡ id) by_start (filter (λ c. is_active c.status) s.cycles)
        (active_ids id s.cycles k))
      h

-- Archiving the only active cycle leaves none.
archived-NoneActive :
    (s : Db) (id : CycleId) → OneActive s id → NoneActive (with_status s archived id)
unfolding with_status
archived-NoneActive s id h =
    All-update_where _ _ (λ c. c.id == id) (λ c. record c { status = archived }) s.cycles
      (λ c e k. refl) (λ c e k. still c e k) h
  where
    still :
        (c : Cycle)
        → (c.id == id) ≡ false
        → (is_active c.status ≡ true → c.id ≡ id)
        → is_active c.status ≡ false
    still c e k = elim (Bool-cases (is_active c.status)) [
      | inl a ↦ absurd (ground (arith, k a))
      | inr a ↦ a
    ]

All-last : (P : Cycle → Type 0) (cs : List Cycle) (c : Cycle) → All P (cs ++ c ∷ []) → P c
All-last P [] c h = h.0
All-last P (x ∷ cs) c h = All-last P cs c h.1

true_not_false : true ≡ false → ⊥
true_not_false e = ground (arith, e)

-- A row that was set active is active.
activated :
    (id : CycleId) (cs : List Cycle)
    → is_none (find (λ c. c.id) id cs) ≡ false
    → All
        (λ c. is_active c.status ≡ false)
        (update_where (λ c. c.id == id) (λ c. record c { status = active }) cs)
    → ⊥
unfolding find update_where
activated id [] h k = absurd (ground (arith, h))
activated id (c ∷ cs) h k = elim (Bool-cases (c.id == id)) [
  | inl e ↦ true_not_false (rw e at k).0
  | inr e ↦ activated id cs (rw e at h) (rw e at k).1
]

-- The active cycle is the one of this id.
abbrev pub IsActive : Db → CycleId → Type 0
IsActive s id = (row : Cycle) × (active_cycle s ≡ some row) × (row.id ≡ id)

some-IsActive : (s : Db) (id : CycleId) → OneActive s id → (NoneActive s → ⊥) → IsActive s id
some-IsActive s id only there = elim (Option-cases (active_cycle s)) [
  | inl e ↦ absurd (there (active_cycle-NoneActive s e))
  | inr (row, e) ↦ (row, e, active_cycle-OneActive s id only e)
]

module _ (cal : Calendar) (pct : ℕ) where
  open_row-OneActive :
      (c : Cycle) (s : Db)
      → is_active c.status ≡ true
      → NoneActive s
      → (s' : Db) × (open_row cal pct c s ≡ (ok tt, s')) × OneActive s' c.id × (NoneActive s' → ⊥)
  unfolding open_row with_status get_cycle
  open_row-OneActive c s on h = elim (Bool-cases (is_none (get_cycle s c.id))) [
    | inl new ↦ (
      record s { cycles = s.cycles ++ c ∷ [] },
      (rw (new, new) refl),
      All-append (λ x. is_active x.status ≡ true → x.id ≡ c.id) s.cycles c
          (All-map _ _ s.cycles (λ x e a. absurd (ground (arith, e, a))) h) (λ _. refl),
      λ none_now. true_not_false (sym on ∙ All-last _ s.cycles c none_now),
    )
    | inr known ↦ (
      with_status s active c.id,
      (rw known refl),
      All-update_where _ _ (λ x. x.id == c.id) (λ x. record x { status = active }) s.cycles
          (λ x e k _. ==→eq x.id c.id e) (λ x e k a. absurd (ground (arith, k, a))) h,
      λ none_now. activated c.id s.cycles known none_now,
    )
  ]

module _ (cal : Calendar) (pct : ℕ) (now : Time) where
  -- Opening the month when no cycle is active.
  open_month_cycle-OneActive :
      (prev : Option CycleId) (s : Db)
      → NoneActive s
      → (s' : Db) × (open_month_cycle cal pct now prev s ≡ (ok (month_cycle cal now), s'))
        × OneActive s' (month_cycle cal now).id
        × IsActive s' (month_cycle cal now).id
  unfolding open_month_cycle month_cycle
  open_month_cycle-OneActive prev s h =
      let c = month_cycle cal now in
      let (s₁, opened, only, there) = open_row-OneActive cal pct c s refl h in
      let (s₂, seeded, same) = seed-cycles c.id prev (dead_pat_givers s₁) pct s₁.giver_pats s₁ in
      (
        s₂,
        >>=-ok (open_row cal pct c)
              (λ _ t. (seed c.id prev (dead_pat_givers t) pct t.giver_pats >> pure c) t) opened
            ∙ >>=-ok (seed c.id prev (dead_pat_givers s₁) pct s₁.giver_pats) (λ _. pure c) seeded,
        subst (All (λ x. is_active x.status ≡ true → x.id ≡ c.id)) (sym same) only,
        some-IsActive s₂ c.id
            (subst (All (λ x. is_active x.status ≡ true → x.id ≡ c.id)) (sym same) only)
            (λ k. there (subst (All (λ x. is_active x.status ≡ false)) same k)),
      )

  -- What a call of ensure_active_cycle on the tables `s` returns: a live cycle, or the row of the
  -- month of `now` that is still there as the active one.
  pub IsCurrent : Db → Cycle → Type 0
  IsCurrent s c =
      (now < c.ends_at) ⊎ ((c.id ≡ (month_cycle cal now).id) × (active_cycle s ≡ some c))

  pub Settles : (Cycle → Type 0) → Action Cycle → Db → Type 0
  Settles P m s =
      (c : Cycle) × (s' : Db) × (m s ≡ (ok c, s')) × P c × IsActive s' c.id × OneActive s' c.id

  roll_from-none :
      (s : Db)
      → active_cycle s ≡ none
      → now < (month_cycle cal now).ends_at
      → Settles (IsCurrent s) (roll_from cal pct now none) s
  unfolding roll_from IsCurrent Settles
  roll_from-none s none_now live =
      let (s', ran, only, there) =
        open_month_cycle-OneActive none s (active_cycle-NoneActive s none_now) in
      (month_cycle cal now, s', ran, inl live, there, only)

  roll_from-some :
      (s : Db) (l : Cycle) (id : CycleId)
      → OneActive s id
      → active_cycle s ≡ some l
      → now < (month_cycle cal now).ends_at
      → Settles (IsCurrent s) (roll_from cal pct now (some l)) s
  unfolding roll_from IsCurrent Settles
  roll_from-some s l id only found live =
      let is_l = active_cycle-OneActive s id only found in
      let only_l : OneActive s l.id = rw is_l only in
      elim (Bool-cases (ltb now l.ends_at)) [
        | inl on ↦ (l, s, rw on refl, inl (ground (arith, on)), (l, found, refl), only_l)
        | inr over ↦ elim (Bool-cases ((month_cycle cal now).id == l.id)) [
          | inl same ↦ (
            l,
            s,
            rw (over, same) refl,
            inr (sym (==→eq _ _ same), found),
            (l, found, refl),
            only_l,
          )
          | inr other ↦
              let s₁ = with_status s archived l.id in
              let (s', ran, only', there) =
                open_month_cycle-OneActive (some l.id) s₁ (archived-NoneActive s l.id only_l) in
              (month_cycle cal now, s', rw (over, other) ran, inl live, there, only')
        ]
      ]

  roll_from_lem :
      (s : Db) (id : CycleId)
      → OneActive s id
      → now < (month_cycle cal now).ends_at
      → Settles (IsCurrent s) (roll_from cal pct now (active_cycle s)) s
  roll_from_lem s id only live = elim (Option-cases (active_cycle s)) [
    | inl e ↦ rw e (roll_from-none s e live)
    | inr (l, e) ↦ rw e (roll_from-some s l id only e live)
  ]

  roll_over_lem :
      (s : Db) (id : CycleId)
      → OneActive s id
      → now < (month_cycle cal now).ends_at
      → Settles (IsCurrent s) (roll_over cal pct now) s
  unfolding roll_over transaction Settles
  roll_over_lem s id only live =
      let (c, s', ran, current, there, only') = roll_from_lem s id only live in
      (c, s', rw ran refl, current, there, only')

  -- From tables with one active cycle at most, and a calendar that puts `now` before the end of its
  -- month, ensure_active_cycle always returns: a cycle that is live, or the active row of the month
  -- of `now` itself. Afterwards the tables have this cycle as the active one, and no other is active.
  pub ensure_active_cycle-Settles :
      (s : Db) (id : CycleId)
      → OneActive s id
      → now < (month_cycle cal now).ends_at
      → Settles (IsCurrent s) (ensure_active_cycle cal pct now) s
  unfolding ensure_active_cycle Settles IsCurrent
  ensure_active_cycle-Settles s id only live = elim (Option-cases (active_cycle s)) [
    | inl e ↦
        let (c, s', ran, current, there, only') = roll_over_lem s id only live in
        (c, s', rw e ran, current, there, only')
    | inr (l, e) ↦ elim (Bool-cases (ltb now l.ends_at)) [
      | inl on ↦ (
        l,
        s,
        rw (e, on) refl,
        inl (ground (arith, on)),
        (l, e, refl),
        rw (active_cycle-OneActive s id only e) only,
      )
      | inr over ↦
          let (c, s', ran, current, there, only') = roll_over_lem s id only live in
          (c, s', rw (e, over) ran, current, there, only')
    ]
  ]
