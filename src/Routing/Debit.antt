-- ===== src/Routing/Debit.antt =====
-- A debit charges the consumer exactly what the request cost, over however many grants it spills.
use ctc.Common.{
  ap, sym, fun_ext, ◌&&◌, ◌==◌, if◌then◌else◌, ℕ, suc, ◌≡◌, refl, inl, inr, Bool, true, false,
  Bool-cases, Option, some, List, [], ◌∷◌, ℤ, pos, ◌+ℤ◌, ◌-ℤ◌, ◌≤ℤ◌, ltb_ℤ, leb_ℤ, leb_ℤ→le,
  leb_ℤ→lt, min_ℤ, min_ℤ_lem, max_ℤ, max_left, max_right, ◌∙◌, ==_refl, int_laws, arith,
}
use ctc.Domain.{UserId, CycleId, GrantId, EventId, Time, Bucket, grant, Event}
use ctc.Store.{Db, Result, ok, >>=-eq-ok}
use ctc.Store.Query.{consumed_total}
use ctc.Store.Events.{consumed_total-with_event}
use ctc.Engine.{grant_remaining, active_grants}
use ctc.Engine.Consume.{Tags, event_of, record_consumption}
use ctc.Engine.Consume.Booking.{record_consumption_inv}
use ctc.Routing.{Source, ConsumerIdentity, draw_order, spill, book_residual, debit}
pub mod Total
pub mod Bills

-- Two returns that are the same.
returned :
    {A : Type 0} {a b : A} {s t : Db}
    → ◌≡◌ {A = Result A × Db} (ok a, s) (ok b, t)
    → (a ≡ b) × (s ≡ t)
returned h = (cc, cc)

-- What every user has consumed in every cycle, and the ledger with one charge more.
abbrev pub Ledger : Type 0
Ledger = CycleId → UserId → ℤ

unfoldable pub ledger : Db → Ledger
ledger s c u = consumed_total s c u

unfoldable pub with_charge : CycleId → UserId → ℤ → Ledger → Ledger
with_charge c u x l d v = l d v +ℤ (if c == d && u == v then x else pos 0)

with_charge-with_charge :
    (c : CycleId) (u : UserId) (x y : ℤ) (l : Ledger)
    → with_charge c u x (with_charge c u y l) ≡ with_charge c u (y +ℤ x) l
unfolding with_charge
with_charge-with_charge c u x y l = fun_ext λ d. fun_ext λ v. twice (c == d && u == v) (l d v)
  where
    twice :
        (b : Bool) (n : ℤ)
        → n +ℤ (if b then y else pos 0) +ℤ (if b then x else pos 0)
          ≡ n +ℤ (if b then y +ℤ x else pos 0)
    twice true n = omega int_laws
    twice false n = omega int_laws

with_charge_zero : (c : CycleId) (u : UserId) (l : Ledger) → with_charge c u (pos 0) l ≡ l
unfolding with_charge
with_charge_zero c u l = fun_ext λ d. fun_ext λ v. nothing (c == d && u == v) (l d v)
  where
    nothing : (b : Bool) (n : ℤ) → n +ℤ (if b then pos 0 else pos 0) ≡ n
    nothing true n = omega int_laws
    nothing false n = omega int_laws

-- One booking charges its consumer its credits, and nobody else.
record_consumption-charges :
    (id : EventId) (c : CycleId) (u v : UserId) (b : Bucket) (x : ℤ) (g : Option GrantId)
    (ts : Time) (o : Bool) (tags : Tags) (s : Db) {e : Event} {s' : Db}
    → record_consumption id c u v b x g ts o tags s ≡ (ok e, s')
    → ledger s' ≡ with_charge c u x (ledger s)
unfolding ledger with_charge
record_consumption-charges id c u v b x g ts o tags s h =
    let (_, after, _, _) = record_consumption_inv id c u v b x g ts o tags s h in
    rw after
      (fun_ext λ d. fun_ext λ w. consumed_total-with_event s (event_of id c u v b x g ts tags) d w)

added_up : (r t l : ℤ) → t +ℤ (r -ℤ t -ℤ l) ≡ r -ℤ l
added_up r t l = omega int_laws

none_taken : (r : ℤ) → r -ℤ r ≡ pos 0
none_taken r = omega int_laws

module _ (new_id : ℕ → EventId) (c : CycleId) (u : UserId) (ts : Time) (tags : Tags) where
  left_over :
      (s : Db) (r : ℤ) {l : ℤ} {s' : Db}
      → ◌≡◌ {A = Result ℤ × Db} (ok r, s) (ok l, s')
      → ledger s' ≡ with_charge c u (r -ℤ l) (ledger s)
  left_over s r {l} {s'} e =
      let (same, after) = returned e in
      rw (← same, ← after, none_taken r) (sym (with_charge_zero c u (ledger s)))

  -- The loop charges what it takes off the residual.
  spill-charges :
      (n : ℕ) (residual : ℤ) (order : List (UserId × GrantId)) (s : Db) {l : ℤ} {s' : Db}
      → spill new_id c u ts tags n residual order s ≡ (ok l, s')
      → ledger s' ≡ with_charge c u (residual -ℤ l) (ledger s)
  unfolding spill
  spill-charges n residual [] s {l} {s'} h = left_over s residual h
  spill-charges n residual ((v, g) ∷ order) s {l} {s'} h =
      elim (Bool-cases (leb_ℤ residual (pos 0))) [
        | inl done ↦ left_over s residual (rw done at h)
        | inr more ↦ elim (Bool-cases (leb_ℤ (grant_remaining s c g) (pos 0))) [
          | inl empty ↦ spill-charges (suc n) residual order s (rw (more, empty) at h)
          | inr room ↦
              let take = min_ℤ (grant_remaining s c g) residual in
              let (_, s₁, booked, rest) =
                >>=-eq-ok (record_consumption (new_id n) c u v grant take (some g) ts false tags)
                  (λ _. spill new_id c u ts tags (suc n) (residual -ℤ take) order)
                  (rw (more, room) at h) in
              spill-charges (suc n) (residual -ℤ take) order s₁ rest
              ∙ ap (with_charge c u (residual -ℤ take -ℤ l)) (
                  record_consumption-charges (new_id n) c u v grant take (some g) ts false tags s
                    booked)
              ∙ with_charge-with_charge c u (residual -ℤ take -ℤ l) take (ledger s)
              ∙ ap (λ x. with_charge c u x (ledger s)) (added_up residual take l)
        ]
      ]

  -- The loop never takes more than is left.
  spill-nonneg :
      (n : ℕ) (residual : ℤ) (order : List (UserId × GrantId)) (s : Db) {l : ℤ} {s' : Db}
      → pos 0 ≤ℤ residual
      → spill new_id c u ts tags n residual order s ≡ (ok l, s')
      → pos 0 ≤ℤ l
  unfolding spill
  spill-nonneg n residual [] s p h = ground arith
  spill-nonneg n residual ((v, g) ∷ order) s {l} {s'} p h =
      elim (Bool-cases (leb_ℤ residual (pos 0))) [
        | inl done ↦ ground arith
        | inr more ↦ elim (Bool-cases (leb_ℤ (grant_remaining s c g) (pos 0))) [
          | inl empty ↦ spill-nonneg (suc n) residual order s p (rw (more, empty) at h)
          | inr room ↦
              let take = min_ℤ (grant_remaining s c g) residual in
              let (_, s₁, _, rest) =
                >>=-eq-ok (record_consumption (new_id n) c u v grant take (some g) ts false tags)
                  (λ _. spill new_id c u ts tags (suc n) (residual -ℤ take) order)
                  (rw (more, room) at h) in
              spill-nonneg (suc n) (residual -ℤ take) order s₁
                (left_nonneg (grant_remaining s c g) residual) rest
        ]
      ]
    where
      left_nonneg : (a b : ℤ) → pos 0 ≤ℤ b -ℤ min_ℤ a b
      left_nonneg a b = grind (int_laws, min_ℤ_lem a b)

module _ (last_id : EventId) (new_id : ℕ → EventId) (c : CycleId) (consumer : ConsumerIdentity)
    (source : Source) (ts : Time) (tags : Tags) where
  unchanged : {s s' : Db} → ◌≡◌ {A = Result Unit × Db} (ok tt, s) (ok tt, s') → s' ≡ s
  unchanged h = cc

  -- The residual is charged too.
  residual-charges :
      (l : ℤ) (s : Db) {s' : Db}
      → pos 0 ≤ℤ l
      → book_residual last_id c consumer.user_id source ts tags l s ≡ (ok tt, s')
      → ledger s' ≡ with_charge c consumer.user_id l (ledger s)
  unfolding book_residual
  residual-charges l s {s'} p h = elim (Bool-cases (ltb_ℤ (pos 0) l)) [
    | inl some_left ↦
        let u = consumer.user_id in
        let v = source.giver_id in
        let (_, s₁, booked, rest) =
          >>=-eq-ok (record_consumption last_id c u v source.bucket l source.grant_id ts true tags)
            (λ _ t. (ok tt, t)) (rw some_left at h) in
        rw (unchanged rest) (
          record_consumption-charges last_id c u v source.bucket l source.grant_id ts true tags s
            booked)
    | inr spent ↦
        rw (unchanged (rw spent at h), nothing_left l p spent)
          (sym (with_charge_zero c consumer.user_id (ledger s)))
  ]
    where
      nothing_left : (l : ℤ) → pos 0 ≤ℤ l → ltb_ℤ (pos 0) l ≡ false → l ≡ pos 0
      nothing_left l p e = grind int_laws

  -- A debit that returns is one charge of the abstract ledger: what its consumer has consumed in its
  -- cycle grows by the cost, or by nothing for a cost that is not positive, and nothing else changes.
  pub debit-with_charge :
      (cost : ℤ) (s : Db) {s' : Db}
      → debit last_id new_id c consumer source cost ts tags s ≡ (ok tt, s')
      → ledger s' ≡ with_charge c consumer.user_id (max_ℤ (pos 0) cost) (ledger s)
  unfolding debit
  debit-with_charge cost s {s'} h = elim (Bool-cases (leb_ℤ cost (pos 0))) [
    | inl free ↦
        rw (max_left (pos 0) cost (leb_ℤ→le cost (pos 0) free), unchanged (rw free at h))
          (sym (with_charge_zero c consumer.user_id (ledger s)))
    | inr owed ↦
        let u = consumer.user_id in
        let order = draw_order source (active_grants s c u) in
        let (l, s₁, spilled, rest) =
          >>=-eq-ok (spill new_id c u ts tags 0 cost order)
            (book_residual last_id c u source ts tags) (rw owed at h) in
        let kept =
          spill-nonneg new_id c u ts tags 0 cost order s (omega (arith, leb_ℤ→lt cost (pos 0) owed))
            spilled in
        rw (max_right (pos 0) cost (leb_ℤ→lt cost (pos 0) owed)) (
          residual-charges l s₁ kept rest
          ∙ ap (with_charge c u l) (spill-charges new_id c u ts tags 0 cost order s spilled)
          ∙ with_charge-with_charge c u l (cost -ℤ l) (ledger s)
          ∙ ap (λ x. with_charge c u x (ledger s)) (rejoined cost l))
  ]
    where
      rejoined : (x l : ℤ) → x -ℤ l +ℤ l ≡ x
      rejoined x l = omega int_laws

  -- A debit that returns has charged the consumer exactly the cost, or nothing for a cost that is
  -- not positive, however many grants it was spilled over and whether or not the last part
  -- overshoots.
  pub debit-charges :
      (cost : ℤ) (s : Db) {s' : Db}
      → debit last_id new_id c consumer source cost ts tags s ≡ (ok tt, s')
      → consumed_total s' c consumer.user_id
        ≡ consumed_total s c consumer.user_id +ℤ max_ℤ (pos 0) cost
  unfolding ledger with_charge
  debit-charges cost s {s'} h =
      let u = consumer.user_id in
      ap (λ l. l c u) (debit-with_charge cost s h) ∙ rw (==_refl c, ==_refl u) refl
