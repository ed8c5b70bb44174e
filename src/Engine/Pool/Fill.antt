-- ===== src/Engine/Pool/Fill.antt =====
-- The loop that fills a request from a list of offers: what one turn does, what it takes in all, and
-- what it keeps.
use ctc.Common.{
  ℕ, suc, ◌≡◌, refl, inl, inr, Bool, true, false, Bool-cases, if◌then◌else◌, none, List, [], ◌∷◌, ℤ,
  pos, ◌+ℤ◌, ◌-ℤ◌, ◌≤ℤ◌, ◌<ℤ◌, leb_ℤ, leb_ℤ→le, ==_refl, leb_ℤ→lt, min_ℤ, min_ℤ_lem, sum_by,
  int_laws, arith,
}
use ctc.Domain.{RequestId, Grant}
use ctc.Store.{Db, Result, ok, Action, ◌>>◌, >>=-eq-ok, with_grant, get_grant, add_grant}
use ctc.Store.Query.{request_funded}
use ctc.Store.Grants.{request_funded-with_grant}
use ctc.Engine.Pool.{stop_or_go, fill}

pub add_grant_inv :
    (g : Grant) (s : Db) {t : Unit {0}} {s' : Db}
    → add_grant g s ≡ (ok t, s')
    → (s' ≡ with_grant s g) × (get_grant s g.id ≡ none)
unfolding add_grant
add_grant_inv g s h = ground arith

pub returned :
    {A : Type 0} {a r : A} {s s' : Db}
    → ◌≡◌ {A = Result A × Db} (ok a, s) (ok r, s')
    → (r ≡ a) × (s' ≡ s)
returned h = (cc, cc)

moved_to :
    {A : Type 0} (f : Action A) {m : A} {s₁ s₂ s t : Db}
    → s₁ ≡ s
    → t ≡ s₂
    → f s₁ ≡ (ok m, s₂)
    → f s ≡ (ok m, t)
moved_to f {m} e e' h = rw (← e, e') h

taken : (x y z left : ℤ) → y +ℤ z ≡ left -ℤ x → x +ℤ y +ℤ z ≡ left
taken x y z left e = grind (int_laws, e)

-- The second branch of a conditional between two methods.
else_branch_at :
    {A : Type 0} (f g : Action A) {s : Db} {r : Result A × Db} (b : Bool)
    → b ≡ false
    → (if b then f else g) s ≡ r
    → g s ≡ r
else_branch_at f g false e h = h
else_branch_at f g true e h = absurd (ground arith)

module _ {A : Type 0} (book : ℕ → A → ℤ → Grant) where
  -- The three ways a turn of the loop ends.
  pub data Turn (n : ℕ) (left : ℤ) (a : A) (room : ℤ) (offers : List (A × ℤ)) (s : Db)
      (r : List Grant × ℤ) (s' : Db) : Type 0 where
    skipped :
        min_ℤ left room ≤ℤ pos 0
        → fill book (suc n) left offers s ≡ (ok r, s')
        → Turn n left a room offers s r s'
    finished :
        pos 0 <ℤ min_ℤ left room
        → get_grant s (book n a (min_ℤ left room)).id ≡ none
        → left -ℤ min_ℤ left room ≤ℤ pos 0
        → r ≡ (book n a (min_ℤ left room) ∷ [], left -ℤ min_ℤ left room)
        → s' ≡ with_grant s (book n a (min_ℤ left room))
        → Turn n left a room offers s r s'
    went_on :
        pos 0 <ℤ min_ℤ left room
        → get_grant s (book n a (min_ℤ left room)).id ≡ none
        → pos 0 <ℤ left -ℤ min_ℤ left room
        → (m : List Grant × ℤ) → r ≡ (book n a (min_ℤ left room) ∷ m.0, m.1)
        → fill book
            (suc n)
            (left -ℤ min_ℤ left room)
            offers
            (with_grant s (book n a (min_ℤ left room)))
          ≡ (ok m, s')
        → Turn n left a room offers s r s'

  pub fill-Turn :
      (n : ℕ) (left : ℤ) (a : A) (room : ℤ) (offers : List (A × ℤ)) (s : Db) {r : List Grant × ℤ}
      {s' : Db}
      → fill book n left ((a, room) ∷ offers) s ≡ (ok r, s')
      → Turn n left a room offers s r s'
  unfolding fill
  fill-Turn n left a room offers s {r} {s'} h =
      let take = min_ℤ left room in
      let g = book n a take in
      elim (Bool-cases (leb_ℤ take (pos 0))) [
        | inl nothing ↦ skipped (leb_ℤ→le take (pos 0) nothing) (rw nothing at h)
        | inr some_take ↦
            let (_, s₁, added, rest) =
              >>=-eq-ok (add_grant g)
                (λ _. stop_or_go g (left -ℤ take) (fill book (suc n) (left -ℤ take) offers))
                (else_branch_at (fill book (suc n) left offers)
                  (add_grant g
                    >> stop_or_go g (left -ℤ take) (fill book (suc n) (left -ℤ take) offers))
                  (leb_ℤ take (pos 0)) some_take h) in
            let (after, fresh) = add_grant_inv g s added in
            let p = leb_ℤ→lt take (pos 0) some_take in
            elim (Bool-cases (leb_ℤ (left -ℤ take) (pos 0))) [
              | inl done ↦
                  finished p fresh (leb_ℤ→le (left -ℤ take) (pos 0) done) (ground arith)
                    (ground arith)
              | inr more ↦
                  let (m, s₂, went, last) =
                    >>=-eq-ok (fill book (suc n) (left -ℤ take) offers)
                      (λ m t. (ok (g ∷ m.0, m.1), t)) (rw more at rest) in
                  let (er, es) = returned last in
                  went_on p fresh (leb_ℤ→lt (left -ℤ take) (pos 0) more) m er
                    (moved_to (fill book (suc n) (left -ℤ take) offers) after es went)
            ]
      ]

  module _ (rid : RequestId) (amount_of : (n : ℕ) (a : A) (t : ℤ) → (book n a t).amount ≡ t)
      (request_of : (n : ℕ) (a : A) (t : ℤ) → (book n a t).request_id ≡ rid) where
    request_funded-booked :
        (s : Db) (n : ℕ) (a : A) (t : ℤ)
        → request_funded (with_grant s (book n a t)) rid ≡ request_funded s rid +ℤ t
    request_funded-booked s n a t =
        rw
          (
            request_funded-with_grant s (book n a t) rid,
            request_of n a t,
            ==_refl rid,
            amount_of n a t,
          )
          refl

    -- What the grants add up to, what is left and what the request is funded with.
    pub fill_adds :
        (n : ℕ) (left : ℤ) (offers : List (A × ℤ)) (s : Db) {r : List Grant × ℤ} {s' : Db}
        → fill book n left offers s ≡ (ok r, s')
        → (sum_by (λ g. g.amount) r.0 +ℤ r.1 ≡ left)
          × (request_funded s' rid +ℤ r.1 ≡ request_funded s rid +ℤ left)
    unfolding fill sum_by
    fill_adds n left [] s h =
        let (er, es) = returned h in (rw er (omega int_laws), rw (er, es) refl)
    fill_adds n left ((a, room) ∷ offers) s {r} {s'} h = elim (fill-Turn n left a room offers s h) [
      | skipped _ rest ↦ fill_adds (suc n) left offers s rest
      | finished _ _ _ er es ↦ (
        rw (er, amount_of n a (min_ℤ left room)) (omega int_laws),
        rw (er, es, request_funded-booked s n a (min_ℤ left room)) (omega int_laws),
      )
      | went_on _ _ _ m er rest ↦
          let (sums, funds) =
            fill_adds (suc n) (left -ℤ min_ℤ left room) offers
              (with_grant s (book n a (min_ℤ left room))) rest in
          (
            rw (er, amount_of n a (min_ℤ left room))
                (taken (min_ℤ left room) (sum_by (λ g. g.amount) m.0) m.1 left sums),
            rw (er, funds, request_funded-booked s n a (min_ℤ left room)) (omega int_laws),
          )
    ]

  -- What is left was there before, and is not below zero.
  pub fill_left :
      (n : ℕ) (left : ℤ) (offers : List (A × ℤ)) (s : Db) {r : List Grant × ℤ} {s' : Db}
      → pos 0 ≤ℤ left
      → fill book n left offers s ≡ (ok r, s')
      → (pos 0 ≤ℤ r.1) × (r.1 ≤ℤ left)
  unfolding fill
  fill_left n left [] s p h = let (er, es) = returned h in rw er (p, omega int_laws)
  fill_left n left ((a, room) ∷ offers) s {r} {s'} p h = elim (fill-Turn n left a room offers s h) [
    | skipped _ rest ↦ fill_left (suc n) left offers s p rest
    | finished q _ _ er es ↦ rw er (not_over left room, less left room q)
    | went_on q _ _ m er rest ↦
        let (some_left, below) =
          fill_left (suc n) (left -ℤ min_ℤ left room) offers
            (with_grant s (book n a (min_ℤ left room))) (not_over left room) rest in
        rw er (some_left, omega (int_laws, below, less left room q))
  ]
    where
      not_over : (a b : ℤ) → pos 0 ≤ℤ a -ℤ min_ℤ a b
      not_over a b = grind (int_laws, min_ℤ_lem a b)

      less : (a b : ℤ) → pos 0 <ℤ min_ℤ a b → a -ℤ min_ℤ a b ≤ℤ a
      less a b q = grind (int_laws, q)
