-- ===== src/Engine/Valid/Loops.antt =====
-- The loops that move credit through the pool leave valid tables.
use ctc.Common.{
  ℕ, suc, ◌≡◌, ◌≢◌, refl, inl, inr, subst, sym, ◌∙◌, true, not, ◌&&◌, Bool-cases, Option, none,
  some, List, [], ◌∷◌, ◌++◌, length, ℤ, pos, ◌<ℤ◌, ◌-ℤ◌, leb_ℤ, leb_ℤ→lt, min_ℤ, is_none, ◌==◌, All,
  All-filter, All-sort_by, All-map, filter, sort_by, find, find_append_hit, arith, if◌then◌else◌,
}
use ctc.Domain.{
  UserId, CycleId, RequestId, GrantId, ContributionId, Time, Request, Grant, PoolContribution,
}
use ctc.Store.{
  Db, ok, pure, raise_if, insufficient_credit, ◌>>=◌, ◌>>◌, with_grant, get_grant, add_grant,
  add_pool_contribution, grants_for_recipient,
}
use ctc.Store.Valid.{IsValid, IsOrigin, GrantIsValid, ContributionIsValid, IsOrigin-append}
use ctc.Store.Query.{origin_request, with_capacity, contributions_with_capacity}
use ctc.Engine.{grant_remaining, givers_with_pool_capacity}
use ctc.Engine.Pool.{
  contribution_draw, pledge_draw, larger_first, stop_or_go, fill, draw_pool, re_donation, re_donate,
  draw_received, nonempty, contribution_of, give_back,
}
use ctc.Engine.Pool.Fill.{add_grant_inv}
use ctc.Engine.Valid.{Safe, >>=-Safe, add_grant-Safe, add_pool_contribution-Safe}

module _ {A : Type 0} (book : ℕ → A → ℤ → Grant) (Q : List Grant → A → Type 0)
    (grow : (gs : List Grant) (g : Grant) (a : A) → Q gs a → Q (gs ++ g ∷ []) a)
    (valid : (gs : List Grant) (n : ℕ) (a : A) (t : ℤ)
      → Q gs a
      → pos 0 <ℤ t
      → find (λ g. g.id) (book n a t).id gs ≡ none
      → GrantIsValid gs (book n a t)) where
  fill-Safe :
      (n : ℕ) (left : ℤ) (offers : List (A × ℤ)) (s : Db)
      → IsValid s
      → All (λ o. Q s.grants o.0) offers
      → IsValid (fill book n left offers s).1
  unfolding fill get_grant
  fill-Safe n left [] s v q = v
  fill-Safe n left ((a, room) ∷ offers) s v q =
      let take = min_ℤ left room in
      let g = book n a take in
      let rest = fill book (suc n) (left -ℤ take) offers in
      elim (Bool-cases (leb_ℤ take (pos 0))) [
        | inl nothing ↦ rw nothing (fill-Safe (suc n) left offers s v q.1)
        | inr some_take ↦ rw some_take (
            >>=-Safe (add_grant g) (λ _. stop_or_go g (left -ℤ take) rest) s
              (add_grant-Safe g s v
                (λ fresh. valid s.grants n a take q.0 (leb_ℤ→lt take (pos 0) some_take) fresh))
              (λ _ t ran w. elim (Bool-cases (leb_ℤ (left -ℤ take) (pos 0))) [
                | inl done ↦ rw done w
                | inr more ↦
                    let (after, _) = add_grant_inv g s ran in
                    let q' : All (λ o. Q t.grants o.0) offers =
                      rw after (All-map _ _ offers (λ o k. grow s.grants g o.0 k) q.1) in
                    rw more (
                      >>=-Safe rest (λ m t. (ok (g ∷ m.0, m.1), t)) t
                        (fill-Safe (suc n) (left -ℤ take) offers t w q') (λ _ _ _ w. w))
              ]))
      ]

no_value : {g : Grant} → ◌≡◌ {A = Option Grant} none (some g) → ⊥
no_value k = ground (arith, k)

-- A grant with a new identifier differs from one that is there.
new_differs :
    (gs : List Grant) (i o : GrantId) {g : Grant}
    → find (λ g. g.id) i gs ≡ none
    → find (λ g. g.id) o gs ≡ some g
    → i ≢ o
new_differs gs i o {g} fresh there same =
    no_value (sym fresh ∙ (λ k. find (λ g. g.id) (same k) gs) ∙ there)

with_capacity-IsOrigin :
    (s : Db) (c : CycleId) (pcs : List PoolContribution)
    → All (ContributionIsValid s.grants) pcs
    → All (λ o. IsOrigin s.grants o.0.origin_grant_id) (with_capacity s c pcs)
unfolding with_capacity
with_capacity-IsOrigin s c [] h = tt
with_capacity-IsOrigin s c (pc ∷ pcs) h =
    elim (Bool-cases (pc.cycle_id == c && not (is_none (origin_request s pc)))) [
      | inl e ↦ rw e (h.0.1, with_capacity-IsOrigin s c pcs h.1)
      | inr e ↦ rw e (with_capacity-IsOrigin s c pcs h.1)
    ]

contributions-IsOrigin :
    (s : Db) (c : CycleId)
    → IsValid s
    → All (λ o. IsOrigin s.grants o.0.origin_grant_id) (contributions_with_capacity s c)
unfolding contributions_with_capacity
contributions-IsOrigin s c v =
    All-sort_by _ _ (with_capacity s c s.pool_contributions)
      (with_capacity-IsOrigin s c s.pool_contributions v.contributions)

All-any : {A : Type 0} (xs : List A) → All (λ _. Unit {0}) xs
All-any [] = tt
All-any (x ∷ xs) = (tt, All-any xs)

-- The grants of a recipient are found by their identifiers.
abbrev pub AllFound : Db → List Grant → Type 0
AllFound s = All (λ g. get_grant s g.id ≡ some g)

pub received-AllFound :
    (s : Db) (c : CycleId) (u : UserId) → IsValid s → AllFound s (grants_for_recipient s c u)
unfolding grants_for_recipient get_grant
received-AllFound s c u v =
    All-sort_by _ _ (filter (λ g. g.cycle_id == c && g.recipient_id == u) s.grants)
      (All-filter _ _ s.grants v.found)

AllFound-with_grant :
    (s : Db) (g : Grant) (gs : List Grant) → AllFound s gs → AllFound (with_grant s g) gs
unfolding get_grant
AllFound-with_grant s g gs h =
    All-map _ _ gs (λ x k. find_append_hit (λ y. y.id) x.id s.grants g k) h

-- `origin is None`
is_none-eq : {A : Type 0} (o : Option A) → is_none o ≡ true → o ≡ none
is_none-eq none k = refl
is_none-eq (some _) k = absurd (ground (arith, k))

kept_grants :
    (pc : PoolContribution) (s t : Db) {u : Unit {0}}
    → add_pool_contribution pc s ≡ (ok u, t)
    → t.grants ≡ s.grants
unfolding add_pool_contribution
kept_grants pc s t ran = ground (arith, ran)

same_grants :
    (pc : PoolContribution) (s t : Db) (gs : List Grant) {u : Unit {0}}
    → add_pool_contribution pc s ≡ (ok u, t)
    → AllFound s gs
    → AllFound t gs
unfolding get_grant
same_grants pc s t gs ran h =
    subst (λ rows. All (λ g. find (λ x. x.id) g.id rows ≡ some g) gs) (sym (kept_grants pc s t ran))
      h

module _ (new_id : ℕ → GrantId) (rid : RequestId) (r : Request) (now : Time) where
  pub draw_pool-Safe : (wanted : ℤ) → Safe (draw_pool new_id rid r now wanted)
  unfolding draw_pool
  draw_pool-Safe wanted s v =
      let recycled = contributions_with_capacity s r.cycle_id in
      let by_contribution = contribution_draw new_id rid r now in
      let by_pledge = pledge_draw new_id rid r now in
      >>=-Safe (fill by_contribution 0 wanted recycled)
        (λ m t.
          (fill by_pledge (length recycled) m.1
                (sort_by larger_first (givers_with_pool_capacity t r.cycle_id))
              >>= (λ second. pure (m.0 ++ second.0)))
            t)
        s
        (fill-Safe by_contribution (λ gs pc. IsOrigin gs pc.origin_grant_id)
          (λ gs g pc k. IsOrigin-append gs g pc.origin_grant_id k)
          (λ gs n pc t (og, e, f) p fresh.
            (p, (new_differs gs (new_id n) pc.origin_grant_id fresh e, (og, e, f))))
          0 wanted recycled s v (contributions-IsOrigin s r.cycle_id v))
        (λ m t _ w.
          >>=-Safe
            (fill by_pledge (length recycled) m.1
              (sort_by larger_first (givers_with_pool_capacity t r.cycle_id)))
            (λ second. pure (m.0 ++ second.0)) t
            (fill-Safe by_pledge (λ _ _. Unit {0}) (λ _ _ _ _. tt) (λ gs n u t _ p _. (p, tt))
              (length recycled) m.1 (sort_by larger_first (givers_with_pool_capacity t r.cycle_id))
              t w (All-any _))
            (λ _ _ _ w. w))

  re_donate-Safe :
      (actor : UserId) (n : ℕ) (left : ℤ) (received : List Grant) (s : Db)
      → IsValid s
      → AllFound s received
      → IsValid (re_donate new_id rid r actor now n left received s).1
  unfolding re_donate get_grant
  re_donate-Safe actor n left [] s v q = v
  re_donate-Safe actor n left (g ∷ received) s v q = elim (Bool-cases (is_none g.origin_grant_id)) [
    | inr child ↦ rw child (re_donate-Safe actor (suc n) left received s v q.1)
    | inl root ↦ elim (Bool-cases (g.donor_id == r.requester_id)) [
      | inl own ↦ rw (root, own) (re_donate-Safe actor (suc n) left received s v q.1)
      | inr other ↦
          let take = min_ℤ left (grant_remaining s r.cycle_id g.id) in
          let c = re_donation new_id rid r actor now n g take in
          elim (Bool-cases (leb_ℤ take (pos 0))) [
            | inl nothing ↦
                rw (root, other, nothing) (re_donate-Safe actor (suc n) left received s v q.1)
            | inr some_take ↦
                rw (root, other, some_take)
                  (>>=-Safe (add_grant c)
                    (λ _.
                      if leb_ℤ (left -ℤ take) (pos 0)
                      then pure (c ∷ [])
                      else (re_donate new_id rid r actor now (suc n) (left -ℤ take) received
                          >>= (λ more. pure (c ∷ more))))
                    s
                    (add_grant-Safe c s v (λ fresh. (
                      leb_ℤ→lt take (pos 0) some_take,
                      (
                        new_differs s.grants (new_id n) g.id fresh q.0,
                        (g, q.0, is_none-eq g.origin_grant_id root),
                      ),
                    )))
                    (λ _ t ran w. elim (Bool-cases (leb_ℤ (left -ℤ take) (pos 0))) [
                      | inl done ↦ rw done w
                      | inr more ↦
                          let (after, _) = add_grant_inv c s ran in
                          rw more (
                            >>=-Safe
                              (re_donate new_id rid r actor now (suc n) (left -ℤ take) received)
                              (λ more. pure (c ∷ more)) t
                              (re_donate-Safe actor (suc n) (left -ℤ take) received t w (
                                subst (λ t. AllFound t received) (sym after)
                                  (AllFound-with_grant s c received q.1)))
                              (λ _ _ _ w. w))
                    ]))
          ]
    ]
  ]

  pub draw_received-Safe :
      (actor : UserId) (wanted : ℤ) → Safe (draw_received new_id rid r actor now wanted)
  unfolding draw_received
  draw_received-Safe actor wanted s v =
      let received = grants_for_recipient s r.cycle_id actor in
      >>=-Safe (re_donate new_id rid r actor now 0 wanted received)
        (λ grants. raise_if (not (nonempty grants)) insufficient_credit >> pure grants) s
        (re_donate-Safe actor 0 wanted received s v (received-AllFound s r.cycle_id actor v))
        (λ grants t _ w.
          >>=-Safe (raise_if (not (nonempty grants)) insufficient_credit) (λ _. pure grants) t w
            (λ _ _ _ w. w))

pub give_back-Safe :
    (new_id : ℕ → ContributionId) (c : CycleId) (actor : UserId) (now : Time) (n : ℕ) (left : ℤ)
    (received : List Grant) (s : Db)
    → IsValid s
    → AllFound s received
    → IsValid (give_back new_id c actor now n left received s).1
unfolding give_back get_grant
give_back-Safe new_id c actor now n left [] s v q = v
give_back-Safe new_id c actor now n left (g ∷ received) s v q =
    elim (Bool-cases (is_none g.origin_grant_id)) [
      | inr child ↦ rw child (give_back-Safe new_id c actor now (suc n) left received s v q.1)
      | inl root ↦
          let take = min_ℤ left (grant_remaining s c g.id) in
          let pc = contribution_of new_id c actor now n g take in
          elim (Bool-cases (leb_ℤ take (pos 0))) [
            | inl nothing ↦
                rw (root, nothing) (give_back-Safe new_id c actor now (suc n) left received s v q.1)
            | inr some_take ↦
                rw (root, some_take)
                  (>>=-Safe (add_pool_contribution pc)
                    (λ _.
                      if leb_ℤ (left -ℤ take) (pos 0)
                      then pure (pc ∷ [])
                      else (give_back new_id c actor now (suc n) (left -ℤ take) received
                          >>= (λ more. pure (pc ∷ more))))
                    s
                    (add_pool_contribution-Safe pc s v (
                      leb_ℤ→lt take (pos 0) some_take,
                      (g, q.0, is_none-eq g.origin_grant_id root),
                    ))
                    (λ _ t ran w. elim (Bool-cases (leb_ℤ (left -ℤ take) (pos 0))) [
                      | inl done ↦ rw done w
                      | inr more ↦ rw more (
                          >>=-Safe (give_back new_id c actor now (suc n) (left -ℤ take) received)
                            (λ more. pure (pc ∷ more)) t
                            (give_back-Safe new_id c actor now (suc n) (left -ℤ take) received t w
                              (same_grants pc s t received ran q.1))
                            (λ _ _ _ w. w))
                    ]))
          ]
    ]
