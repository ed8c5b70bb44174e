-- ===== src/Routing/Debit/Total.antt =====
-- A debit never fails: on valid tables, with a source that can be booked and new event identifiers.
use ctc.Common.{
  ℕ, suc, ◌≡◌, ◌≢◌, ◌≤◌, ◌<◌, refl, inl, inr, Bool, true, false, ◌&&◌, Bool-cases, Option, none,
  some, List, [], ◌∷◌, ℤ, pos, ◌+ℤ◌, ◌-ℤ◌, ◌<ℤ◌, ◌≤ℤ◌, leb_ℤ, ltb_ℤ, min_ℤ, min_ℤ_lem, max_ℤ,
  find_append_new, filter, All, All-filter, All-sort_by, All-map, int_laws, arith, ◌==◌, ◌∙◌,
}
use ctc.Domain.{
  UserId, CycleId, GrantId, EventId, Time, Bucket, own, pool, grant, bypass, Event, Grant,
}
use ctc.Store.{Db, Result, ok, pure, >>=-ok, with_event, get_grant, get_event, grants_for_recipient}
use ctc.Store.Valid.{IsValid}
use ctc.Store.Query.{consumed_total}
use ctc.Engine.{grant_remaining, active_grants}
use ctc.Engine.Consume.{Tags, event_of, chosen_grant, check_bucket, record_consumption}
use ctc.Engine.Consume.Booking.{check_bucket-state}
use ctc.Routing.{Source, ConsumerIdentity, other_grants, draw_order, spill, book_residual, debit}
use ctc.Routing.Debit.{debit-charges}

-- The grant is there and its donor is the giver.
unfoldable pub IsGiven : Db → UserId → GrantId → Type 0
IsGiven s v i = (g : Grant) × (get_grant s i ≡ some g) × (g.donor_id ≡ v)

-- What a bucket asks of its booking, whatever is left of it.
unfoldable pub IsBookable : Db → UserId → UserId → Bucket → Option GrantId → Type 0
IsBookable s u v own g = u ≡ v
IsBookable s u v bypass g = u ≡ v
IsBookable s u v pool g = Unit
IsBookable s u v grant none = ⊥
IsBookable s u v grant (some i) = IsGiven s v i

module _ (id : EventId) (c : CycleId) (u v : UserId) (credits : ℤ) (ts : Time) (tags : Tags)
    (s : Db) where
  book_checked :
      (b : Bucket) (g : Option GrantId) (o : Bool)
      → pos 0 <ℤ credits
      → (check_bucket c u v b credits g o s).0 ≡ ok tt
      → get_event s id ≡ none
      → record_consumption id c u v b credits g ts o tags s ≡ (
        ok (event_of id c u v b credits g ts tags),
        with_event s (event_of id c u v b credits g ts tags),
      )
  unfolding record_consumption
  book_checked b g o p checked fresh =
      ground (arith, checked, fresh, check_bucket-state c u v b credits g o s)

  check_bucket-overshoot :
      (b : Bucket) (g : Option GrantId)
      → IsBookable s u v b g
      → (check_bucket c u v b credits g true s).0 ≡ ok tt
  unfolding check_bucket chosen_grant IsBookable IsGiven
  check_bucket-overshoot own g h = ground (arith, h)
  check_bucket-overshoot bypass g h = ground (arith, h)
  check_bucket-overshoot pool g h = ground arith
  check_bucket-overshoot grant none h = absurd h
  check_bucket-overshoot grant (some i) (g, e, d) = ground (arith, e, d)

  check_bucket-within :
      (i : GrantId)
      → IsGiven s v i
      → credits ≤ℤ grant_remaining s c i
      → (check_bucket c u v grant credits (some i) false s).0 ≡ ok tt
  unfolding check_bucket chosen_grant IsGiven
  check_bucket-within i (g, e, d) p = ground (arith, e, d, p)

-- The event is not there after another one was booked.
still_new :
    (s : Db) (e : Event) (i : EventId)
    → get_event s i ≡ none
    → e.id ≢ i
    → get_event (with_event s e) i ≡ none
unfolding get_event
still_new s e i h ne =
    rw (find_append_new (λ x. x.id) i s.consumption_events e h) (ground (arith, ne))

module _ (last_id : EventId) (new_id : ℕ → EventId) (c : CycleId) (u : UserId) (ts : Time)
    (tags : Tags) where
  -- The identifiers of a debit's events are new and differ.
  pub record IsFresh (s : Db) (n : ℕ) : Type 0 where
    pub unused : (k : ℕ) → n ≤ k → get_event s (new_id k) ≡ none
    pub last_unused : get_event s last_id ≡ none
    pub distinct : (j k : ℕ) → j < k → new_id j ≢ new_id k
    pub last_distinct : (k : ℕ) → new_id k ≢ last_id

  IsFresh-booked :
      (s : Db) (n : ℕ) (e : Event)
      → IsFresh s n
      → e.id ≡ new_id n
      → IsFresh (with_event s e) (suc n)
  IsFresh-booked s n e f same = record {
    unused = λ k p.
        still_new s e (new_id k) (f.unused k (omega (arith, p)))
          (rw same (f.distinct n k (omega (arith, p))));
    last_unused = still_new s e last_id f.last_unused (rw same (f.last_distinct n));
    distinct = f.distinct;
    last_distinct = f.last_distinct;
  }

  IsFresh-later : (s : Db) (n : ℕ) → IsFresh s n → IsFresh s (suc n)
  IsFresh-later s n f = record {
    unused = λ k p. f.unused k (omega (arith, p));
    last_unused = f.last_unused;
    distinct = f.distinct;
    last_distinct = f.last_distinct;
  }

  -- The loop returns, and touches no grant.
  record Spills (m : Result ℤ × Db) (s : Db) : Type 0 where
    left : ℤ
    after : Db
    ran : m ≡ (ok left, after)
    same_grants : after.grants ≡ s.grants
    last_unused : get_event after last_id ≡ none

  abbrev AllGiven : Db → List (UserId × GrantId) → Type 0
  AllGiven s = All (λ o. IsGiven s o.0 o.1)

  AllGiven-booked :
      (s : Db) (e : Event) (order : List (UserId × GrantId))
      → AllGiven s order
      → AllGiven (with_event s e) order
  unfolding IsGiven get_grant
  AllGiven-booked s e [] h = tt
  AllGiven-booked s e (o ∷ order) h = (h.0, AllGiven-booked s e order h.1)

  spill_total :
      (n : ℕ) (residual : ℤ) (order : List (UserId × GrantId)) (s : Db)
      → IsFresh s n
      → AllGiven s order
      → Spills (spill new_id c u ts tags n residual order s) s
  unfolding spill
  spill_total n residual [] s f h = record {
    left = residual;
    after = s;
    ran = refl;
    same_grants = refl;
    last_unused = f.last_unused;
  }
  spill_total n residual ((v, g) ∷ order) s f h = elim (Bool-cases (leb_ℤ residual (pos 0))) [
    | inl done ↦ record {
      left = residual;
      after = s;
      ran = rw done refl;
      same_grants = refl;
      last_unused = f.last_unused;
    }
    | inr more ↦ elim (Bool-cases (leb_ℤ (grant_remaining s c g) (pos 0))) [
      | inl none_left ↦
          let r = spill_total (suc n) residual order s (IsFresh-later s n f) h.1 in
          record {
            left = r.left;
            after = r.after;
            ran = rw (more, none_left) r.ran;
            same_grants = r.same_grants;
            last_unused = r.last_unused;
          }
      | inr room ↦
          let take = min_ℤ (grant_remaining s c g) residual in
          let e = event_of (new_id n) c u v grant take (some g) ts tags in
          let booked =
            book_checked (new_id n) c u v take ts tags s grant (some g) false
              (some_take (grant_remaining s c g) residual room more)
              (check_bucket-within (new_id n) c u v take ts tags s g h.0
                (within (grant_remaining s c g) residual))
              (f.unused n (omega arith)) in
          let r =
            spill_total (suc n) (residual -ℤ take) order (with_event s e)
              (IsFresh-booked s n e f refl) (AllGiven-booked s e order h.1) in
          record {
            left = r.left;
            after = r.after;
            ran =
                rw (more, room)
                  (>>=-ok (record_consumption (new_id n) c u v grant take (some g) ts false tags)
                      (λ _. spill new_id c u ts tags (suc n) (residual -ℤ take) order) booked
                    ∙ r.ran);
            same_grants = r.same_grants;
            last_unused = r.last_unused;
          }
    ]
  ]
    where
      some_take : (a b : ℤ) → leb_ℤ a (pos 0) ≡ false → leb_ℤ b (pos 0) ≡ false → pos 0 <ℤ min_ℤ a b
      some_take a b p q = grind (int_laws, min_ℤ_lem a b, p, q)

      within : (a b : ℤ) → min_ℤ a b ≤ℤ a
      within a b = grind (int_laws, min_ℤ_lem a b)

  -- Every active grant of a consumer is there.
  active_grants-IsGiven :
      (s : Db) → IsValid s → All (λ g. IsGiven s g.donor_id g.id) (active_grants s c u)
  unfolding active_grants grants_for_recipient IsGiven get_grant
  active_grants-IsGiven s v = All-filter _ _ (grants_for_recipient s c u) (
      All-sort_by _ _ (filter (λ g. g.cycle_id == c && g.recipient_id == u) s.grants)
        (All-filter _ _ s.grants (All-map _ _ s.grants (λ g k. (g, k, refl)) v.found)))

  other_grants-AllGiven :
      (s : Db) (i : GrantId) (gs : List Grant)
      → All (λ g. IsGiven s g.donor_id g.id) gs
      → AllGiven s (other_grants i gs)
  unfolding other_grants
  other_grants-AllGiven s i [] h = tt
  other_grants-AllGiven s i (g ∷ gs) h = elim (Bool-cases (g.id == i)) [
    | inl e ↦ rw e (other_grants-AllGiven s i gs h.1)
    | inr e ↦ rw e (h.0, other_grants-AllGiven s i gs h.1)
  ]

  draw_order-AllGiven :
      (s : Db) (b : Bucket) (v pat : ℕ) (g : Option GrantId) (gs : List Grant)
      → IsBookable s u v b g
      → All (λ x. IsGiven s x.donor_id x.id) gs
      → AllGiven s (draw_order (record { bucket = b; giver_id = v; pat = pat; grant_id = g }) gs)
  unfolding draw_order IsBookable
  draw_order-AllGiven s own v pat g gs b h = tt
  draw_order-AllGiven s pool v pat g gs b h = tt
  draw_order-AllGiven s bypass v pat g gs b h = tt
  draw_order-AllGiven s grant v pat none gs b h = tt
  draw_order-AllGiven s grant v pat (some i) gs b h = (b, other_grants-AllGiven s i gs h)

  IsBookable-same_grants :
      (s s' : Db) (v : UserId) (b : Bucket) (g : Option GrantId)
      → s'.grants ≡ s.grants
      → IsBookable s u v b g
      → IsBookable s' u v b g
  unfolding IsBookable IsGiven get_grant
  IsBookable-same_grants s s' v own g e h = h
  IsBookable-same_grants s s' v pool g e h = h
  IsBookable-same_grants s s' v bypass g e h = h
  IsBookable-same_grants s s' v grant none e h = h
  IsBookable-same_grants s s' v grant (some i) e (g, found, d) = (g, rw e found, d)

  book_residual_total :
      (source : Source) (l : ℤ) (s : Db)
      → IsBookable s u source.giver_id source.bucket source.grant_id
      → get_event s last_id ≡ none
      → (s' : Db) × (book_residual last_id c u source ts tags l s ≡ (ok tt, s'))
  unfolding book_residual
  book_residual_total source l s b fresh = elim (Bool-cases (ltb_ℤ (pos 0) l)) [
    | inl some_left ↦
        let v = source.giver_id in
        let e = event_of last_id c u v source.bucket l source.grant_id ts tags in
        let booked =
          book_checked last_id c u v l ts tags s source.bucket source.grant_id true
            (more l some_left)
            (check_bucket-overshoot last_id c u v l ts tags s source.bucket source.grant_id b)
            fresh in
        (
          with_event s e,
          rw some_left (
              >>=-ok (record_consumption last_id c u v source.bucket l source.grant_id ts true tags)
                (λ _. pure tt) booked),
        )
    | inr spent ↦ (s, rw spent refl)
  ]
    where
      more : (a : ℤ) → ltb_ℤ (pos 0) a ≡ true → pos 0 <ℤ a
      more a k = grind (int_laws, k)

module _ (last_id : EventId) (new_id : ℕ → EventId) (c : CycleId) (consumer : ConsumerIdentity)
    (source : Source) (ts : Time) (tags : Tags) where
  -- On valid tables, with unused event identifiers and a source whose bucket can be booked (an own
  -- source that is the consumer, a grant of the giver, or the pool), a debit returns, and it has
  -- charged the consumer exactly the cost, or nothing for a cost that is not positive.
  pub debit_total :
      (cost : ℤ) (s : Db)
      → IsValid s
      → IsFresh last_id new_id c consumer.user_id ts tags s 0
      → IsBookable s consumer.user_id source.giver_id source.bucket source.grant_id
      → (s' : Db) × (debit last_id new_id c consumer source cost ts tags s ≡ (ok tt, s'))
        × (consumed_total s' c consumer.user_id
            ≡ consumed_total s c consumer.user_id +ℤ max_ℤ (pos 0) cost)
  unfolding debit
  debit_total cost s v f b = elim (Bool-cases (leb_ℤ cost (pos 0))) [
    | inl free ↦ (
      s,
      rw free refl,
      debit-charges last_id new_id c consumer source ts tags cost s (rw free refl),
    )
    | inr owed ↦
        let u = consumer.user_id in
        let order = draw_order source (active_grants s c u) in
        let r = spill_total last_id new_id c u ts tags 0 cost order s f (
          draw_order-AllGiven last_id new_id c u ts tags s source.bucket source.giver_id source.pat
            source.grant_id (active_grants s c u) b
            (active_grants-IsGiven last_id new_id c u ts tags s v)) in
        let (s', booked) =
          book_residual_total last_id new_id c u ts tags source r.left r.after
            (IsBookable-same_grants last_id new_id c u ts tags s r.after source.giver_id
              source.bucket source.grant_id r.same_grants b)
            r.last_unused in
        let whole =
          >>=-ok (spill new_id c u ts tags 0 cost order) (book_residual last_id c u source ts tags)
            r.ran
          ∙ booked in
        (
          s',
          rw owed whole,
          debit-charges last_id new_id c consumer source ts tags cost s (rw owed whole),
        )
  ]
