-- ===== src/Tools/Repair/Agrees.antt =====
-- A dry run of repair_giver announces what a run books.
use ctc.Common.{
  ℕ, ◌≡◌, ◌∙◌, refl, sym, ap, subst, inl, inr, Bool, true, false, Bool-cases, Option, none, some,
  List, [], ◌∷◌, ℤ, pos, ◌-ℤ◌, ◌≤ℤ◌, ◌<ℤ◌, leb_ℤ, ltb_ℤ, leb_ℤ→le, leb_ℤ→lt, max_ℤ, max_ℤ_lem, All,
  sum_where, find, int_laws, arith,
}
use ctc.Domain.{UserId, CycleId, EventId, Time, Event, Cycle, nano}
use ctc.Store.{Db, ok, pure, ◌>>=◌, >>=-ok, get_giver_cycle, get_event, with_pending, with_baseline}
use ctc.Store.Query.{own_consumed, bypass_consumed, pool_consumed_from, grants_consumed_from}
use ctc.Engine.Cycle.{Calendar, ensure_active_cycle}
use ctc.Engine.Cycle.Others.{Others, ensure_active_cycle-Keeps}
use ctc.Engine.Reconcile.{
  tracked_burn, baseline_of, github_burn, burn_of, reconcile_known, reconcile_burn, reconcile_giver,
}
use ctc.Tools.Repair.{
  Repair, Lookup, quota_for, re_anchor, reconcile_now, credits_of, report, would_book, repair_row,
  repair_known, repair_giver,
}
use ctc.Tools.Repair.Anchored.{
  anchored, re_anchor_run, tracked_burn-anchored, anchored_base, anchored_pending, none_left,
  some_left,
}

-- Every booked amount is positive.
abbrev pub ArePositive : List Event → Type 0
ArePositive = All (λ e. pos 0 <ℤ e.credits)

positive_sum :
    (p : Event → Bool) (es : List Event) → ArePositive es → pos 0 ≤ℤ sum_where p (λ e. e.credits) es
unfolding sum_where
positive_sum p [] h = omega arith
positive_sum p (e ∷ es) (h, hs) = grind (int_laws, h, positive_sum p es hs)

tracked_burn_nonneg :
    (s : Db) (c : CycleId) (u : UserId)
    → ArePositive s.consumption_events
    → pos 0 ≤ℤ tracked_burn s c u
unfolding tracked_burn own_consumed pool_consumed_from grants_consumed_from bypass_consumed
tracked_burn_nonneg s c u h =
    omega (int_laws, positive_sum _ s.consumption_events h, positive_sum _ s.consumption_events h)

nonneg : (x : ℤ) → pos 0 ≤ℤ x → ltb_ℤ x (pos 0) ≡ false
nonneg x h = ground (arith, h)

burn_of_known :
    (ent rem : ℤ)
    → pos 0 ≤ℤ ent
    → pos 0 ≤ℤ rem
    → burn_of (some ent) (some rem) ≡ some (nano (ent -ℤ rem))
burn_of_known ent rem p q = ground (arith, nonneg ent p, nonneg rem q)

module _ (id : EventId) (c : CycleId) (u : UserId) (ent rem : ℤ) (now : Time) where
  -- On a quota that is known and limited, the immediate reconcile is that of the burn.
  reconcile_now_run :
      (s : Db)
      → pos 0 ≤ℤ ent
      → pos 0 ≤ℤ rem
      → reconcile_now id c u (ent, rem) now s ≡ reconcile_burn id c u (nano (ent -ℤ rem)) now true s
  unfolding reconcile_now reconcile_giver github_burn
  reconcile_now_run s p q =
      ap (λ o. (reconcile_known id c u o now true [] s).1) (burn_of_known ent rem p q)

  -- A run books what the dry run announces, and leaves no drift.
  record Agree (s : Db) : Type 0 where
    repair : Repair
    after : Db
    dry : repair_row id c u (ent, rem) now true s ≡ (ok repair, s)
    real : repair_row id c u (ent, rem) now false s ≡ (ok repair, after)
    settled : tracked_burn after c u ≡ max_ℤ (tracked_burn s c u) (nano (ent -ℤ rem))

  repair_row_dry :
      (s : Db)
      → repair_row id c u (ent, rem) now true s
        ≡ (ok (report c u (baseline_of (get_giver_cycle s c u)) (would_book s c u (ent, rem))), s)
  unfolding repair_row
  repair_row_dry s = refl

  announced :
      (s : Db) (x : ℤ)
      → x ≡ max_ℤ (pos 0) (nano (ent -ℤ rem) -ℤ tracked_burn s c u)
      → repair_row id c u (ent, rem) now true s
        ≡ (ok (report c u (baseline_of (get_giver_cycle s c u)) x), s)
  unfolding would_book
  announced s x h = rw h (repair_row_dry s)

  fresh_anchored : (s : Db) → get_event s id ≡ none → get_event (anchored s c u) id ≡ none
  unfolding get_event with_pending with_baseline
  fresh_anchored s h = h

  repair_row_real :
      (s : Db) {e : Option Event} {t : Db}
      → reconcile_now id c u (ent, rem) now (anchored s c u) ≡ (ok e, t)
      → repair_row id c u (ent, rem) now false s
        ≡ (ok (report c u (baseline_of (get_giver_cycle s c u)) (credits_of e)), t)
  unfolding repair_row
  repair_row_real s h =
      let old = baseline_of (get_giver_cycle s c u) in
      >>=-ok (re_anchor c u)
        (λ _. reconcile_now id c u (ent, rem) now >>= λ e. pure (report c u old (credits_of e)))
        (re_anchor_run s c u)
      ∙ >>=-ok (reconcile_now id c u (ent, rem) now) (λ e. pure (report c u old (credits_of e))) h

  nothing_planned : (b t : ℤ) → b ≤ℤ t → (pos 0 ≡ max_ℤ (pos 0) (b -ℤ t)) × (t ≡ max_ℤ t b)
  nothing_planned b t h =
      (grind (int_laws, h, max_ℤ_lem (pos 0) (b -ℤ t)), grind (int_laws, h, max_ℤ_lem t b))

  drift_planned : (b t : ℤ) → t <ℤ b → (b -ℤ t ≡ max_ℤ (pos 0) (b -ℤ t)) × (b ≡ max_ℤ t b)
  drift_planned b t h =
      (grind (int_laws, h, max_ℤ_lem (pos 0) (b -ℤ t)), grind (int_laws, h, max_ℤ_lem t b))

  repair_row-Agree :
      (s : Db)
      → pos 0 ≤ℤ ent
      → pos 0 ≤ℤ rem
      → ArePositive s.consumption_events
      → get_event s id ≡ none
      → Agree s
  repair_row-Agree s p q positive fresh =
      let burn = nano (ent -ℤ rem) in
      let t = anchored s c u in
      let old = baseline_of (get_giver_cycle s c u) in
      let base = anchored_base s c u in
      let pending = anchored_pending s c u in
      let same = tracked_burn-anchored s c u in
      elim (Bool-cases (leb_ℤ burn (tracked_burn s c u))) [
        | inl covered ↦
            let le = leb_ℤ→le burn (tracked_burn s c u) covered in
            let (v, ran, kept) =
              none_left t c u id now burn base pending (subst (λ x. burn ≤ℤ x) (sym same) le) in
            let (planned, settled) = nothing_planned burn (tracked_burn s c u) le in
            record {
              repair = report c u old (pos 0);
              after = v;
              dry = announced s (pos 0) planned;
              real = repair_row_real s (reconcile_now_run t p q ∙ ran);
              settled = kept ∙ same ∙ settled;
            }
        | inr drift ↦
            let lt = leb_ℤ→lt burn (tracked_burn s c u) drift in
            let (e, v, ran, amount, kept) =
              some_left t c u id now burn base
                (subst (λ x. pos 0 ≤ℤ x) (sym same) (tracked_burn_nonneg s c u positive))
                (subst (λ x. x <ℤ burn) (sym same) lt) (fresh_anchored s fresh) in
            let (planned, settled) = drift_planned burn (tracked_burn s c u) lt in
            record {
              repair = report c u old e.credits;
              after = v;
              dry = announced s e.credits (amount ∙ ap (λ x. burn -ℤ x) same ∙ planned);
              real = repair_row_real s (reconcile_now_run t p q ∙ ran);
              settled = kept ∙ settled;
            }
      ]

event_unused :
    (s t : Db) (i : EventId)
    → t.consumption_events ≡ s.consumption_events
    → get_event s i ≡ none
    → get_event t i ≡ none
unfolding get_event
event_unused s t i e h = subst (λ es. find (λ x. x.id) i es ≡ none) (sym e) h

module _ (cal : Calendar) (pct : ℕ) (from : Lookup) (id : EventId) (u : UserId) (now : Time) where
  run_of :
      (dry_run : Bool) (entitlement remaining : Option ℤ) (ent rem : ℤ) (s s₁ t : Db)
      (cycle : Cycle) {r : Repair}
      → ensure_active_cycle cal pct now s ≡ (ok cycle, s₁)
      → quota_for from u entitlement remaining ≡ some (ent, rem)
      → repair_row id cycle.id u (ent, rem) now dry_run s₁ ≡ (ok r, t)
      → repair_giver cal pct from id u now entitlement remaining dry_run s ≡ (ok (some r), t)
  unfolding repair_giver
  run_of dry_run entitlement remaining ent rem s s₁ t cycle current known row =
      >>=-ok (ensure_active_cycle cal pct now)
        (λ c. repair_known id u now dry_run c (quota_for from u entitlement remaining)) current
      ∙ rw known (>>=-ok (repair_row id cycle.id u (ent, rem) now dry_run) (λ r. pure (some r)) row)

  -- For a quota that is known and limited, on tables where every booked amount is positive, with an
  -- unused event identifier, where ensure_active_cycle returns: a dry run and a run both return, with
  -- the same report. The dry run leaves the tables as ensure_active_cycle left them, which may have
  -- rolled the month over; after the run the burn accounted for is what GitHub reports, or what it was
  -- where that is more.
  pub repair_giver-agrees :
      (entitlement remaining : Option ℤ) (ent rem : ℤ) (s s₁ : Db) {cycle : Cycle}
      → quota_for from u entitlement remaining ≡ some (ent, rem)
      → pos 0 ≤ℤ ent
      → pos 0 ≤ℤ rem
      → ensure_active_cycle cal pct now s ≡ (ok cycle, s₁)
      → ArePositive s.consumption_events
      → get_event s id ≡ none
      → (r : Repair) × (t : Db) × (repair_giver cal pct from id u now entitlement remaining true s
          ≡ (ok (some r), s₁))
        × (repair_giver cal pct from id u now entitlement remaining false s ≡ (ok (some r), t))
        × (tracked_burn t cycle.id u ≡ max_ℤ (tracked_burn s₁ cycle.id u) (nano (ent -ℤ rem)))
  repair_giver-agrees entitlement remaining ent rem s s₁ {cycle} known p q current positive fresh =
      let events = same_events s current in
      let a =
        repair_row-Agree id cycle.id u ent rem now s₁ p q (subst ArePositive (sym events) positive)
          (event_unused s s₁ id events fresh) in
      (
        a.repair,
        a.after,
        run_of true entitlement remaining ent rem s s₁ s₁ cycle current known a.dry,
        run_of false entitlement remaining ent rem s s₁ a.after cycle current known a.real,
        a.settled,
      )
    where
      same_events :
          (s : Db) {cycle : Cycle} {s₁ : Db}
          → ensure_active_cycle cal pct now s ≡ (ok cycle, s₁)
          → s₁.consumption_events ≡ s.consumption_events
      same_events s e =
          sym (ap (λ m. m.1.consumption_events) e)
          ∙ ap (λ (o : Others). o.consumption_events) (ensure_active_cycle-Keeps cal pct now s)
