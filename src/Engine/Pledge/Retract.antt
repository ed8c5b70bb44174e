-- ===== src/Engine/Pledge/Retract.antt =====
-- Retracting a pledge withdraws all of it that was not drawn, once.
use ctc.Common.{
  ◌≡◌, refl, inl, inr, false, some, Bool-cases, ℤ, pos, ◌-ℤ◌, ◌≤ℤ◌, leb_ℤ, leb_ℤ→le, eq_of_parts,
  max_ℤ_lem, int_laws, arith,
}
use ctc.Domain.{UserId, CycleId, GiverCycle}
use ctc.Store.{Db, ok, with_row, get_giver_cycle}
use ctc.Engine.{pledge_used, pledge_remaining}
use ctc.Engine.Pledge.{set_pledge, retract_pledge}
use ctc.Engine.Pledge.Range.{IsPledged, Pledges, Pledges-with_row}
use ctc.Engine.Pledge.Rows.{pledge_used-with_row}

module _ (s : Db) (c : CycleId) (u : UserId) where
  retract_pledge-drawn :
      {row : GiverCycle}
      → get_giver_cycle s c u ≡ some row
      → row.pledge ≤ℤ pledge_used s c u
      → retract_pledge c u s ≡ (ok (pos 0), s)
  unfolding retract_pledge
  retract_pledge-drawn e h = ground arith

  retract_pledge-undrawn :
      {row : GiverCycle}
      → IsPledged s c u row
      → leb_ℤ row.pledge (pledge_used s c u) ≡ false
      → retract_pledge c u s
        ≡ (ok (row.pledge -ℤ pledge_used s c u), with_row s c u row.quota (pledge_used s c u))
  unfolding retract_pledge set_pledge
  retract_pledge-undrawn v h = ground arith

  sub_self : (a b : ℤ) → a ≤ℤ b → b ≤ℤ a → pos 0 ≡ a -ℤ b
  sub_self a b h k = omega int_laws

  pledge_remaining-drawn :
      {row : GiverCycle}
      → get_giver_cycle s c u ≡ some row
      → row.pledge ≤ℤ pledge_used s c u
      → pledge_remaining s c u ≡ pos 0
  unfolding pledge_remaining
  pledge_remaining-drawn {row} e h =
      grind (int_laws, max_ℤ_lem (pos 0) (row.pledge -ℤ pledge_used s c u))

  -- What a retraction of `row` leaves behind in the tables `s'`.
  pub record Retracted (row : GiverCycle) (s' : Db) : Type 0 where
    pub returned : retract_pledge c u s ≡ (ok (row.pledge -ℤ pledge_used s c u), s')
    pub after : Pledges s c u s' row.quota (pledge_used s c u)
    pub used : pledge_used s' c u ≡ pledge_used s c u
    pub pats : s'.giver_pats ≡ s.giver_pats

pats-with_row :
    (s : Db) (c : CycleId) (u : UserId) (q p : ℤ) → (with_row s c u q p).giver_pats ≡ s.giver_pats
unfolding with_row
pats-with_row s c u q p = refl

-- Nothing is left of a pledge that was retracted.
pub pledge_remaining-Retracted :
    {s : Db} {c : CycleId} {u : UserId} {row : GiverCycle} {s' : Db}
    → Retracted s c u row s'
    → pledge_remaining s' c u ≡ pos 0
pledge_remaining-Retracted {s} {c} {u} {s' = s'} r =
    let (row', v', eq, ep) = r.after in
    pledge_remaining-drawn s' c u v'.found (rw (ep, r.used) (omega arith))

module _ (s : Db) (c : CycleId) (u : UserId) where
  pub retracted : {row : GiverCycle} → IsPledged s c u row → (s' : Db) × Retracted s c u row s'
  retracted {row} v = elim (Bool-cases (leb_ℤ row.pledge (pledge_used s c u))) [
    | inl e ↦
        let le = leb_ℤ→le row.pledge (pledge_used s c u) e in
        (
          s,
          record {
            returned =
                rw (← sub_self s c u row.pledge (pledge_used s c u) le v.covers)
                  (retract_pledge-drawn s c u v.found le);
            after = (row, v, refl, eq_of_parts row.pledge (pledge_used s c u) (omega arith));
            used = refl;
            pats = refl;
          },
        )
    | inr e ↦ (
      with_row s c u row.quota (pledge_used s c u),
      record {
        returned = retract_pledge-undrawn s c u v e;
        after =
            Pledges-with_row s c u row.quota (pledge_used s c u) (omega arith)
              (omega (arith, v.covers, v.within));
        used = pledge_used-with_row s c u row.quota (pledge_used s c u) c u;
        pats = pats-with_row s c u row.quota (pledge_used s c u);
      },
    )
  ]

  -- From a row in range a retraction succeeds and returns what was left of the pledge. The quota
  -- stays, the pledge falls to what was drawn from it, so nothing can be drawn any more, and a second
  -- retraction returns zero and changes nothing.
  pub retract_pledge_once :
      {row : GiverCycle}
      → IsPledged s c u row
      → (s' : Db) × (retract_pledge c u s ≡ (ok (row.pledge -ℤ pledge_used s c u), s'))
        × Pledges s c u s' row.quota (pledge_used s c u)
        × (pledge_remaining s' c u ≡ pos 0)
        × (retract_pledge c u s' ≡ (ok (pos 0), s'))
  retract_pledge_once v =
      let (s', r) = retracted v in
      let (row', v', eq, ep) = r.after in
      let spent : row'.pledge ≤ℤ pledge_used s' c u = rw (ep, r.used) (omega arith) in
      (
        s',
        r.returned,
        r.after,
        pledge_remaining-Retracted r,
        retract_pledge-drawn s' c u v'.found spent,
      )
