-- ===== src/Engine/Market/Funding.antt =====
-- A chip-in never overfunds its request and never overdraws its donor.
use ctc.Common.{
  ◌≡◌, ◌≢◌, inl, inr, refl, false, none, some, ℤ, pos, ◌+ℤ◌, ◌-ℤ◌, ◌<◌, ◌≤ℤ◌, ◌<ℤ◌, leb_ℤ, leb_ℤ→lt,
  min_ℤ, min_ℤ_lem, Option-cases, int_laws, arith, ==_refl,
}
use ctc.Domain.{UserId, RequestId, GrantId, Time, personal, Request, Grant, is_closed}
use ctc.Domain.Status.{is_closed-derive_status_iff}
use ctc.Store.{Db, ok, with_grant, get_request, get_giver_cycle}
use ctc.Store.Query.{request_funded, granted_out, own_consumed, bypass_consumed}
use ctc.Store.Grants.{
  request_funded-with_grant, granted_out_by_source-with_grant_root, donor_charge-live,
}
use ctc.Engine.{personal_remaining}
use ctc.Engine.Market.{status_at, chip_in, fund_request}

module _ (s : Db) (id : GrantId) (rid : RequestId) (donor : UserId) (amount : ℤ) (now : Time) where
  -- What a successful chip-in has been checked against.
  pub record Funds (request : Request) (g : Grant) (s' : Db) : Type 0 where
    pub found : get_request s rid ≡ some request
    pub other : donor ≢ request.requester_id
    pub live : request.cancelled_at ≡ none
    pub timely : now < request.expires_at
    pub booked : g ≡ chip_in id rid request donor g.amount now
    pub after : s' ≡ with_grant s g
    pub positive : pos 0 <ℤ g.amount
    pub asked : g.amount ≤ℤ amount
    pub needed : g.amount ≤ℤ request.amount_needed -ℤ request_funded s rid
    pub covered : g.amount ≤ℤ personal_remaining s request.cycle_id donor

  -- `min(amount, r.amount_needed - funded, self.personal_remaining(...))`
  abbrev headroom : Request → ℤ
  headroom r =
      min_ℤ (min_ℤ amount (r.amount_needed -ℤ request_funded s rid))
        (personal_remaining s r.cycle_id donor)

  passes :
      (r : Request) {g : Grant} {s' : Db}
      → get_request s rid ≡ some r
      → fund_request id rid donor amount now s ≡ (ok g, s')
      → (donor ≢ r.requester_id)
        × (is_closed (status_at r (request_funded s rid) now) ≡ false)
        × (leb_ℤ (headroom r) (pos 0) ≡ false)
        × (g ≡ chip_in id rid r donor (headroom r) now)
        × (s' ≡ with_grant s (chip_in id rid r donor (headroom r) now))
  unfolding fund_request
  passes r e h = ground arith

  headroom_bounds :
      (r : Request)
      → (headroom r ≤ℤ amount)
        × (headroom r ≤ℤ r.amount_needed -ℤ request_funded s rid)
        × (headroom r ≤ℤ personal_remaining s r.cycle_id donor)
  headroom_bounds r = grind (
    arith,
    min_ℤ_lem amount (r.amount_needed -ℤ request_funded s rid),
    min_ℤ_lem (min_ℤ amount (r.amount_needed -ℤ request_funded s rid))
        (personal_remaining s r.cycle_id donor),
  )

  known :
      {g : Grant} {s' : Db}
      → fund_request id rid donor amount now s ≡ (ok g, s')
      → (r : Request) × (get_request s rid ≡ some r)
  unfolding fund_request
  known h = elim (Option-cases (get_request s rid)) [
    | inl absent ↦ absurd (ground arith)
    | inr found ↦ found
  ]

  funds :
      (r : Request)
      → get_request s rid ≡ some r
      → donor ≢ r.requester_id
      → is_closed (status_at r (request_funded s rid) now) ≡ false
      → leb_ℤ (headroom r) (pos 0) ≡ false
      → Funds r
          (chip_in id rid r donor (headroom r) now)
          (with_grant s (chip_in id rid r donor (headroom r) now))
  funds r e other status some_room =
      let funded = request_funded s rid in
      let (live, _, timely) =
        (is_closed-derive_status_iff funded r.amount_needed r.expires_at now r.cancelled_at).0
          status in
      let (asked, needed, covered) = headroom_bounds r in
      record {
        found = e;
        other = other;
        live = live;
        timely = timely;
        booked = refl;
        after = refl;
        positive = leb_ℤ→lt (headroom r) (pos 0) some_room;
        asked = asked;
        needed = needed;
        covered = covered;
      }

  pub fund_request_inv :
      {g : Grant} {s' : Db}
      → fund_request id rid donor amount now s ≡ (ok g, s')
      → (r : Request) × Funds r g s'
  fund_request_inv h =
      let (r, e) = known h in
      let (other, status, some_room, booked, after) = passes r e h in
      (r, rw (booked, after) (funds r e other status some_room))

  personal_remaining-chip_in :
      (r : Request) (x : ℤ)
      → get_request s rid ≡ some r
      → r.cancelled_at ≡ none
      → pos 0 <ℤ x
      → x ≤ℤ personal_remaining s r.cycle_id donor
      → personal_remaining (with_grant s (chip_in id rid r donor x now)) r.cycle_id donor
        ≡ personal_remaining s r.cycle_id donor -ℤ x
  unfolding personal_remaining granted_out get_giver_cycle own_consumed bypass_consumed
  personal_remaining-chip_in r x found live p h =
      elim (Option-cases (get_giver_cycle s r.cycle_id donor)) [
        | inl absent ↦ absurd (ground arith)
        | inr (gc, e) ↦ grind (
          int_laws,
          granted_out_by_source-with_grant_root s (chip_in id rid r donor x now) r.cycle_id donor
              personal refl,
          donor_charge-live s (chip_in id rid r donor x now) r found live,
        )
      ]

  request_funded-chip_in :
      (r : Request) (x : ℤ)
      → request_funded (with_grant s (chip_in id rid r donor x now)) rid ≡ request_funded s rid +ℤ x
  request_funded-chip_in r x =
      rw (request_funded-with_grant s (chip_in id rid r donor x now) rid, ==_refl rid) refl

  -- A chip-in that is booked raises the request's funding by its amount and not beyond what is
  -- needed, and lowers the donor's personal credit by the same amount and not below zero.
  pub fund_request-exact :
      {g : Grant} {s' : Db}
      → fund_request id rid donor amount now s ≡ (ok g, s')
      → (r : Request) × (get_request s rid ≡ some r)
        × (request_funded s' rid ≡ request_funded s rid +ℤ g.amount)
        × (request_funded s' rid ≤ℤ r.amount_needed)
        × (personal_remaining s' r.cycle_id donor
            ≡ personal_remaining s r.cycle_id donor -ℤ g.amount)
        × (pos 0 ≤ℤ personal_remaining s' r.cycle_id donor)
        × (pos 0 <ℤ g.amount)
        × (g.amount ≤ℤ amount)
  fund_request-exact h =
      let (r, e) = known h in
      let (other, status, some_room, booked, after) = passes r e h in
      let f = funds r e other status some_room in
      let charged = personal_remaining-chip_in r (headroom r) e f.live f.positive f.covered in
      let raised = request_funded-chip_in r (headroom r) in
      rw (booked, after)
        (
          r,
          e,
          raised,
          rw raised (omega (int_laws, f.needed)),
          charged,
          rw charged (omega (int_laws, f.covered)),
          f.positive,
          f.asked,
        )
