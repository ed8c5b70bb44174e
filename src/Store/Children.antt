-- ===== src/Store/Children.antt =====
-- A grant out of another grant of a live request charges no donor: its origin is charged in full.
use ctc.Common.{
  ◌≡◌, refl, inl, inr, false, Bool-cases, none, some, ◌==◌, ==→eq, find, sum_where-append_miss,
  sum_where_congr_All, add-zero_ℤ, find_append_hit, arith, ◌∙◌,
}
use ctc.Domain.{UserId, CycleId, GrantId, GrantSource, Request, Grant}
use ctc.Store.{Db, with_grant, get_grant, get_request}
use ctc.Store.Valid.{IsValid}
use ctc.Store.Query.{used, donor_charge, granted_out_by_source, is_funded_by}
use ctc.Store.Grants.{moved-with_grant, donor_charge-live}

-- The grant `o` is there, and its request is not cancelled.
pub record IsLive (s : Db) (o : GrantId) : Type 0 where
  pub row : Grant
  pub request : Request
  pub found : get_grant s o ≡ some row
  pub asked : get_request s row.request_id ≡ some request
  pub live : request.cancelled_at ≡ none

module _ (s : Db) (g : Grant) (o : GrantId) (child : g.origin_grant_id ≡ some o) where
  donor_charge-with_grant_ne :
      (x : Grant) → (o == x.id) ≡ false → donor_charge (with_grant s g) x ≡ donor_charge s x
  unfolding donor_charge get_request used
  donor_charge-with_grant_ne x ne = rw (moved-with_grant s g x.id, child, ne, add-zero_ℤ) refl

  donor_charge-with_grant_origin :
      IsLive s o
      → (x : Grant) → find (λ y. y.id) x.id s.grants ≡ some x
      → o ≡ x.id
      → donor_charge (with_grant s g) x ≡ donor_charge s x
  unfolding get_grant get_request
  donor_charge-with_grant_origin l x found same =
      let e : l.row ≡ x = ground (arith, same, found, l.found) in
      rw
        (
          donor_charge-live (with_grant s g) x l.request (rw e at l.asked) l.live,
          donor_charge-live s x l.request (rw e at l.asked) l.live,
        )
        refl

  donor_charge-with_grant_child :
      IsLive s o
      → (x : Grant) → find (λ y. y.id) x.id s.grants ≡ some x
      → donor_charge (with_grant s g) x ≡ donor_charge s x
  donor_charge-with_grant_child l x found = elim (Bool-cases (o == x.id)) [
    | inl e ↦ donor_charge-with_grant_origin l x found (==→eq o x.id e)
    | inr e ↦ donor_charge-with_grant_ne x e
  ]

  no_root : (c : CycleId) (u : UserId) (src : GrantSource) → is_funded_by c u src g ≡ false
  no_root c u src = ground arith

  -- Booking a child of a live grant changes what no donor has granted.
  pub granted_out_by_source-with_grant_child :
      IsValid s
      → IsLive s o
      → (c : CycleId) (u : UserId) (src : GrantSource)
      → granted_out_by_source (with_grant s g) c u src ≡ granted_out_by_source s c u src
  unfolding granted_out_by_source
  granted_out_by_source-with_grant_child v l c u src =
      sum_where-append_miss (is_funded_by c u src) (donor_charge (with_grant s g)) s.grants g
        (no_root c u src)
      ∙ sum_where_congr_All (λ x. find (λ y. y.id) x.id s.grants ≡ some x) (is_funded_by c u src)
          (donor_charge (with_grant s g)) (donor_charge s) s.grants v.found
          (λ x k _. donor_charge-with_grant_child l x k)

-- A live grant stays live when another grant is booked.
pub IsLive-with_grant : (s : Db) (g : Grant) (o : GrantId) → IsLive s o → IsLive (with_grant s g) o
unfolding get_grant get_request
IsLive-with_grant s g o l = record {
  row = l.row;
  request = l.request;
  found = find_append_hit (λ x. x.id) o s.grants g l.found;
  asked = l.asked;
  live = l.live;
}
