-- ===== src/Store/Grants.antt =====
-- How one more grant moves the sums of Store/Query.antt.
use ctc.Common.{
  ◌≡◌, refl, fun_ext, none, some, pos, ◌+ℤ◌, ◌==◌, equals, sum_where-append, if◌then◌else◌,
  add-zero_ℤ,
}
use ctc.Domain.{UserId, CycleId, RequestId, GrantId, GrantSource, Request, Grant}
use ctc.Store.{Db, with_grant, get_request}
use ctc.Store.Query.{
  used, leaf_charge, moved, donor_charge, granted_out_by_source, request_funded, is_funded_by,
}

module _ (s : Db) (g : Grant) where
  pub request_funded-with_grant :
      (r : RequestId)
      → request_funded (with_grant s g) r
        ≡ request_funded s r +ℤ (if g.request_id == r then g.amount else pos 0)
  unfolding request_funded
  request_funded-with_grant r = sum_where-append _ _ s.grants g

  pub leaf_charge-with_grant : leaf_charge (with_grant s g) ≡ leaf_charge s
  unfolding leaf_charge get_request used
  leaf_charge-with_grant = refl

  pub moved-with_grant :
      (k : GrantId)
      → moved (with_grant s g) k
        ≡ moved s k +ℤ (if equals g.origin_grant_id k then leaf_charge s g else pos 0)
  unfolding moved
  moved-with_grant k = rw leaf_charge-with_grant (sum_where-append _ _ s.grants g)

  moved-with_grant_root : g.origin_grant_id ≡ none → moved (with_grant s g) ≡ moved s
  moved-with_grant_root h = fun_ext λ k. rw (moved-with_grant k, h) (add-zero_ℤ (moved s k))

  donor_charge-with_grant_root :
      g.origin_grant_id ≡ none → donor_charge (with_grant s g) ≡ donor_charge s
  unfolding donor_charge get_request used
  donor_charge-with_grant_root h = fun_ext λ k. rw (moved-with_grant_root h) refl

  -- A grant from a donor's own credit charges what it charges; earlier grants charge what they did.
  pub granted_out_by_source-with_grant_root :
      (c : CycleId) (u : UserId) (src : GrantSource)
      → g.origin_grant_id ≡ none
      → granted_out_by_source (with_grant s g) c u src
        ≡ granted_out_by_source s c u src
          +ℤ (if is_funded_by c u src g then donor_charge s g else pos 0)
  unfolding granted_out_by_source
  granted_out_by_source-with_grant_root c u src h =
      rw (donor_charge-with_grant_root h) (sum_where-append _ _ s.grants g)

-- A grant of a live request charges its whole amount.
pub donor_charge-live :
    (s : Db) (g : Grant) (r : Request)
    → get_request s g.request_id ≡ some r
    → r.cancelled_at ≡ none
    → donor_charge s g ≡ g.amount
unfolding donor_charge
donor_charge-live s g r found live = rw (found, live) refl
