-- ===== src/Store/Events.antt =====
-- How one more consumption event moves the sums of Store/Query.antt.
use ctc.Common.{
  List, All, ap, ◌≢◌, ◌≡◌, refl, fun_ext, Bool, true, false, ◌&&◌, Option, none, some, is_none,
  sum_where_congr_All, pos, ◌+ℤ◌, ◌==◌, equals, sum_where-append, sum_where-append_miss,
  if◌then◌else◌, arith,
}
use ctc.Domain.{
  UserId, CycleId, GrantId, own, pool, grant, bypass, GrantSource, Event, Grant, same_bucket,
}
use ctc.Store.{Db, with_event, get_request, get_giver_cycle}
use ctc.Store.Query.{
  own_consumed, bypass_consumed, pool_consumed_from, grant_consumed, grants_consumed_from, used,
  leaf_charge, moved, donor_charge, granted_out_by_source, transferred_out, consumed_total,
}

-- No grant comes out of itself.
abbrev pub ComeFromOthers : List Grant → Type 0
ComeFromOthers = All (λ g. g.origin_grant_id ≢ some g.id)

origin-ne :
    (i g : GrantId) (o : Option GrantId) (b : Bool) → o ≢ some i → (equals o g && b) ≡ true → i ≢ g
origin-ne i g none b k t = ground arith
origin-ne i g (some o) b k t = λ same. k (ap some (ground (arith, t, same)))

equals_ne : (o : Option GrantId) (g i : GrantId) → o ≡ some g → i ≢ g → equals o i ≡ false
equals_ne o g i h ne = ground arith

module _ (s : Db) (e : Event) where
  pub get_giver_cycle-with_event :
      (c : CycleId) (u : UserId) → get_giver_cycle (with_event s e) c u ≡ get_giver_cycle s c u
  unfolding get_giver_cycle
  get_giver_cycle-with_event c u = refl

  pub own_consumed-with_event :
      (c : CycleId) (u : UserId)
      → own_consumed (with_event s e) c u
        ≡ own_consumed s c u
          +ℤ (if e.cycle_id == c && same_bucket e.bucket own && e.consumer_id == u
              then e.credits
              else pos 0)
  unfolding own_consumed
  own_consumed-with_event c u = sum_where-append _ _ s.consumption_events e

  pub bypass_consumed-with_event :
      (c : CycleId) (u : UserId)
      → bypass_consumed (with_event s e) c u
        ≡ bypass_consumed s c u
          +ℤ (if e.cycle_id == c && same_bucket e.bucket bypass && e.source_giver_id == u
              then e.credits
              else pos 0)
  unfolding bypass_consumed
  bypass_consumed-with_event c u = sum_where-append _ _ s.consumption_events e

  pub pool_consumed_from-with_event :
      (c : CycleId) (u : UserId)
      → pool_consumed_from (with_event s e) c u
        ≡ pool_consumed_from s c u
          +ℤ (if e.cycle_id == c && same_bucket e.bucket pool && e.source_giver_id == u
              then e.credits
              else pos 0)
  unfolding pool_consumed_from
  pool_consumed_from-with_event c u = sum_where-append _ _ s.consumption_events e

  pub grants_consumed_from-with_event :
      (c : CycleId) (u : UserId)
      → grants_consumed_from (with_event s e) c u
        ≡ grants_consumed_from s c u
          +ℤ (if e.cycle_id == c && same_bucket e.bucket grant && e.source_giver_id == u
              then e.credits
              else pos 0)
  unfolding grants_consumed_from
  grants_consumed_from-with_event c u = sum_where-append _ _ s.consumption_events e

  used-with_event_other : same_bucket e.bucket grant ≡ false → used (with_event s e) ≡ used s
  unfolding used
  used-with_event_other h =
      fun_ext λ g. sum_where-append_miss _ _ s.consumption_events e (rw h refl)

  leaf_charge-with_event_other :
      same_bucket e.bucket grant ≡ false → leaf_charge (with_event s e) ≡ leaf_charge s
  unfolding leaf_charge get_request
  leaf_charge-with_event_other h = fun_ext λ c. rw (used-with_event_other h) refl

  moved-with_event_other : same_bucket e.bucket grant ≡ false → moved (with_event s e) ≡ moved s
  unfolding moved
  moved-with_event_other h = fun_ext λ g. rw (leaf_charge-with_event_other h) refl

  donor_charge-with_event_other :
      same_bucket e.bucket grant ≡ false → donor_charge (with_event s e) ≡ donor_charge s
  unfolding donor_charge get_request
  donor_charge-with_event_other h =
      fun_ext λ g. rw (used-with_event_other h, moved-with_event_other h) refl

  -- Only what is burned out of grants changes what a giver has granted.
  pub granted_out_by_source-with_event_other :
      (c : CycleId) (u : UserId) (src : GrantSource)
      → same_bucket e.bucket grant ≡ false
      → granted_out_by_source (with_event s e) c u src ≡ granted_out_by_source s c u src
  unfolding granted_out_by_source
  granted_out_by_source-with_event_other c u src h = rw (donor_charge-with_event_other h) refl

  pub grant_consumed-with_event :
      (c : CycleId) (g : GrantId)
      → grant_consumed (with_event s e) c g
        ≡ grant_consumed s c g
          +ℤ (if e.cycle_id == c && same_bucket e.bucket grant && equals e.grant_id g
              then e.credits
              else pos 0)
  unfolding grant_consumed
  grant_consumed-with_event c g = sum_where-append _ _ s.consumption_events e

  used-with_event_ne :
      (g : GrantId) → equals e.grant_id g ≡ false → used (with_event s e) g ≡ used s g
  unfolding used
  used-with_event_ne g h = sum_where-append_miss _ _ s.consumption_events e (ground arith)

  -- A draw from a grant does not change what was re-donated out of it, since no grant goes back to
  -- itself.
  pub transferred_out-with_event :
      (g : GrantId)
      → ComeFromOthers s.grants
      → e.grant_id ≡ some g
      → transferred_out (with_event s e) g ≡ transferred_out s g
  unfolding transferred_out leaf_charge get_request
  transferred_out-with_event g v h =
      sum_where_congr_All (λ (x : Grant). x.origin_grant_id ≢ some x.id) _ _ _ s.grants v
        λ x k t.
          rw
            (used-with_event_ne x.id (
              equals_ne e.grant_id g x.id h
                (origin-ne x.id g x.origin_grant_id (is_none x.contribution_id) k t)))
            refl

  pub consumed_total-with_event :
      (c : CycleId) (u : UserId)
      → consumed_total (with_event s e) c u
        ≡ consumed_total s c u
          +ℤ (if e.cycle_id == c && e.consumer_id == u then e.credits else pos 0)
  unfolding consumed_total
  consumed_total-with_event c u = sum_where-append _ _ s.consumption_events e
