-- ===== src/Reports/Dashboard/Totals.antt =====
-- build_dashboard always returns, and its figures add up.
use ctc.Common.{
  ℕ, ◌+◌, ◌≡◌, ◌≤◌, ◌∙◌, refl, Bool, true, false, ◌&&◌, List, [], ◌∷◌, ℤ, pos, ◌+ℤ◌, leb, ◌==◌,
  contains, filter, length, sum_where, zero-add_ℤ, if◌then◌else◌, int_laws, arith,
}
use ctc.Domain.{UserId, CycleId, Time, Event}
use ctc.Store.{Db, ok, >>=-ok}
use ctc.Standing.Leaderboard.{LeaderboardUser}
use ctc.Reports.{Format, is_shared, shared_events, requests_of}
use ctc.Reports.Dashboard.Counting.{
  requests_of-IsThere, count_requests_total, fulfillment_rate_of-bounded,
}
use ctc.Reports.Dashboard.{
  Dashboard, Traffic, add_traffic, tally, no_traffic, seven_days, count_requests, no_counts,
  dashboard_of, build_dashboard, giver_ids,
}

-- The events of a cycle that are no own use.
abbrev pub is_shared_in : CycleId → Event → Bool
is_shared_in c e = e.cycle_id == c && is_shared e.bucket

abbrev pub is_this_week : Time → Event → Bool
is_this_week now e = leb now (e.ts + seven_days)

-- The sum over the shared events of a cycle that pass a test.
unfoldable pub shared_sum : Db → CycleId → (Event → Bool) → ℤ
shared_sum s c p = sum_where (λ e. is_shared_in c e && p e) (λ e. e.credits) s.consumption_events

-- What the figures of a dashboard promise.
pub record AddsUp (s : Db) (c : CycleId) (now : Time) (d : Dashboard) : Type 0 where
  pub rotated : d.rotated ≡ shared_sum s c (λ e. contains (giver_ids s c) e.consumer_id)
  pub shared : d.rotated +ℤ d.donated_to_non_pat ≡ shared_sum s c (λ _. true)
  pub this_week : d.donated_this_week ≡ shared_sum s c (is_this_week now)
  pub requests : d.open_count + d.closed_count ≡ length (requests_of s c)
  pub rate : d.fulfillment_rate ≤ 100

-- One turn of the loops, as arithmetic.
add_if :
    (b : Bool) (t x r : ℤ) → (if b then t +ℤ x else t) +ℤ r ≡ t +ℤ ((if b then x else pos 0) +ℤ r)
add_if true t x r = omega int_laws
add_if false t x r = omega int_laws

add_either :
    (b : Bool) (t u x r : ℤ)
    → (if b then t +ℤ x else t) +ℤ (if b then u else u +ℤ x) +ℤ r ≡ t +ℤ u +ℤ (x +ℤ r)
add_either true t u x r = omega int_laws
add_either false t u x r = omega int_laws

filtered :
    (b : Bool) (q : Event → Bool) (e : Event) (es : List Event) (total : ℤ)
    → sum_where q (λ x. x.credits) es ≡ total
    → sum_where q (λ x. x.credits) (if b then e ∷ es else es)
      ≡ (if b && q e then e.credits else pos 0) +ℤ total
unfolding sum_where
filtered true q e es total h = rw h refl
filtered false q e es total h = rw h (omega int_laws)

sum_where-filter :
    (p q : Event → Bool) (es : List Event)
    → sum_where q (λ e. e.credits) (filter p es) ≡ sum_where (λ e. p e && q e) (λ e. e.credits) es
unfolding sum_where filter
sum_where-filter p q [] = refl
sum_where-filter p q (e ∷ es) =
    filtered (p e) q e (filter p es) (sum_where (λ x. p x && q x) (λ x. x.credits) es)
      (sum_where-filter p q es)

module _ (givers : List UserId) (now : Time) where
  -- The loop adds what SUM gives to each of the three.
  tally_rotated :
      (es : List Event) (t : Traffic)
      → (tally givers now es t).rotated
        ≡ t.rotated +ℤ sum_where (λ e. contains givers e.consumer_id) (λ e. e.credits) es
  unfolding tally sum_where
  tally_rotated [] t = omega int_laws
  tally_rotated (e ∷ es) t =
      tally_rotated es (add_traffic givers now e t)
      ∙ add_if (contains givers e.consumer_id) t.rotated e.credits
          (sum_where (λ x. contains givers x.consumer_id) (λ x. x.credits) es)

  tally_both :
      (es : List Event) (t : Traffic)
      → (tally givers now es t).rotated +ℤ (tally givers now es t).donated_to_non_pat
        ≡ t.rotated +ℤ t.donated_to_non_pat +ℤ sum_where (λ _. true) (λ e. e.credits) es
  unfolding tally sum_where
  tally_both [] t = omega int_laws
  tally_both (e ∷ es) t =
      tally_both es (add_traffic givers now e t)
      ∙ add_either (contains givers e.consumer_id) t.rotated t.donated_to_non_pat e.credits
          (sum_where (λ _. true) (λ x. x.credits) es)

  tally_week :
      (es : List Event) (t : Traffic)
      → (tally givers now es t).donated_this_week
        ≡ t.donated_this_week +ℤ sum_where (is_this_week now) (λ e. e.credits) es
  unfolding tally sum_where
  tally_week [] t = omega int_laws
  tally_week (e ∷ es) t =
      tally_week es (add_traffic givers now e t)
      ∙ add_if (is_this_week now e) t.donated_this_week e.credits
          (sum_where (is_this_week now) (λ x. x.credits) es)

module _ (format : Format) (users : List LeaderboardUser) where
  -- Whatever the tables hold, a dashboard is built and the tables stay as they are. What was rotated to
  -- givers is the sum of the shared credits that users with a row of the cycle consumed; with what
  -- went to others it is the sum of all shared credits of the cycle, and the part of this week is the
  -- sum over the last seven days. Each request is either open or closed, and the fulfillment rate is at
  -- most 100.
  pub build_dashboard-AddsUp :
      (s : Db) (c : CycleId) (now : Time)
      → (d : Dashboard) × (build_dashboard format users c now s ≡ (ok d, s)) × AddsUp s c now d
  unfolding build_dashboard dashboard_of shared_sum shared_events
  build_dashboard-AddsUp s c now =
      let k =
        count_requests_total s now (requests_of s c) no_counts (requests_of-IsThere s c)
          (omega arith) in
      let rows = s.consumption_events in
      let es = shared_events s c in
      let givers = giver_ids s c in
      (
        dashboard_of format users s c now k.counts,
        >>=-ok (count_requests now (requests_of s c) no_counts)
            (λ counts t. (ok (dashboard_of format users t c now counts), t)) k.ran,
        record {
          rotated =
              tally_rotated givers now es no_traffic
              ∙ zero-add_ℤ _
              ∙ sum_where-filter (is_shared_in c) (λ e. contains givers e.consumer_id) rows;
          shared =
              tally_both givers now es no_traffic
              ∙ zeros-add _
              ∙ sum_where-filter (is_shared_in c) (λ _. true) rows;
          this_week =
              tally_week givers now es no_traffic
              ∙ zero-add_ℤ _
              ∙ sum_where-filter (is_shared_in c) (is_this_week now) rows;
          requests = k.both ∙ from_zero (length (requests_of s c));
          rate =
              fulfillment_rate_of-bounded k.counts.fulfilled_count (length (requests_of s c))
                (omega (arith, k.both, k.closed));
        },
      )
    where
      from_zero : (n : ℕ) → 0 + n ≡ n
      from_zero n = omega arith

      zeros-add : (a : ℤ) → pos 0 +ℤ pos 0 +ℤ a ≡ a
      zeros-add a = omega int_laws
