-- ===== src/Reports/Cycle.antt =====
-- ctc/accounting/reports.py: build_cycle_report.
use ctc.Common.{
  ℕ, suc, ◌+◌, String, Bool, true, false, not, ◌&&◌, Option, none, some, List, [], ◌∷◌, ℤ, pos,
  ◌+ℤ◌, ltb_ℤ, leb_ℤ, leb, ◌==◌, contains, filter, length, sum_by, sum_where, sort_by, map,
  if◌then◌else◌,
}
use ctc.Domain.{
  UserId, CycleId, Time, Role, giver, consumer, RequestStatus, open_status, partially_funded,
  fulfilled, expired, cancelled, Cycle, Request, Event, Grant,
}
use ctc.Store.{
  Db, Action, type_error, pure, gets, or_raise, ◌>>=◌, get_cycle, all_giver_cycles, first,
}
use ctc.Engine.{request_status}
use ctc.Standing.Leaderboard.{LeaderboardUser, TrackEntry, Leaderboard, build_leaderboard, take}
use ctc.Reports.{Format, distinct_ids, user_with, name_or, shared_events, requests_of}
pub mod Returns

pub record Fill : Type 0 where
  pub who : String
  pub amount : ℤ
  pub count : ℕ

-- An entry of the report's winners; the default and the rotator name no user.
pub record Winner : Type 0 where
  pub user_id : Option UserId
  pub name : String
  pub value : ℤ

pub record Winners : Type 0 where
  pub generous : Winner
  pub pro : Winner
  pub noob : Winner
  pub rotator : Option Winner

pub record Report : Type 0 where
  pub id : CycleId
  pub label : String
  pub pledged : ℤ
  pub budget_total : ℤ
  pub used_total : ℤ
  pub donated : ℤ
  pub to_non_pat : ℤ
  pub to_pat : ℤ
  pub req_filled : ℕ
  pub req_total : ℕ
  pub req_pat : ℕ
  pub req_non_pat : ℕ
  pub fills : List Fill
  pub winners : Winners

-- An unknown consumer counts as a non-giver.
abbrev pub giver_of : Option LeaderboardUser → Bool
giver_of none = false
giver_of (some u) = u.is_giver

-- The loop over the shared events: what went to givers, and what to others.
unfoldable pub split : List LeaderboardUser → List Event → ℤ × ℤ → ℤ × ℤ
split users [] (to_pat, to_non_pat) = (to_pat, to_non_pat)
split users (e ∷ es) (to_pat, to_non_pat) = split users es (
    if giver_of (user_with e.consumer_id users)
    then (to_pat +ℤ e.credits, to_non_pat)
    else (to_pat, to_non_pat +ℤ e.credits))

-- The loop over the requests.
pub record RequestCounts : Type 0 where
  pub req_filled : ℕ
  pub req_pat : ℕ
  pub req_non_pat : ℕ

abbrev pub add_role : Role → RequestCounts → RequestCounts
add_role giver c = record c { req_pat = c.req_pat + 1 }
add_role consumer c = record c { req_non_pat = c.req_non_pat + 1 }

abbrev pub add_filled : RequestStatus → RequestCounts → RequestCounts
add_filled fulfilled c = record c { req_filled = c.req_filled + 1 }
add_filled _ c = c

unfoldable pub count_by_role : Time → List Request → RequestCounts → Action RequestCounts
count_by_role now [] c = pure c
count_by_role now (r ∷ rs) c = request_status r.id now >>= λ status.
    count_by_role now rs (add_role r.requester_role (add_filled status c))

abbrev pub none_counted : RequestCounts
none_counted = record { req_filled = 0; req_pat = 0; req_non_pat = 0 }

-- `GROUP BY donor_id ORDER BY total_amount DESC LIMIT 5`; donors whose totals are equal come in the order
-- of their identifiers.
unfoldable pub donor_groups : Db → CycleId → List (UserId × ℤ × ℕ)
donor_groups s cycle_id =
    let rows = filter (λ (g : Grant). g.cycle_id == cycle_id) s.grants in
    map
      (λ i. (
        i,
        sum_where (λ g. g.donor_id == i) (λ g. g.amount) rows,
        length (filter (λ g. g.donor_id == i) rows),
      ))
      (sort_by leb (distinct_ids (map (λ g. g.donor_id) rows)))

unfoldable pub top_donors : Db → CycleId → List (UserId × ℤ × ℕ)
top_donors s cycle_id = take 5 (sort_by (λ a b. leb_ℤ b.1 a.1) (donor_groups s cycle_id))

-- The credits from a giver that other users of a set consumed.
unfoldable pub giver_to_giver : Db → CycleId → List UserId → UserId → ℤ
giver_to_giver s cycle_id givers sid =
    sum_where
      (λ e.
        e.source_giver_id == sid
        && not (e.consumer_id == e.source_giver_id)
        && contains givers e.consumer_id)
      (λ e. e.credits) (shared_events s cycle_id)

-- `GROUP BY source_giver_id`
unfoldable pub rotator_rows : Db → CycleId → List UserId
rotator_rows s cycle_id = sort_by leb (
    distinct_ids (
      map (λ e. e.source_giver_id)
        (filter (λ (e : Event). not (e.consumer_id == e.source_giver_id))
          (shared_events s cycle_id))))

-- The loop that looks for the best rotator.
unfoldable pub best_rotator :
    (UserId → ℤ) → List UserId → List UserId → Option UserId × ℤ → Option UserId × ℤ
best_rotator value givers [] best = best
best_rotator value givers (i ∷ ids) best =
    best_rotator value givers ids
      (if contains givers i && ltb_ℤ best.1 (value i) then (some i, value i) else best)

abbrev pub givers_of : List LeaderboardUser → List UserId
givers_of users = map (λ u. u.user_id) (filter (λ (u : LeaderboardUser). u.is_giver) users)

abbrev pub winner_of : Option TrackEntry → Winner
winner_of none = record { user_id = none; name = "—"; value = pos 0 }
winner_of (some t) = record { user_id = some t.user_id; name = t.name; value = t.value }

module _ (format : Format) (users : List LeaderboardUser) where
  abbrev pub fill_of : UserId × ℤ × ℕ → Fill
  fill_of (i, total, n) = record {
    who = name_or (format.id_text i) (user_with i users);
    amount = total;
    count = n;
  }

  abbrev pub rotator_of : Option UserId × ℤ → Option Winner
  rotator_of (none, value) = none
  rotator_of (some i, value) =
      if ltb_ℤ (pos 0) value
      then some (record {
        user_id = none;
        name = name_or (format.id_text i) (user_with i users);
        value = value;
      })
      else none

  unfoldable pub winners_of : Db → CycleId → Winners
  winners_of s cycle_id =
      let lb = build_leaderboard format.name_le s users cycle_id 1 in
      let givers = givers_of users in
      record {
        generous = winner_of (first lb.generous);
        pro = winner_of (first lb.top_pro);
        noob = winner_of (first lb.top_noob);
        rotator = rotator_of (
            best_rotator (giver_to_giver s cycle_id givers) givers (rotator_rows s cycle_id)
              (none, pos 0));
      }

  -- All but the counts of the requests is read from the tables as they are.
  unfoldable pub report_of : Db → CycleId → Cycle → RequestCounts → Report
  report_of s cycle_id c counts =
      let gcs = all_giver_cycles s cycle_id in
      let (to_pat, to_non_pat) = split users (shared_events s cycle_id) (pos 0, pos 0) in
      record {
        id = c.id;
        label = c.label;
        pledged = sum_by (λ gc. gc.pledge) gcs;
        budget_total = sum_by (λ gc. gc.quota) gcs;
        used_total = sum_where (λ e. e.cycle_id == cycle_id) (λ e. e.credits) s.consumption_events;
        donated = to_pat +ℤ to_non_pat;
        to_non_pat = to_non_pat;
        to_pat = to_pat;
        req_filled = counts.req_filled;
        req_total = length (requests_of s cycle_id);
        req_pat = counts.req_pat;
        req_non_pat = counts.req_non_pat;
        fills = map fill_of (top_donors s cycle_id);
        winners = winners_of s cycle_id;
      }

  -- A cycle that is not there is None, whose fields cannot be read.
  unfoldable pub build_cycle_report : CycleId → Time → Action Report
  build_cycle_report cycle_id now = do
    row ← gets (λ s. get_cycle s cycle_id)
    c ← or_raise row type_error
    rows ← gets (λ s. requests_of s cycle_id)
    counts ← count_by_role now rows none_counted
    gets (λ s. report_of s cycle_id c counts)
