-- ===== src/Reports/Dashboard.antt =====
-- ctc/accounting/reports.py: build_dashboard.
use ctc.Common.{
  ℕ, zero, suc, ◌+◌, ◌-◌, ◌*◌, ◌/◌, String, Bool, true, false, not, ◌&&◌, ◌||◌, Option, none, some,
  List, [], ◌∷◌, ◌++◌, ℤ, pos, ◌+ℤ◌, ltb_ℤ, leb, ◌==◌, same_text, contains, filter, length, sum_by,
  sort_by, map, if◌then◌else◌,
}
use ctc.Domain.{
  UserId, CycleId, Time, Bucket, RequestStatus, open_status, partially_funded, fulfilled, expired,
  cancelled, Cycle, Request, Event,
}
use ctc.Store.{Db, Action, pure, gets, ◌>>=◌, get_cycle, all_giver_cycles}
use ctc.Engine.{personal_remaining, pool_available, request_status}
use ctc.Standing.Leaderboard.{
  LeaderboardUser, TrackEntry, Leaderboard, build_leaderboard, larger_value, take,
}
use ctc.Reports.{Format, distinct_ids, user_with, name_or, is_shared, shared_events, requests_of}
pub mod Counting
pub mod Totals

pub record Activity : Type 0 where
  pub time : String
  pub kind : Bucket
  pub actor_id : UserId
  pub detail : String
  pub amount : String

pub record Dashboard : Type 0 where
  pub pledged : ℤ
  pub retained : ℤ
  pub rotated : ℤ
  pub donated_to_non_pat : ℤ
  pub donated_this_week : ℤ
  pub fulfillment_rate : ℕ
  pub active_givers : ℕ
  pub active_consumers : ℕ
  pub pool_available : ℤ
  pub open_count : ℕ
  pub closed_count : ℕ
  pub activity : List Activity
  pub generous : List TrackEntry
  pub top_consumers : List TrackEntry
  pub cycle_label : String
  pub cycle_number : ℕ
  pub reset_date : Option String
  pub days_left : ℕ

abbrev pub day : ℕ
day = 86_400

abbrev pub seven_days : ℕ
seven_days = 604_800

-- The ceiling of the days to the end, and 0 once it has passed.
unfoldable pub days_to : Time → Time → ℕ
days_to ends_at now = (ends_at - now + 86_399) / day

abbrev pub min_time : Time → Time → Time
min_time a b = if leb a b then a else b

unfoldable pub giver_ids : Db → CycleId → List UserId
giver_ids s cycle_id = distinct_ids (map (λ gc. gc.giver_id) (all_giver_cycles s cycle_id))

-- The loop over the events that are no own use.
pub record Traffic : Type 0 where
  pub rotated : ℤ
  pub donated_to_non_pat : ℤ
  pub donated_this_week : ℤ

abbrev pub add_traffic : List UserId → Time → Event → Traffic → Traffic
add_traffic givers now e t = record {
  rotated = if contains givers e.consumer_id then t.rotated +ℤ e.credits else t.rotated;
  donated_to_non_pat =
      if contains givers e.consumer_id
      then t.donated_to_non_pat
      else t.donated_to_non_pat +ℤ e.credits;
  donated_this_week =
      if leb now (e.ts + seven_days) then t.donated_this_week +ℤ e.credits else t.donated_this_week;
}

unfoldable pub tally : List UserId → Time → List Event → Traffic → Traffic
tally givers now [] t = t
tally givers now (e ∷ es) t = tally givers now es (add_traffic givers now e t)

abbrev pub no_traffic : Traffic
no_traffic = record { rotated = pos 0; donated_to_non_pat = pos 0; donated_this_week = pos 0 }

-- The loop over the requests.
pub record Counts : Type 0 where
  pub fulfilled_count : ℕ
  pub open_count : ℕ
  pub closed_count : ℕ

abbrev pub count_status : RequestStatus → Counts → Counts
count_status fulfilled c = record c {
  fulfilled_count = c.fulfilled_count + 1;
  closed_count = c.closed_count + 1;
}
count_status expired c = record c { closed_count = c.closed_count + 1 }
count_status cancelled c = record c { closed_count = c.closed_count + 1 }
count_status open_status c = record c { open_count = c.open_count + 1 }
count_status partially_funded c = record c { open_count = c.open_count + 1 }

unfoldable pub count_requests : Time → List Request → Counts → Action Counts
count_requests now [] c = pure c
count_requests now (r ∷ rs) c =
    request_status r.id now >>= λ status. count_requests now rs (count_status status c)

abbrev pub no_counts : Counts
no_counts = record { fulfilled_count = 0; open_count = 0; closed_count = 0 }

unfoldable pub fulfillment_rate_of : ℕ → ℕ → ℕ
fulfillment_rate_of fulfilled_count total = if total == 0 then 0 else fulfilled_count * 100 / total

unfoldable pub all_consumers : Db → CycleId → List UserId
all_consumers s cycle_id =
    distinct_ids
      (map (λ e. e.consumer_id) (filter (λ e. e.cycle_id == cycle_id) s.consumption_events))

unfoldable pub all_sources : Db → CycleId → List UserId
all_sources s cycle_id =
    distinct_ids
      (map (λ e. e.source_giver_id) (filter (λ e. e.cycle_id == cycle_id) s.consumption_events))

-- A giver with a PAT, with a pledge, or in an event of the cycle.
abbrev pub is_active_giver : Db → CycleId → UserId → Bool
is_active_giver s cycle_id i =
    contains (map (λ p. p.user_id) s.giver_pats) i
    || contains
        (map (λ gc. gc.giver_id)
          (filter (λ gc. ltb_ℤ (pos 0) gc.pledge) (all_giver_cycles s cycle_id)))
        i
    || contains (all_sources s cycle_id) i
    || contains (all_consumers s cycle_id) i

unfoldable pub active_givers_of : Db → CycleId → ℕ
active_givers_of s cycle_id = length (filter (is_active_giver s cycle_id) (giver_ids s cycle_id))

unfoldable pub active_consumers_of : Db → CycleId → ℕ
active_consumers_of s cycle_id =
    length (filter (λ i. not (contains (giver_ids s cycle_id) i)) (all_consumers s cycle_id))

unfoldable pub reversed : List Event → List Event → List Event
reversed [] done = done
reversed (e ∷ es) done = reversed es (e ∷ done)

-- `ts >= now - DAY ORDER BY ts DESC, rowid DESC LIMIT 100`
unfoldable pub recent_events : Db → CycleId → Time → List Event
recent_events s cycle_id now = take 100 (
    sort_by (λ a b. leb b.ts a.ts)
      (reversed (filter (λ e. leb now (e.ts + day)) (shared_events s cycle_id)) []))

-- `setdefault` and `+=` on a dict by name, which lists its names in the order of insertion.
unfoldable pub add_entry : TrackEntry → List TrackEntry → List TrackEntry
add_entry e [] = e ∷ []
add_entry e (t ∷ ts) =
    if same_text t.name e.name
    then record t { value = t.value +ℤ e.value } ∷ ts
    else t ∷ add_entry e ts

unfoldable pub merge : List TrackEntry → List TrackEntry → List TrackEntry
merge [] merged = merged
merge (e ∷ es) merged = merge es (add_entry e merged)

unfoldable pub top_consumers_of : Leaderboard → List TrackEntry
top_consumers_of lb = take 5 (sort_by larger_value (merge (lb.top_pro ++ lb.top_noob) []))

module _ (format : Format) (users : List LeaderboardUser) where
  abbrev pub activity_row : Event → Activity
  activity_row e = record {
    time = format.clock e.ts;
    kind = e.bucket;
    actor_id = e.consumer_id;
    detail = name_or (format.short_id e.consumer_id) (user_with e.consumer_id users);
    amount = format.amount_text e.credits;
  }

  -- The label, the number and the end of a cycle.
  pub record Identity : Type 0 where
    pub label : String
    pub number : ℕ
    pub reset_date : Option String
    pub days_left : ℕ

  unfoldable pub identity_in : Db → Time → Option Cycle → Identity
  identity_in s now none = record { label = ""; number = 0; reset_date = none; days_left = 0 }
  identity_in s now (some c) = record {
    label = c.label;
    number = length (filter (λ d. leb d.starts_at c.starts_at) s.cycles);
    reset_date = some (format.date (min_time c.ends_at 32_503_680_000));
    days_left = days_to c.ends_at now;
  }

  -- All but the counts of the requests is read from the tables as they are.
  unfoldable pub dashboard_of : Db → CycleId → Time → Counts → Dashboard
  dashboard_of s cycle_id now counts =
      let givers = giver_ids s cycle_id in
      let traffic = tally givers now (shared_events s cycle_id) no_traffic in
      let lb = build_leaderboard format.name_le s users cycle_id 5 in
      let cyc = identity_in s now (get_cycle s cycle_id) in
      record {
        pledged = sum_by (λ gc. gc.pledge) (all_giver_cycles s cycle_id);
        retained = sum_by (λ i. personal_remaining s cycle_id i) givers;
        rotated = traffic.rotated;
        donated_to_non_pat = traffic.donated_to_non_pat;
        donated_this_week = traffic.donated_this_week;
        fulfillment_rate =
            fulfillment_rate_of counts.fulfilled_count (length (requests_of s cycle_id));
        active_givers = active_givers_of s cycle_id;
        active_consumers = active_consumers_of s cycle_id;
        pool_available = pool_available s cycle_id;
        open_count = counts.open_count;
        closed_count = counts.closed_count;
        activity = map activity_row (recent_events s cycle_id now);
        generous = lb.generous;
        top_consumers = top_consumers_of lb;
        cycle_label = cyc.label;
        cycle_number = cyc.number;
        reset_date = cyc.reset_date;
        days_left = cyc.days_left;
      }

  unfoldable pub build_dashboard : CycleId → Time → Action Dashboard
  build_dashboard cycle_id now = do
    rows ← gets (λ s. requests_of s cycle_id)
    counts ← count_requests now rows no_counts
    gets (λ s. dashboard_of s cycle_id now counts)
