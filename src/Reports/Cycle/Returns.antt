-- ===== src/Reports/Cycle/Returns.antt =====
-- build_cycle_report returns for every cycle that is there.
use ctc.Common.{◌≡◌, ◌∙◌, refl, some, List, [], ◌∷◌, All}
use ctc.Domain.{CycleId, Time, Cycle, Request, derive_status}
use ctc.Store.{Db, ok, >>=-ok, get_cycle}
use ctc.Store.Query.{request_funded}
use ctc.Engine.{request_status}
use ctc.Standing.Leaderboard.{LeaderboardUser}
use ctc.Reports.{Format, requests_of}
use ctc.Reports.Dashboard.Counting.{IsThere, requests_of-IsThere, request_status_found}
use ctc.Reports.Cycle.{
  Report, RequestCounts, add_role, add_filled, count_by_role, none_counted, report_of,
  build_cycle_report,
}

count_by_role_total :
    (s : Db) (now : Time) (rs : List Request) (c : RequestCounts)
    → All (IsThere s) rs
    → (k : RequestCounts) × (count_by_role now rs c s ≡ (ok k, s))
unfolding count_by_role
count_by_role_total s now [] c there = (c, refl)
count_by_role_total s now (r ∷ rs) c ((x, e), there) =
    let t = derive_status (request_funded s r.id) x.amount_needed x.expires_at now x.cancelled_at in
    let (k, ran) =
      count_by_role_total s now rs (add_role r.requester_role (add_filled t c)) there in
    (
      k,
      >>=-ok (request_status r.id now)
            (λ a. count_by_role now rs (add_role r.requester_role (add_filled a c)))
            (request_status_found s r.id now x e)
          ∙ ran,
    )

module _ (format : Format) (users : List LeaderboardUser) where
  -- The report of a cycle that is there, with no write.
  pub build_cycle_report_total :
      (s : Db) (i : CycleId) (now : Time) {c : Cycle}
      → get_cycle s i ≡ some c
      → (r : Report) × (build_cycle_report format users i now s ≡ (ok r, s))
  unfolding build_cycle_report
  build_cycle_report_total s i now {c} found =
      let (k, ran) =
        count_by_role_total s now (requests_of s i) none_counted (requests_of-IsThere s i) in
      (
        report_of format users s i c k,
        rw found (
            >>=-ok (count_by_role now (requests_of s i) none_counted)
              (λ counts t. (ok (report_of format users t i c counts), t)) ran),
      )
