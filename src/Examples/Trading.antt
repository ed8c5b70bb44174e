-- ===== src/Examples/Trading.antt =====
-- The marketplace's handlers, run on the team's tables.
use ctc.Common.{ℕ, ◌≡◌, refl, true, false, Option, none, some, pos, find}
use ctc.Domain.{consumer}
use ctc.Store.{Db, get_request}
use ctc.Engine.Market.{fund_request}
use ctc.Web.{Viewer, fund_status}
use ctc.Web.Requests.{Names}
use ctc.Web.Market.{MarketConfig, donate}
use ctc.Web.Market.Refused.{MarketCall, call_donate, call, call-refused}
use ctc.Examples.{team}
use ctc.Examples.Rolling.{short_months}

abbrev nobody : Names
nobody = record { name_of = λ _. none; target_name = λ _. none; id_text = λ _. "someone" }

abbrev open_market : MarketConfig
open_market = record {
  shared_pool_enabled = true;
  request_expiry_hours = pos 24;
  request_expiry_max_hours = pos 72;
}

abbrev asker : Viewer
asker = record { id = 20; role = consumer }

-- User 20 chips in to the own request 5.
abbrev own_donation : MarketCall
own_donation = call_donate 7 (λ n. n) 5 (record { amount = pos 100; is_received = false })

abbrev refused_call : Db → Option ℕ × Db
refused_call s = call nobody open_market short_months 30 own_donation (some asker) 50 s

refused_run : refused_call team ≡ (some 422, (refused_call team).1)
unfolding call donate fund_request get_request fund_status find
refused_run = refl

call-refused_example : (refused_call team).1 ≡ team
call-refused_example =
    call-refused nobody open_market short_months 30 own_donation (some asker) 50 team
      (refused_call team).1 422 refused_run refl
