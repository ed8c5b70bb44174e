-- ===== src/Examples.antt =====
-- A small team's tables, on which the theorems and the methods are run. User 10 hosts with a quota of
-- 1000 and a pledge of 200, user 20 asks for 300 in request 5, and user 30 is a host without a row.
use ctc.Common.{Option, none, some, List, [], ◌∷◌, pos}
use ctc.Domain.{active, consumer, Cycle, GiverCycle, Request, Grant, personal, Event, grant}
use ctc.Store.{Db, valid, GiverPat}
pub mod Funding
pub mod Quotas
pub mod Reconciling
pub mod Spending
pub mod Billing
pub mod Bridging
pub mod Codec
pub mod LiveQuota
pub mod Standings
pub mod Attribution
pub mod Forwarding
pub mod Reading
pub mod Gating
pub mod Limits
pub mod Running
pub mod Sweeping
pub mod Rolling
pub mod Trading
pub mod Repairing
pub mod Reporting

abbrev pub july : Cycle
july = record { id = 1; label = "July"; starts_at = 0; ends_at = 1000; status = active }

abbrev pub host_row : GiverCycle
host_row = record {
  cycle_id = 1;
  giver_id = 10;
  quota = pos 1000;
  pledge = pos 200;
  burn_baseline = some (pos 0);
  pending_drift = none;
  pending_drift_at = none;
}

abbrev pub host_pat : GiverPat
host_pat = record {
  user_id = 10;
  entitlement = some (pos 1);
  remaining_at_submit = none;
  quota_reset_date = none;
  health_status = some valid;
  health_checked_at = none;
  health_error = none;
}

abbrev pub ask : Request
ask = record {
  id = 5;
  cycle_id = 1;
  requester_id = 20;
  requester_role = consumer;
  amount_needed = pos 300;
  reason = "release week";
  target = none;
  created_at = 10;
  expires_at = 500;
  cancelled_at = none;
}

abbrev pub team : Db
team = record {
  cycles = july ∷ [];
  giver_cycles = host_row ∷ [];
  requests = ask ∷ [];
  grants = [];
  pool_contributions = [];
  consumption_events = [];
  giver_pats = host_pat ∷ [];
  cycle_reports = [];
}

-- The chip-in of 100 that user 10 makes to request 5 at time 50.
abbrev pub chip : Grant
chip = record {
  id = 7;
  cycle_id = 1;
  request_id = 5;
  donor_id = 10;
  recipient_id = 20;
  amount = pos 100;
  created_at = 50;
  source = personal;
  origin_grant_id = none;
  via_user_id = none;
  contribution_id = none;
}

abbrev pub funded_team : Db
funded_team = record team { grants = chip ∷ [] }
