-- ===== src/Lib.antt =====
-- Verification of CTC, which shares the Copilot quota of a few givers with a team and keeps the
-- ledger of who used whose credit.
--
-- Parts and files
--   Common.antt         the shared names, integers, and tables as lists of rows
--   Domain.antt         ctc/domain/types.py, rules.py: the rows and the status of a request
--   Store.antt          ctc/store/accounting_store.py: the tables, single-row statements, and the
--                       transaction of ctc/accounting/engine.py; Store/Query.antt and
--                       Store/Display.antt have the sums
--   Engine.antt         ctc/accounting/engine.py: the derived balances
--   Engine/Pledge.antt    set_quota, sync_quota_ceiling, set_pledge, retract_pledge
--   Engine/Market.antt    create_request, cancel_request, fund_request
--   Engine/Pool.antt      fund_request_from_pool, fund_request_from_received,
--                         return_received_to_pool
--   Engine/Cycle.antt     start_cycle, ensure_active_cycle and the seeding of a new month
--   Engine/Consume.antt   record_consumption
--   Engine/Valid.antt     what every method keeps; Engine/Valid/Run.antt has the calls as data and
--                         the states that they reach
--   Engine/Reconcile.antt reconcile_giver, _book_bypass, and the in-memory throttle
--   Routing.antt        ctc/routing/attribution.py: debit; Routing/Select.antt select_source and
--                         any_giver_pat, Routing/Pin.antt pin_source and pinned_source
--   Standing.antt       ctc/accounting/tiers.py; Standing/Leaderboard.antt leaderboard.py
--   Reports.antt        ctc/accounting/reports.py: Reports/Dashboard.antt build_dashboard,
--                         Reports/Cycle.antt build_cycle_report, Reports/History.antt build_history;
--                         Store/Snapshots.antt the stored reports
--   Quota.antt          ctc/metering/live_quota.py
--   Json.antt           the values of the JSON decoder, which is a parameter
--   Metering.antt       ctc/metering/extract.py, and ctc/sentinel.py on billable responses
--   Proxy.antt          proxy.py: which requests are billed, what a rejection means;
--                         Proxy/Body.antt assemble_request_body, Proxy/Gate.antt what lets a
--                         billable request through,
--                         Proxy/Failover.antt the forward loop of _serve and the bill after it,
--                         Proxy/Bridge.antt ctc/routing/anthropic_bridge.py
--   Health.antt         ctc/auth/pat_health.py: the sweep over the givers' PATs; Store/Pats.antt the
--                         statements on giver_pats
--   Access.antt         ctc/api/rate_limit.py; Access/Tokens.antt the proxy tokens of
--                         ctc/store/auth_store.py, ctc/auth/registry.py and api_server.py
--   Web.antt            ctc/api/serializers.py and the marketplace's handlers of
--                       ctc/api/web_routes.py
--   Tools.antt          tools/repair_baseline.py and tools/retract_dead_pledges.py, without their
--                         command lines
--   Examples.antt       a small team's tables, the runs on them and the theorems at concrete inputs
-- A module's children prove what it does. The proxy and the control plane call the engine's methods;
-- every balance is derived from the rows, so a method is correct when the rows that it writes move
-- the derived balances as it promises.
--
-- How state and operations correspond
--   A method is a function of its arguments and of the tables into a result and the new tables; an
--   exception is an error value with the class of the exception and without its text. `transaction`
--   is BEGIN IMMEDIATE, COMMIT on a return and ROLLBACK on a raise. A primary key that is taken is
--   refused by the error `integrity`. A table lists its rows in the order of insertion; where SQL
--   leaves an order open, this is the order. The uuid of a new row is an argument.
--   Identifiers and tags are only compared, so they are numbers; a time is a number of epoch seconds;
--   an amount is a signed integer in nano-AIU, as in Python.
--
-- Bounds and fuel
--   Nearly every loop is over a list, so no fuel is needed, and Python's integers have no bound. The
--   forward loop counts its attempts down, as the code counts them up to its cap; the eviction of
--   tokens has the number of the active tokens as its fuel, and each turn removes one. A time that the
--   program reads as a float is a number of whole seconds here.
--
-- Not modelled
--   Sockets, HTTP framing and TLS (proxy.py, api_server.py, ctc/api), the other command line tools,
--   encryption and OAuth, redaction, settings, sessions, chunked request bodies, and the
--   failures of SQLite other than a taken key. The calendar, the registry of PATs, the fetch from
--   GitHub, the order on names, and the texts of formatted times and amounts are parameters.
pub mod Common
pub mod Domain
pub mod Store
pub mod Engine
pub mod Routing
pub mod Standing
pub mod Reports
pub mod Quota
pub mod Json
pub mod Metering
pub mod Proxy
pub mod Health
pub mod Access
pub mod Web
pub mod Tools
pub mod Examples
