-- ===== src/Tools.antt =====
-- The operators' scripts that write to the ledger: tools/repair_baseline.py and
-- tools/retract_dead_pledges.py. Their command lines and prompts are not modelled.
pub mod Repair
pub mod DeadPledges
