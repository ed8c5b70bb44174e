-- ===== src/Examples/Quotas.antt =====
-- Quotas and pledges, run on the team's tables.
use ctc.Common.{
  ◌≡◌, ◌↔◌, refl, some, [], ◌∷◌, pos, ◌+ℤ◌, ◌-ℤ◌, ◌≤ℤ◌, arith, min_ℤ, max_ℤ, sum_where, find,
  find_first, update_where,
}
use ctc.Domain.{nano}
use ctc.Store.{Db, ok, get_giver_cycle, with_row}
use ctc.Store.Query.{pool_consumed_from, pool_granted_out, granted_out_by_source}
use ctc.Engine.{pledge_used, pledge_remaining}
use ctc.Engine.Pledge.{
  set_quota, set_pledge, retract_pledge, sync_quota_ceiling, Live, quota_or_zero,
}
use ctc.Engine.Pledge.Range.{
  IsPledged, Pledges, set_pledge-ok_iff, set_pledge-Pledges, set_quota-Pledges,
}
use ctc.Engine.Pledge.Retract.{retract_pledge_once}
use ctc.Engine.Pledge.Ceiling.{sync_quota_ceiling_mono, sync_quota_ceiling-max}
use ctc.Examples.{host_row, team}

program : Unit {0}
unfolding set_quota set_pledge retract_pledge sync_quota_ceiling get_giver_cycle with_row
    pool_consumed_from pool_granted_out granted_out_by_source pledge_used pledge_remaining sum_where
    find find_first update_where nano min_ℤ max_ℤ ◌+ℤ◌ ◌-ℤ◌
program = tt

abbrev repledged : Db
repledged = record team { giver_cycles = record host_row { pledge = pos 350 } ∷ [] }

pledge_run : set_pledge 1 10 (pos 350) team ≡ (ok tt, repledged)
unfolding program
pledge_run = refl

set_pledge-ok_iff_example :
    ((set_pledge 1 10 (pos 350) team).0 ≡ ok tt)
    ↔ ((pledge_used team 1 10 ≤ℤ pos 350) × (pos 350 ≤ℤ quota_or_zero (get_giver_cycle team 1 10)))
set_pledge-ok_iff_example = set_pledge-ok_iff team 1 10 (pos 350)

set_pledge-Pledges_example :
    Pledges team 1 10 repledged (quota_or_zero (get_giver_cycle team 1 10)) (pos 350)
set_pledge-Pledges_example = set_pledge-Pledges team 1 10 (pos 350) pledge_run

pub host-IsPledged : IsPledged team 1 10 host_row
unfolding program
host-IsPledged = record { found = refl; covers = omega arith; within = omega arith }

abbrev cut_down : Db
cut_down = record team { giver_cycles = record host_row { quota = pos 150; pledge = pos 150 } ∷ [] }

quota_run : set_quota 1 10 (pos 150) team ≡ (ok tt, cut_down)
unfolding program
quota_run = refl

set_quota-Pledges_example : Pledges team 1 10 cut_down (pos 150) (min_ℤ (pos 200) (pos 150))
set_quota-Pledges_example = set_quota-Pledges team 1 10 (pos 150) host-IsPledged quota_run

retract_pledge_once_example :
    (s' : Db) × (retract_pledge 1 10 team ≡ (ok (pos 200 -ℤ pledge_used team 1 10), s'))
    × Pledges team 1 10 s' (pos 1000) (pledge_used team 1 10)
    × (pledge_remaining s' 1 10 ≡ pos 0)
    × (retract_pledge 1 10 s' ≡ (ok (pos 0), s'))
retract_pledge_once_example = retract_pledge_once team 1 10 host-IsPledged

abbrev live : Live
live = record { entitlement = some (pos 2); remaining = some (pos 1) }

sync_quota_ceiling_mono_example :
    ((sync_quota_ceiling 1 10 (some live) team).0 ≡ ok tt)
    × (quota_or_zero (get_giver_cycle team 1 10)
        ≤ℤ quota_or_zero (get_giver_cycle (sync_quota_ceiling 1 10 (some live) team).1 1 10))
sync_quota_ceiling_mono_example = sync_quota_ceiling_mono team 1 10 (some live)

sync_quota_ceiling-max_example :
    (s' : Db) × (sync_quota_ceiling 1 10 (some live) team ≡ (ok tt, s'))
    × Pledges team 1 10 s' (max_ℤ (pos 1000) (nano (pos 2))) (pos 200)
sync_quota_ceiling-max_example =
    sync_quota_ceiling-max team 1 10 live (pos 2) host-IsPledged refl (omega arith)
