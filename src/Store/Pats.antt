-- ===== src/Store/Pats.antt =====
-- ctc/store/auth_store.py: the statements on `giver_pats` of the health checks.
use ctc.Common.{String, Option, none, some, List, [], ◌∷◌, ℤ, ◌==◌, find, update_where}
use ctc.Domain.{UserId, Time}
use ctc.Store.{HealthStatus, CheckFailure, GiverPat, Db}

-- `UPDATE giver_pats SET ... WHERE user_id = ?`
abbrev pub update_pat : (GiverPat → GiverPat) → UserId → Db → Db
update_pat f user_id s = record s {
  giver_pats = update_where (λ p. p.user_id == user_id) f s.giver_pats;
}

unfoldable pub set_giver_quota_snapshot : UserId → ℤ → ℤ → Option String → Db → Db
set_giver_quota_snapshot user_id entitlement remaining reset_date s =
    update_pat
      (λ p. record p {
        entitlement = some entitlement;
        remaining_at_submit = some remaining;
        quota_reset_date = reset_date;
      })
      user_id s

unfoldable pub set_pat_health_ok : UserId → HealthStatus → Time → Db → Db
set_pat_health_ok user_id status now s =
    update_pat
      (λ p. record p {
        health_status = some status;
        health_error = none;
        health_checked_at = some now;
      })
      user_id s

unfoldable pub set_pat_health_error : UserId → CheckFailure → Time → Db → Db
set_pat_health_error user_id error now s =
    update_pat (λ p. record p { health_error = some error; health_checked_at = some now }) user_id s

unfoldable pub get_giver_pat : Db → UserId → Option GiverPat
get_giver_pat s user_id = find (λ p. p.user_id) user_id s.giver_pats

unfoldable pub list_giver_ids : List GiverPat → List UserId
list_giver_ids [] = []
list_giver_ids (p ∷ ps) = p.user_id ∷ list_giver_ids ps
