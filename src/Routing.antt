-- ===== src/Routing.antt =====
-- ctc/routing/attribution.py: which giver pays for a request, and the booking of what it cost. The
-- store of PATs is a parameter.
use ctc.Common.{
  ℕ, suc, Bool, true, false, not, ◌&&◌, Option, none, some, List, [], ◌∷◌, ℤ, pos, ◌-ℤ◌, ltb_ℤ,
  leb_ℤ, min_ℤ, ◌==◌, equals, contains, filter, if◌then◌else◌,
}
use ctc.Domain.{UserId, CycleId, GrantId, EventId, Time, Bucket, own, pool, grant, bypass, Grant}
use ctc.Store.{Db, Action, pure, gets, ◌>>=◌, ◌>>◌}
use ctc.Engine.{personal_remaining, pledge_remaining, grant_remaining, active_grants}
use ctc.Engine.Consume.{Tags, record_consumption}
pub mod Debit
pub mod Select
pub mod Pin

-- `PAT` texts are only passed on.
abbrev pub Pat : Type 0
Pat = ℕ

pub record Source : Type 0 where
  pub bucket : Bucket
  pub giver_id : UserId
  pub pat : Pat
  pub grant_id : Option GrantId

-- ctc/auth/identity.py
pub record ConsumerIdentity : Type 0 where
  pub user_id : UserId
  pub is_giver : Bool

-- The live remaining quota of a giver; `none` is unknown.
abbrev pub Health : Type 0
Health = UserId → Option ℤ

unfoldable pub is_dead : Health → UserId → Bool
is_dead health giver_id = elim (health giver_id) [ none ↦ false | some r ↦ leb_ℤ r (pos 0) ]

-- The order in which a debit draws: the selected grant, then the consumer's other active grants.
unfoldable pub other_grants : GrantId → List Grant → List (UserId × GrantId)
other_grants selected [] = []
other_grants selected (g ∷ gs) =
    if g.id == selected
    then other_grants selected gs
    else (g.donor_id, g.id) ∷ other_grants selected gs

abbrev grant_order : Source → Option GrantId → List Grant → List (UserId × GrantId)
grant_order source none active = []
grant_order source (some i) active = (source.giver_id, i) ∷ other_grants i active

unfoldable pub draw_order : Source → List Grant → List (UserId × GrantId)
unfolding other_grants
draw_order source active = elim source.bucket [
  | grant ↦ grant_order source source.grant_id active
  | _ ↦ []
]

-- The loop of `debit`; returns the residual cost.
unfoldable pub spill :
    (ℕ → EventId) → CycleId → UserId → Time → Tags → ℕ → ℤ → List (UserId × GrantId) → Action ℤ
spill new_id cycle_id consumer_id ts tags n residual [] = pure residual
spill new_id cycle_id consumer_id ts tags n residual ((giver_id, grant_id) ∷ order) =
    let go_on = λ (l : ℤ). spill new_id cycle_id consumer_id ts tags (suc n) l order in
    if leb_ℤ residual (pos 0) then pure residual else do
      room ← gets (λ s. grant_remaining s cycle_id grant_id)
      if leb_ℤ room (pos 0) then go_on residual else do
        record_consumption (new_id n) cycle_id consumer_id giver_id grant (min_ℤ room residual)
            (some grant_id) ts false tags
        go_on (residual -ℤ min_ℤ room residual)

-- The residual is booked on the original source, overshooting its limit if need be.
unfoldable pub book_residual :
    EventId → CycleId → UserId → Source → Time → Tags → ℤ → Action (Unit {0})
book_residual last_id cycle_id consumer_id source ts tags residual =
    if not (ltb_ℤ (pos 0) residual) then pure tt else do
      record_consumption last_id cycle_id consumer_id source.giver_id source.bucket residual
          source.grant_id ts true tags
      pure tt

unfoldable pub debit :
    EventId
    → (ℕ → EventId)
    → CycleId
    → ConsumerIdentity
    → Source
    → ℤ
    → Time
    → Tags
    → Action (Unit {0})
debit last_id new_id cycle_id consumer source cost ts tags =
    if leb_ℤ cost (pos 0) then pure tt else do
      active ← gets (λ s. active_grants s cycle_id consumer.user_id)
      residual ← spill new_id cycle_id consumer.user_id ts tags 0 cost (draw_order source active)
      book_residual last_id cycle_id consumer.user_id source ts tags residual
