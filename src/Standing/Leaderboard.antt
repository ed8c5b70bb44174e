-- ===== src/Standing/Leaderboard.antt =====
-- ctc/accounting/leaderboard.py: giver_tier_inputs and build_leaderboard.
use ctc.Common.{
  ℕ, zero, suc, ◌≡◌, refl, sym, String, Bool, true, not, ◌&&◌, List, [], ◌∷◌, ℤ, pos, ltb_ℤ, leb_ℤ,
  map, filter, sort_by, contains, if◌then◌else◌,
}
use mathlib.Core.List.{Perm}
use ctc.Domain.{UserId, CycleId}
use ctc.Store.{Db}
use ctc.Store.Query.{donated_live, consumed_from_others, consumed_total}
use ctc.Engine.{dead_pat_givers}
use ctc.Standing.{TierInput, TierResult, assign_tiers}
use ctc.Standing.Ranking.{entrant, standing, assign_tiers-perm}

pub record LeaderboardUser : Type 0 where
  pub user_id : UserId
  pub name : String
  pub is_giver : Bool

pub record TrackEntry : Type 0 where
  pub user_id : UserId
  pub name : String
  pub value : ℤ

pub record Leaderboard : Type 0 where
  pub generous : List TrackEntry
  pub top_pro : List TrackEntry
  pub top_noob : List TrackEntry
  pub standings : List TierResult

-- A giver whose PAT is not definitively dead.
abbrev pub is_host : Db → LeaderboardUser → Bool
is_host s u = u.is_giver && not (contains (dead_pat_givers s) u.user_id)

abbrev pub tier_input : Db → CycleId → LeaderboardUser → TierInput
tier_input s cycle_id u = record {
  user_id = u.user_id;
  name = u.name;
  donated = donated_live s cycle_id u.user_id;
  consumed = consumed_from_others s cycle_id u.user_id;
}

unfoldable pub giver_tier_inputs : Db → List LeaderboardUser → CycleId → List TierInput
giver_tier_inputs s users cycle_id = map (tier_input s cycle_id) (filter (is_host s) users)

-- A candidate for each user who passes the test and has a value above zero.
unfoldable pub candidates :
    (LeaderboardUser → Bool) → (UserId → ℤ) → List LeaderboardUser → List TrackEntry
candidates p value [] = []
candidates p value (u ∷ users) =
    let rest = candidates p value users in
    if p u && ltb_ℤ (pos 0) (value u.user_id)
    then record { user_id = u.user_id; name = u.name; value = value u.user_id } ∷ rest
    else rest

-- `xs[:n]`
unfoldable pub take {ℓ} : {A : Type ℓ} → ℕ → List A → List A
take zero xs = []
take (suc n) [] = []
take (suc n) (x ∷ xs) = x ∷ take n xs

abbrev pub larger_value : TrackEntry → TrackEntry → Bool
larger_value a b = leb_ℤ b.value a.value

abbrev pub track :
    ℕ → (LeaderboardUser → Bool) → (UserId → ℤ) → List LeaderboardUser → List TrackEntry
track top_n p value users = take top_n (sort_by larger_value (candidates p value users))

abbrev pub member : LeaderboardUser → UserId × String
member u = (u.user_id, u.name)

module _ (name_le : String → String → Bool) where
  unfoldable pub build_leaderboard : Db → List LeaderboardUser → CycleId → ℕ → Leaderboard
  build_leaderboard s users cycle_id top_n = record {
    generous = track top_n (λ _. true) (λ i. donated_live s cycle_id i) users;
    top_pro = track top_n (is_host s) (λ i. consumed_total s cycle_id i) users;
    top_noob = track top_n (λ u. not u.is_giver) (λ i. consumed_total s cycle_id i) users;
    standings = assign_tiers name_le (giver_tier_inputs s users cycle_id);
  }

  map-tier_input :
      (s : Db) (c : CycleId) (us : List LeaderboardUser)
      → map entrant (map (tier_input s c) us) ≡ map member us
  map-tier_input s c [] = refl
  map-tier_input s c (u ∷ us) = rw (map-tier_input s c us) refl

  -- The standings rank every giver whose PAT is not dead, each once, and nobody else.
  pub build_leaderboard-perm :
      (s : Db) (users : List LeaderboardUser) (c : CycleId) (top_n : ℕ)
      → Perm
          (map standing (build_leaderboard s users c top_n).standings)
          (map member (filter (is_host s) users))
  unfolding build_leaderboard giver_tier_inputs
  build_leaderboard-perm s users c top_n =
      rw (sym (map-tier_input s c (filter (is_host s) users)))
        (assign_tiers-perm name_le (giver_tier_inputs s users c))
