-- ===== src/Examples/Standings.antt =====
-- Tiers and standings, on the team's tables and on a few entries.
use ctc.Common.{
  ◌≡◌, refl, true, false, String, Bool, List, [], ◌∷◌, ℤ, pos, ◌+ℤ◌, ◌-ℤ◌, map, filter, length,
  insert_by, sort_by, contains,
}
use mathlib.Core.List.{Perm}
use ctc.Domain.{UserId}
use ctc.Engine.{dead_pat_givers, dead_in, is_dead_verdict}
use ctc.Standing.{
  TierInput, Tier, aristocrat, bourgeois, beggar, newcomer, band_rows, positive_rows, negative_rows,
  newcomer_rows, assign_tiers,
}
use ctc.Standing.Ranking.{standing}
use ctc.Standing.Leaderboard.{
  LeaderboardUser, is_host, member, build_leaderboard, build_leaderboard-perm,
}
use ctc.Examples.{team}

-- An order in which all names are equal.
abbrev any_name : String → String → Bool
any_name m n = true

abbrev entry : UserId → String → ℤ → ℤ → TierInput
entry i n d c = record { user_id = i; name = n; donated = d; consumed = c }

abbrev entries : List TierInput
entries =
    entry 1 "ann" (pos 10) (pos 4)
    ∷ entry 2 "bob" (pos 0) (pos 9)
    ∷ entry 3 "cat" (pos 0) (pos 0)
    ∷ entry 4 "dan" (pos 50) (pos 0)
    ∷ []

-- The largest donor comes first, then the other donor, the taker and the newcomer.
assign_tiers_run :
    map {B = UserId × Tier} (λ r. (r.user_id, r.tier)) (assign_tiers any_name entries)
    ≡ (4, aristocrat) ∷ (1, bourgeois) ∷ (2, beggar) ∷ (3, newcomer) ∷ []
unfolding assign_tiers positive_rows negative_rows newcomer_rows band_rows filter length insert_by
    sort_by ◌+ℤ◌ ◌-ℤ◌
assign_tiers_run = refl

abbrev users : List LeaderboardUser
users =
    record { user_id = 10; name = "host"; is_giver = true }
    ∷ record { user_id = 20; name = "guest"; is_giver = false }
    ∷ []

hosts : map member (filter (is_host team) users) ≡ (10, "host") ∷ []
unfolding filter dead_pat_givers dead_in is_dead_verdict contains
hosts = refl

build_leaderboard-perm_example :
    Perm
      (map standing (build_leaderboard any_name team users 1 5).standings)
      (map member (filter (is_host team) users))
build_leaderboard-perm_example = build_leaderboard-perm any_name team users 1 5
