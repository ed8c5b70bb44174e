-- ===== src/Standing.antt =====
-- ctc/accounting/tiers.py and leaderboard.py: who carries the marketplace. `name_le` is Python's order
-- on names.
use ctc.Common.{
  ℕ, suc, ◌*◌, ◌/◌, String, Bool, true, false, not, ◌&&◌, ◌||◌, List, [], ◌∷◌, ◌++◌, ℤ, pos, ◌-ℤ◌,
  ltb_ℤ, leb_ℤ, ◌==◌, map, filter, sort_by, contains, length, if◌then◌else◌,
}
use ctc.Domain.{UserId, CycleId}
use ctc.Store.{Db}
use ctc.Store.Query.{donated_live, consumed_from_others, consumed_total}
use ctc.Engine.{dead_pat_givers}
pub mod Ranking
pub mod Leaderboard

pub data Tier : Type 0 where
  aristocrat baron bourgeois commoner peasant beggar newcomer : Tier

pub record TierInput : Type 0 where
  pub user_id : UserId
  pub name : String
  pub donated : ℤ
  pub consumed : ℤ

pub record TierResult : Type 0 where
  pub user_id : UserId
  pub name : String
  pub net : ℤ
  pub tier : Tier

abbrev pub net_of : TierInput → ℤ
net_of e = e.donated -ℤ e.consumed

abbrev pub is_zero : ℤ → Bool
is_zero x = leb_ℤ x (pos 0) && leb_ℤ (pos 0) x

-- `e.donated == 0 and e.consumed == 0`
abbrev pub is_idle : TierInput → Bool
is_idle e = is_zero e.donated && is_zero e.consumed

-- `_POSITIVE_BANDS[k]` and `_NEGATIVE_BANDS[k]`, at the indices that a rank below the count gives.
abbrev pub positive_band : ℕ → Tier
positive_band k =
    if k == 0 then aristocrat else if k == 1 then baron else if k == 2 then bourgeois else commoner

abbrev pub negative_band : ℕ → Tier
negative_band k = if k == 0 then beggar else peasant

abbrev pub ranked : Tier → TierInput → TierResult
ranked t e = record { user_id = e.user_id; name = e.name; net = net_of e; tier = t }

-- The two loops over the ranks: the row of rank `i` out of `count`.
unfoldable pub band_rows : (ℕ → Tier) → ℕ → ℕ → ℕ → List TierInput → List TierResult
band_rows band bands count i [] = []
band_rows band bands count i (e ∷ es) =
    ranked (band (i * bands / count)) e ∷ band_rows band bands count (suc i) es

abbrev pub newcomer_row : TierInput → TierResult
newcomer_row e = record { user_id = e.user_id; name = e.name; net = pos 0; tier = newcomer }

module _ (name_le : String → String → Bool) where
  -- The sort keys `(-net, name)`, `(net, name)` and `name`.
  abbrev pub by_net_desc : ℤ × String → ℤ × String → Bool
  by_net_desc (x, m) (y, n) = ltb_ℤ y x || leb_ℤ y x && name_le m n

  abbrev pub by_net_asc : ℤ × String → ℤ × String → Bool
  by_net_asc (x, m) (y, n) = ltb_ℤ x y || leb_ℤ x y && name_le m n

  abbrev pub positives : List TierInput → List TierInput
  positives active =
      sort_by (λ a b. by_net_desc (net_of a, a.name) (net_of b, b.name))
        (filter (λ e. leb_ℤ (pos 0) (net_of e)) active)

  abbrev pub negatives : List TierInput → List TierInput
  negatives active =
      sort_by (λ a b. by_net_asc (net_of a, a.name) (net_of b, b.name))
        (filter (λ e. ltb_ℤ (net_of e) (pos 0)) active)

  unfoldable pub positive_rows : List TierInput → List TierResult
  positive_rows active = band_rows positive_band 4 (length (positives active)) 0 (positives active)

  unfoldable pub negative_rows : List TierInput → List TierResult
  negative_rows active =
      sort_by (λ a b. by_net_desc (a.net, a.name) (b.net, b.name))
        (band_rows negative_band 2 (length (negatives active)) 0 (negatives active))

  unfoldable pub newcomer_rows : List TierInput → List TierResult
  newcomer_rows entries =
      map newcomer_row (sort_by (λ a b. name_le a.name b.name) (filter is_idle entries))

  unfoldable pub assign_tiers : List TierInput → List TierResult
  assign_tiers entries =
      let active = filter (λ e. not (is_idle e)) entries in
      (positive_rows active ++ negative_rows active) ++ newcomer_rows entries
