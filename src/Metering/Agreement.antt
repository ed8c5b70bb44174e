-- ===== src/Metering/Agreement.antt =====
-- The proxy's bill and the sentinel's reading of the same body.
use ctc.Common.{◌≡◌, Bool, true, false, not, ℤ, pos, ◌≤ℤ◌, is_none}
use ctc.Json.{Json}
use ctc.Metering.{usage_from_obj, field_present, UsageClass, present_positive, present_zero, absent}

-- The sign of a charge that the reading of the sentinel goes with.
pub data Agrees (charge : ℤ) (found : UsageClass) : Type 0 where
  no_charge : found ≡ absent → charge ≡ pos 0 → Agrees charge found
  nonnegative : found ≡ present_positive → pos 0 ≤ℤ charge → Agrees charge found
  nonpositive : found ≡ present_zero → charge ≤ℤ pos 0 → Agrees charge found

-- The two tests for the field agree on a value that is finite.
unfoldable pub IsTame : Json → Type 0
IsTame j = field_present j ≡ not (is_none (usage_from_obj j))

-- The charge that goes with the test for a positive value.
abbrev SignOf : Bool → ℤ → Type 0
SignOf true v = pos 0 ≤ℤ v
SignOf false v = v ≤ℤ pos 0
