-- ===== src/Routing/Pin.antt =====
-- ctc/routing/attribution.py: pin_source and pinned_source, with the sweep of expired pins. A client's
-- session is keyed by its user and its session identifier. Times are whole seconds.
use ctc.Common.{
  ℕ, ◌+◌, ◌-◌, Bool, true, false, not, ◌&&◌, ◌||◌, Option, none, some, List, [], ◌∷◌, ◌++◌, leb,
  ltb, ◌==◌, is_none, filter, find_first, update_where, if◌then◌else◌,
}
use ctc.Domain.{CycleId, UserId, Time}
use ctc.Store.{Db}
use ctc.Routing.{Source, Health, is_dead}
use ctc.Routing.Select.{bucket_has_headroom}
pub mod Reuse

abbrev pub session_pin_min_ttl_s : ℕ
session_pin_min_ttl_s = 60

abbrev pub session_pin_max_ttl_s : ℕ
session_pin_max_ttl_s = 1800

abbrev pub SessionKey : Type 0
SessionKey = UserId × ℕ

pub record SessionPin : Type 0 where
  pub key : SessionKey
  pub source : Source
  pub expires_at : Time

abbrev pub has_key : SessionKey → SessionPin → Bool
has_key k p = p.key.0 == k.0 && p.key.1 == k.1

abbrev pub is_unexpired : Time → SessionPin → Bool
is_unexpired now p = not (leb p.expires_at now)

unfoldable pub sweep_expired_pins : Time → List SessionPin → List SessionPin
sweep_expired_pins now pins = filter (is_unexpired now) pins

-- `max(MIN, min(MAX, expires_at - now))`; a difference below zero is below the minimum.
unfoldable pub ttl_of : Option Time → Time → ℕ
ttl_of none now = session_pin_max_ttl_s
ttl_of (some e) now =
    let capped = if leb session_pin_max_ttl_s (e - now) then session_pin_max_ttl_s else e - now in
    if leb capped session_pin_min_ttl_s then session_pin_min_ttl_s else capped

-- `self._session_pins[key] = ...`
unfoldable pub set_pin : SessionPin → List SessionPin → List SessionPin
set_pin p pins =
    if is_none (find_first (has_key p.key) pins)
    then pins ++ p ∷ []
    else update_where (has_key p.key) (λ _. p) pins

unfoldable pub pin_source :
    Option SessionKey → Source → Option Time → Time → List SessionPin → List SessionPin
pin_source none source expires_at now pins = pins
pin_source (some k) source expires_at now pins =
    set_pin (record { key = k; source = source; expires_at = now + ttl_of expires_at now })
      (sweep_expired_pins now pins)

-- The checks of `pinned_source` on the entry that it finds.
unfoldable pub usable_pin : Db → Option CycleId → Health → Time → Option SessionPin → Option Source
usable_pin s cycle_id health now none = none
usable_pin s cycle_id health now (some p) =
    if leb p.expires_at now || is_dead health p.source.giver_id then none else elim cycle_id [
      | none ↦ some p.source
      | some c ↦ if not (bucket_has_headroom s c p.source) then none else some p.source
    ]

-- Returns the source and the pins that are left.
unfoldable pub pinned_source :
    Option SessionKey
    → Db
    → Option CycleId
    → Health
    → Time
    → List SessionPin
    → Option Source × List SessionPin
pinned_source none s cycle_id health now pins = (none, pins)
pinned_source (some k) s cycle_id health now pins =
    let swept = sweep_expired_pins now pins in
    (usable_pin s cycle_id health now (find_first (has_key k) swept), swept)
