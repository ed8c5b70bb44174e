-- ===== src/Domain/Status.antt =====
-- What the status of a request says, and how it moves with funding and with time.
use ctc.Common.{◌≤◌, ◌<◌, ◌≡◌, ◌↔◌, true, false, Option, none, some, ℤ, ◌≤ℤ◌, ◌<ℤ◌, arith}
use ctc.Domain.{Time, derive_status, is_closed}

-- A request takes funding exactly while it is not cancelled, is short of its amount, and has not
-- reached its expiry.
pub is_closed-derive_status_iff :
    (funded needed : ℤ) (expires now : Time) (c : Option Time)
    → (is_closed (derive_status funded needed expires now c) ≡ false)
      ↔ ((c ≡ none) × (funded <ℤ needed) × (now < expires))
unfolding is_closed derive_status
is_closed-derive_status_iff funded needed expires now none = ground arith
is_closed-derive_status_iff funded needed expires now (some t) = ground arith

-- Once a request is fulfilled, expired or cancelled, it stays closed: more funding and a later time
-- do not reopen it.
is_closed-derive_status_mono :
    (f f' needed : ℤ) (expires now now' : Time) (c : Option Time)
    → f ≤ℤ f'
    → now ≤ now'
    → is_closed (derive_status f needed expires now c) ≡ true
    → is_closed (derive_status f' needed expires now' c) ≡ true
unfolding is_closed derive_status
is_closed-derive_status_mono f f' needed expires now now' none h k e = ground arith
is_closed-derive_status_mono f f' needed expires now now' (some t) h k e = ground arith
