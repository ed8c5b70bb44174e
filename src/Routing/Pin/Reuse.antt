-- ===== src/Routing/Pin/Reuse.antt =====
-- A pin is found again until it expires, and not after.
use ctc.Common.{
  ◌+◌, ◌≡◌, ◌≤◌, ◌<◌, refl, inl, inr, Bool, true, false, ◌&&◌, Bool-cases, Option, none, some, List,
  [], ◌∷◌, ◌++◌, leb, ◌==◌, ==_refl, is_none, filter, find_first, update_where, arith,
  if◌then◌else◌,
}
use ctc.Domain.{CycleId, Time}
use ctc.Store.{Db}
use ctc.Routing.{Source, Health, is_dead}
use ctc.Routing.Select.{bucket_has_headroom}
use ctc.Routing.Pin.{
  SessionKey, SessionPin, has_key, is_unexpired, sweep_expired_pins, ttl_of, set_pin, pin_source,
  usable_pin, pinned_source,
}

-- A lookup in the rows that are kept, after a row took the place of those that it matches.
module _ {A : Type 0} (mine alive : A → Bool) (new : A) (own : mine new ≡ true) where
  kept : Option A
  kept = if alive new then some new else none

  find_first-update_gone :
      (xs : List A)
      → alive new ≡ false
      → find_first mine (filter alive (update_where mine (λ _. new) xs)) ≡ none
  unfolding find_first filter update_where
  find_first-update_gone [] dead = refl
  find_first-update_gone (x ∷ xs) dead = elim (Bool-cases (mine x)) [
    | inl e ↦ rw (e, dead) (find_first-update_gone xs dead)
    | inr e ↦ elim (Bool-cases (alive x)) [
      | inl a ↦ rw (e, a, e) (find_first-update_gone xs dead)
      | inr a ↦ rw (e, a) (find_first-update_gone xs dead)
    ]
  ]

  find_first-update_kept :
      (xs : List A)
      → is_none (find_first mine xs) ≡ false
      → alive new ≡ true
      → find_first mine (filter alive (update_where mine (λ _. new) xs)) ≡ some new
  unfolding find_first filter update_where
  find_first-update_kept [] there live = absurd (ground arith)
  find_first-update_kept (x ∷ xs) there live = elim (Bool-cases (mine x)) [
    | inl e ↦ rw (e, live, own) refl
    | inr e ↦ elim (Bool-cases (alive x)) [
      | inl a ↦ rw (e, a, e) (find_first-update_kept xs (rw e at there) live)
      | inr a ↦ rw (e, a) (find_first-update_kept xs (rw e at there) live)
    ]
  ]

  find_first-append_kept :
      (xs : List A)
      → is_none (find_first mine xs) ≡ true
      → find_first mine (filter alive (xs ++ new ∷ [])) ≡ kept
  unfolding find_first filter kept
  find_first-append_kept [] absent = elim (Bool-cases (alive new)) [
    | inl a ↦ rw (a, own) refl
    | inr a ↦ rw a refl
  ]
  find_first-append_kept (x ∷ xs) absent = elim (Bool-cases (mine x)) [
    | inl e ↦ absurd (ground (arith, absent, e))
    | inr e ↦ elim (Bool-cases (alive x)) [
      | inl a ↦ rw (a, e) (find_first-append_kept xs (rw e at absent))
      | inr a ↦ rw a (find_first-append_kept xs (rw e at absent))
    ]
  ]

-- A pin lives for at least the shortest and at most the longest time to live.
ttl_of_bounds : (e : Option Time) (now : Time) → (60 ≤ ttl_of e now) × (ttl_of e now ≤ 1800)
unfolding ttl_of
ttl_of_bounds none now = (omega arith, omega arith)
ttl_of_bounds (some e) now = (ground arith, ground arith)

module _ (k : SessionKey) (source : Source) (expires_at : Option Time) (now later : Time) where
  -- The pin that pin_source leaves.
  abbrev pin_of : SessionPin
  pin_of = record { key = k; source = source; expires_at = now + ttl_of expires_at now }

  has_key_self : (x : SessionKey) → ((x.0 == x.0) && (x.1 == x.1)) ≡ true
  has_key_self x = rw (==_refl x.0, ==_refl x.1) refl

  find_first-sweep-set_pin :
      (pins : List SessionPin)
      → find_first (has_key k) (sweep_expired_pins later (set_pin pin_of pins))
        ≡ (if is_unexpired later pin_of then some pin_of else none)
  unfolding sweep_expired_pins set_pin kept
  find_first-sweep-set_pin pins = elim (Bool-cases (is_none (find_first (has_key k) pins))) [
    | inl absent ↦ rw absent (
        find_first-append_kept (has_key k) (is_unexpired later) pin_of (has_key_self k) pins absent)
    | inr there ↦ elim (Bool-cases (is_unexpired later pin_of)) [
      | inl live ↦
          rw (there, live)
            (find_first-update_kept (has_key k) (is_unexpired later) pin_of (has_key_self k) pins
              there live)
      | inr dead ↦
          rw (there, dead)
            (find_first-update_gone (has_key k) (is_unexpired later) pin_of (has_key_self k) pins
              dead)
    ]
  ]

  is_unexpired-pin_of : later < now + 60 → is_unexpired later pin_of ≡ true
  is_unexpired-pin_of early = ground (arith, (ttl_of_bounds expires_at now).0)

  is_expired-pin_of : now + 1800 ≤ later → is_unexpired later pin_of ≡ false
  is_expired-pin_of late = ground (arith, (ttl_of_bounds expires_at now).1)

  not_expired : later < now + 60 → leb (now + ttl_of expires_at now) later ≡ false
  not_expired early = ground (arith, (ttl_of_bounds expires_at now).0)

  module _ (s : Db) (health : Health) (pins : List SessionPin) where
    -- Whatever expiry the session was given and whatever was pinned before, a source that was pinned
    -- less than 60 seconds ago is found again for its session, as long as its giver is not reported
    -- dead and its bucket has headroom.
    pub pinned_source-pin_source :
        (c : CycleId)
        → later < now + 60
        → is_dead health source.giver_id ≡ false
        → bucket_has_headroom s c source ≡ true
        → (pinned_source
            (some k)
            s
            (some c)
            health
            later
            (pin_source (some k) source expires_at now pins)).0
          ≡ some source
    unfolding pinned_source pin_source usable_pin
    pinned_source-pin_source c early alive room =
        rw
          (
            find_first-sweep-set_pin (sweep_expired_pins now pins),
            is_unexpired-pin_of early,
            not_expired early,
            alive,
            room,
          )
          refl

    -- Whatever expiry the session was given, 1800 seconds after it was pinned the source is not found
    -- any more, for any cycle or none.
    pub pinned_source-pin_source_late :
        (c : Option CycleId)
        → now + 1800 ≤ later
        → (pinned_source
            (some k)
            s
            c
            health
            later
            (pin_source (some k) source expires_at now pins)).0
          ≡ none
    unfolding pinned_source pin_source usable_pin
    pinned_source-pin_source_late c late =
        rw (find_first-sweep-set_pin (sweep_expired_pins now pins), is_expired-pin_of late) refl
