-- ===== src/Store/Valid.antt =====
-- The well-formedness of the tables: what every method of AccountingEngine keeps.
use ctc.Common.{
  ◌≡◌, ◌≢◌, Option, none, some, List, ◌∷◌, [], ◌++◌, pos, ◌<ℤ◌, All, All-append, All-map, find,
  find_append_hit, find_append_new, ==_refl, refl,
}
use ctc.Domain.{GrantId, Grant, PoolContribution, Event}
use ctc.Store.{Db, with_event, with_grant, get_grant}

-- The grant that a re-donation or a returned credit goes back to: it is there, and it is no
-- re-donation itself.
abbrev pub IsOrigin : List Grant → GrantId → Type 0
IsOrigin grants o =
    (og : Grant) × (find (λ g. g.id) o grants ≡ some og) × (og.origin_grant_id ≡ none)

abbrev pub GoesBack : List Grant → GrantId → Option GrantId → Type 0
GoesBack grants i none = Unit
GoesBack grants i (some o) = (i ≢ o) × IsOrigin grants o

abbrev pub GrantIsValid : List Grant → Grant → Type 0
GrantIsValid grants g = (pos 0 <ℤ g.amount) × GoesBack grants g.id g.origin_grant_id

abbrev pub ContributionIsValid : List Grant → PoolContribution → Type 0
ContributionIsValid grants pc = (pos 0 <ℤ pc.amount) × IsOrigin grants pc.origin_grant_id

-- Every booked amount is positive, every grant is found by its identifier, and every chain of re-donation has depth one.
pub record IsValid (s : Db) : Type 0 where
  pub events : All (λ e. pos 0 <ℤ e.credits) s.consumption_events
  pub grants : All (GrantIsValid s.grants) s.grants
  pub found : All (λ g. find (λ x. x.id) g.id s.grants ≡ some g) s.grants
  pub contributions : All (ContributionIsValid s.grants) s.pool_contributions

pub IsOrigin-append :
    (gs : List Grant) (g : Grant) (o : GrantId) → IsOrigin gs o → IsOrigin (gs ++ g ∷ []) o
IsOrigin-append gs g o (og, e, f) = (og, find_append_hit (λ g. g.id) o gs g e, f)

GoesBack-append :
    (gs : List Grant) (g : Grant) (i : GrantId) (o : Option GrantId)
    → GoesBack gs i o
    → GoesBack (gs ++ g ∷ []) i o
GoesBack-append gs g i none h = tt
GoesBack-append gs g i (some o) h = (h.0, IsOrigin-append gs g o h.1)

pub with_event-IsValid :
    (s : Db) (e : Event) → IsValid s → pos 0 <ℤ e.credits → IsValid (with_event s e)
with_event-IsValid s e v h = record {
  events = All-append _ s.consumption_events e v.events h;
  grants = v.grants;
  found = v.found;
  contributions = v.contributions;
}

found_new :
    (gs : List Grant) (g : Grant)
    → find (λ x. x.id) g.id gs ≡ none
    → find (λ x. x.id) g.id (gs ++ g ∷ []) ≡ some g
found_new gs g fresh = rw (find_append_new (λ x. x.id) g.id gs g fresh, ==_refl g.id) refl

pub with_grant-IsValid :
    (s : Db) (g : Grant)
    → IsValid s
    → get_grant s g.id ≡ none
    → GrantIsValid s.grants g
    → IsValid (with_grant s g)
unfolding get_grant
with_grant-IsValid s g v fresh h = record {
  events = v.events;
  grants =
      All-append _ s.grants g
        (All-map _ _ s.grants (λ x k. (k.0, GoesBack-append s.grants g x.id x.origin_grant_id k.1))
          v.grants)
        (h.0, GoesBack-append s.grants g g.id g.origin_grant_id h.1);
  found =
      All-append _ s.grants g
        (All-map _ _ s.grants (λ x k. find_append_hit (λ y. y.id) x.id s.grants g k) v.found)
        (found_new s.grants g fresh);
  contributions =
      All-map _ _ s.pool_contributions
        (λ x k. (k.0, IsOrigin-append s.grants g x.origin_grant_id k.1)) v.contributions;
}
