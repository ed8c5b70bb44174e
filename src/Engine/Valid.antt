-- ===== src/Engine/Valid.antt =====
-- What a method of ctc/accounting/engine.py leaves behind: well-formed tables, however it ends, and
-- the tables that it found when it raises.
use ctc.Common.{
  ◌≡◌, refl, ◌⊎◌, inl, inr, subst, sym, ◌∙◌, Bool, true, false, Bool-cases, Option, none, some,
  Option-cases, List, [], ◌∷◌, ◌++◌, ℤ, pos, ◌<ℤ◌, All, All-append, is_none, find, arith,
  if◌then◌else◌,
}
use ctc.Domain.{GrantId, Grant, PoolContribution, Event}
use ctc.Store.{
  Db, Error, Result, ok, err, Action, transaction, settle, ◌>>=◌, raise, with_grant, get_grant,
  add_grant, add_pool_contribution, get_contribution,
}
use ctc.Store.Valid.{IsValid, IsOrigin, GrantIsValid, ContributionIsValid, with_grant-IsValid}
pub mod Booking
pub mod Spending
pub mod Loops
pub mod Pool
pub mod Run

-- The tables that a well-formed ledger is about.
abbrev pub ledger : Db → List Grant × (List PoolContribution × List Event)
ledger s = (s.grants, (s.pool_contributions, s.consumption_events))

pub IsValid-ledger : {s s' : Db} → ledger s' ≡ ledger s → IsValid s → IsValid s'
IsValid-ledger e v = record {
  events = subst (All (λ e. pos 0 <ℤ e.credits)) (λ i. (sym e i).1.1) v.events;
  grants = subst (λ gs. All (GrantIsValid gs) gs) (λ i. (sym e i).0) v.grants;
  found = subst (λ gs. All (λ g. find (λ x. x.id) g.id gs ≡ some g) gs) (λ i. (sym e i).0) v.found;
  contributions = subst (λ t. All (ContributionIsValid t.0) t.1.0) (sym e) v.contributions;
}

-- However the method ends, it leaves valid tables.
abbrev pub Safe : {A : Type 0} → Action A → Type 0
Safe m = (s : Db) → IsValid s → IsValid (m s).1

-- A method that raises leaves the tables as they were.
abbrev pub Atomic : {A : Type 0} → Action A → Type 0
Atomic m = (s : Db) (e : Error) → (m s).0 ≡ err e → (m s).1 ≡ s

module _ {A : Type 0} where
  not_err : {a : A} {e : Error} → ok a ≡ err e → ⊥
  not_err h = ground (arith, h)

  settled-Atomic :
      (s : Db) (r : Result A) (t : Db) (e : Error)
      → (settle s (r, t)).0 ≡ err e
      → (settle s (r, t)).1 ≡ s
  settled-Atomic s (ok a) t e h = absurd (not_err h)
  settled-Atomic s (err x) t e h = refl

  pub transaction-Atomic : (m : Action A) → Atomic (transaction m)
  unfolding transaction
  transaction-Atomic m s = settled-Atomic s (m s).0 (m s).1

  pub result_cases : (r : Result A) → ((a : A) × (r ≡ ok a)) ⊎ ((e : Error) × (r ≡ err e))
  result_cases (ok a) = inl (a, refl)
  result_cases (err e) = inr (e, refl)

  -- An atomic method is safe when what it returns with is valid.
  pub Atomic-Safe :
      (m : Action A)
      → Atomic m
      → ((s : Db) (a : A) (s' : Db) → IsValid s → m s ≡ (ok a, s') → IsValid s')
      → Safe m
  Atomic-Safe m atomic h s v = elim (result_cases (m s).0) [
    | inl (a, e) ↦ h s a (m s).1 v (λ i. (e i, (m s).1))
    | inr (x, e) ↦ subst IsValid (sym (atomic s x e)) v
  ]

  settled-Safe :
      (s : Db) (r : Result A) (t : Db) → IsValid s → IsValid t → IsValid (settle s (r, t)).1
  settled-Safe s (ok a) t v w = w
  settled-Safe s (err e) t v w = v

  pub transaction-Safe : (m : Action A) → Safe m → Safe (transaction m)
  unfolding transaction
  transaction-Safe m h s v = settled-Safe s (m s).0 (m s).1 v (h s v)

bound-Safe :
    {A B : Type 0} (f : A → Action B) (s t : Db) (r : Result A)
    → IsValid t
    → ((a : A) → r ≡ ok a → IsValid (f a t).1)
    → IsValid (((λ _. (r, t)) >>= f) s).1
bound-Safe f s t (ok a) v k = k a refl
bound-Safe f s t (err e) v k = v

-- A sequence whose first part leaves valid tables, and whose second part does from there.
pub >>=-Safe :
    {A B : Type 0} (m : Action A) (f : A → Action B) (s : Db)
    → IsValid (m s).1
    → ((a : A) (t : Db) → m s ≡ (ok a, t) → IsValid t → IsValid (f a t).1)
    → IsValid ((m >>= f) s).1
>>=-Safe m f s v k = bound-Safe f s (m s).1 (m s).0 v (λ a e. k a (m s).1 (λ i. (e i, (m s).1)) v)

-- Booking a grant that is valid if its identifier is new.
pub add_grant-Safe :
    (g : Grant) (s : Db)
    → IsValid s
    → (get_grant s g.id ≡ none → GrantIsValid s.grants g)
    → IsValid (add_grant g s).1
unfolding add_grant
add_grant-Safe g s v h = elim (Bool-cases (is_none (get_grant s g.id))) [
  | inl e ↦
      let fresh = is_none-eq (get_grant s g.id) e in rw e (with_grant-IsValid s g v fresh (h fresh))
  | inr e ↦ rw e v
]
  where
    is_none-eq : (o : Option Grant) → is_none o ≡ true → o ≡ none
    is_none-eq none k = refl
    is_none-eq (some _) k = absurd (ground (arith, k))

-- Booking a contribution that would be valid.
pub add_pool_contribution-Safe :
    (pc : PoolContribution) (s : Db)
    → IsValid s
    → ContributionIsValid s.grants pc
    → IsValid (add_pool_contribution pc s).1
unfolding add_pool_contribution
add_pool_contribution-Safe pc s v h = elim (Bool-cases (is_none (get_contribution s pc.id))) [
  | inl e ↦ rw e (record {
    events = v.events;
    grants = v.grants;
    found = v.found;
    contributions = All-append _ s.pool_contributions pc v.contributions h;
  })
  | inr e ↦ rw e v
]
