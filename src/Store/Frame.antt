-- ===== src/Store/Frame.antt =====
-- A part of the tables that a method leaves as it is, whether it returns or raises.
use ctc.Common.{◌≡◌, refl, ◌∙◌}
use ctc.Store.{Db, Result, ok, err, Action, transaction, settle, ◌>>=◌}

module _ {V : Type 0} (view : Db → V) where
  abbrev pub Keeps : {A : Type 0} → Action A → Type 0
  Keeps m = (s : Db) → view (m s).1 ≡ view s

  bound-Keeps :
      {A B : Type 0} (f : A → Action B) (s : Db)
      → ((a : A) → Keeps (f a))
      → (r : Result A) (t : Db) → view t ≡ view s
      → view (((λ _. (r, t)) >>= f) s).1 ≡ view s
  bound-Keeps f s k (ok a) t h = k a t ∙ h
  bound-Keeps f s k (err e) t h = h

  -- A sequence of methods that keep it.
  pub >>=-Keeps :
      {A B : Type 0} (m : Action A) (f : A → Action B)
      → Keeps m
      → ((a : A) → Keeps (f a))
      → Keeps (m >>= f)
  >>=-Keeps m f h k s = bound-Keeps f s k (m s).0 (m s).1 (h s)

  settled-Keeps :
      {A : Type 0} (s : Db) (r : Result A) (t : Db)
      → view t ≡ view s
      → view (settle s (r, t)).1 ≡ view s
  settled-Keeps s (ok a) t h = h
  settled-Keeps s (err e) t h = refl

  pub transaction-Keeps : {A : Type 0} (m : Action A) → Keeps m → Keeps (transaction m)
  unfolding transaction
  transaction-Keeps m h s = settled-Keeps s (m s).0 (m s).1 (h s)
