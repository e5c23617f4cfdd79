-- ===== src/Base/Keeps.antt =====
-- An invariant through a handler, one step of its `do` block at a time. `P` is a predicate on the
-- state that does not compute where these lemmas are applied.
use mathlib.Core.Path.{◌≡◌, refl}
use mathlib.Core.Bool.{Bool, true, false}
use opord_ai_demo.Base.Results.{
  Result, ok, err, Exec, continue, ◌>>=◌, ◌>>◌, guard, reading, map_err,
}

module _ {S E A B : Type 0} (P : S → Type 0) where
  continue-keeps :
      (f : A → Exec S E B) (r : Result E A) (s : S)
      → P s
      → ((a : A) → r ≡ ok a → P (f a s).1)
      → P (continue r f s).1
  continue-keeps f (ok a) s p h = h a refl
  continue-keeps f (err x) s p h = p

  -- Any step: the state that it leads to has `P`, and so do the states after it.
  pub after :
      (m : Exec S E A) (f : A → Exec S E B) {s : S}
      → P (m s).1
      → ((a : A) (t : S) → P t → P (f a t).1)
      → P ((m >>= f) s).1
  after m f {s} p h = continue-keeps f (m s).0 (m s).1 p (λ a _. h a (m s).1 p)

module _ {S E B : Type 0} (P : S → Type 0) where
  pub after_guard :
      (b : Bool) (x : E) (n : Exec S E B) {s : S}
      → P s
      → (b ≡ true → P (n s).1)
      → P ((guard b x >> n) s).1
  after_guard true x n p h = h refl
  after_guard false x n p h = p

module _ {S E D A B : Type 0} (P : S → Type 0) where
  -- A query leaves the state as it is; its value is known.
  pub after_reading :
      (q : S → Result D A) (x : D → E) (f : A → Exec S E B) {s : S}
      → P s
      → ((a : A) → q s ≡ ok a → P (f a s).1)
      → P ((reading q x >>= f) s).1
  after_reading q x f {s} p h = go (q s) h
    where
      go : (r : Result D A) → ((a : A) → r ≡ ok a → P (f a s).1) → P (continue (map_err x r) f s).1
      go (ok a) k = k a refl
      go (err y) k = p

module _ {S E D A B : Type 0} (Q : Result E B × S → Type 0) where
  -- The same, for a predicate on the whole outcome.
  pub reading_outcome :
      (q : S → Result D A) (x : D → E) (f : A → Exec S E B) (s : S)
      → ((y : D) → Q (err (x y), s))
      → ((a : A) → q s ≡ ok a → Q (f a s))
      → Q ((reading q x >>= f) s)
  reading_outcome q x f s p h = go (q s) h
    where
      go : (r : Result D A) → ((a : A) → r ≡ ok a → Q (f a s)) → Q (continue (map_err x r) f s)
      go (ok a) k = k a refl
      go (err y) k = p y
