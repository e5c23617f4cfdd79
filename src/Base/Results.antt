-- ===== src/Base/Results.antt =====
-- Errors as values, and handlers that read and write a state.
use mathlib.Core.Path.{◌≡◌, refl}
use mathlib.Core.Logic.{◌⊎◌, inl, inr}
use mathlib.Core.Bool.{Bool, true, false}

pub data Result {ℓ} (E A : Type ℓ) : Type ℓ where
  ok : A → Result E A
  err : E → Result E A

-- What was written before an error stays written: the state comes back beside the error too.
abbrev pub Exec : Type 0 → Type 0 → Type 0 → Type 0
Exec S E A = S → Result E A × S

module _ {S E A : Type 0} where
  abbrev pub pure : A → Exec S E A
  pure a s = (ok a, s)

  abbrev pub fail : E → Exec S E A
  fail e s = (err e, s)

module _ {S E A B : Type 0} where
  abbrev pub continue : Result E A → (A → Exec S E B) → Exec S E B
  continue (ok a) f s = f a s
  continue (err e) f s = (err e, s)

  infixl 5 ◌>>=◌ ◌>>◌
  abbrev pub ◌>>=◌ : Exec S E A → (A → Exec S E B) → Exec S E B
  ◌>>=◌ m f s = let (r, s') = m s in continue r f s'

  abbrev pub ◌>>◌ : Exec S E A → Exec S E B → Exec S E B
  m >> n = m >>= λ _. n

module _ {S E : Type 0} where
  -- `if !c { return …, err }`
  abbrev pub guard : Bool → E → Exec S E (Unit {0})
  guard true e s = (ok tt, s)
  guard false e s = (err e, s)

  -- A write that is not checked.
  abbrev pub perform : (S → S) → Exec S E (Unit {0})
  perform f s = (ok tt, f s)

abbrev pub map_err : {E D A : Type 0} → (D → E) → Result D A → Result E A
map_err f (ok a) = ok a
map_err f (err d) = err (f d)

module _ {S E D A : Type 0} where
  -- `x, err := query; if err != nil { return …, f(err) }`
  abbrev pub reading : (S → Result D A) → (D → E) → Exec S E A
  reading q f s = (map_err f (q s), s)

  abbrev pub writing : (S → Result D A × S) → (D → E) → Exec S E A
  writing q f s = let (r, s') = q s in (map_err f r, s')

  -- The query's result, errors included, for code that goes on after one.
  abbrev pub attempt : (S → Result D A) → Exec S E (Result D A)
  attempt q s = (ok (q s), s)

pub Result-cases :
    {E A : Type 0} (r : Result E A) → ((a : A) × (r ≡ ok a)) ⊎ ((e : E) × (r ≡ err e))
Result-cases (ok a) = inl (a, refl)
Result-cases (err e) = inr (e, refl)
