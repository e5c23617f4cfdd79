-- ===== src/Base/Lists.antt =====
-- Lists: Boolean filters and searches, and predicates by recursion.
use Prim.Native.Nat.{ℕ, suc}
use mathlib.Core.Logic.{◌⊎◌, inl, inr}
use mathlib.Core.Bool.{Bool, true, false}
use mathlib.Core.Option.{Option, none, some}
use mathlib.Core.List.{List, [], ◌∷◌}
use mathlib.Core.Path.{◌≡◌, refl, subst}
use native.Mathlib.Omega.{arith}
use opord_ai_demo.Base.Tests.{if◌then◌else◌, Bool-cases}

module _ {ℓ} {A : Type ℓ} where
  abbrev pub length : List A → ℕ
  length [] = 0
  length (x ∷ xs) = suc (length xs)

  -- `for … { if keep(x) { out = append(out, x) } }`
  unfoldable pub select : (A → Bool) → List A → List A
  select p [] = []
  select p (x ∷ xs) = let rest = select p xs in if p x then x ∷ rest else rest

  -- The first row that passes: a query with `limit 1`.
  unfoldable pub find : (A → Bool) → List A → Option A
  find p [] = none
  find p (x ∷ xs) = if p x then some x else find p xs

  unfoldable pub any : (A → Bool) → List A → Bool
  any p [] = false
  any p (x ∷ xs) = if p x then true else any p xs

  -- An SQL update of the rows that pass.
  unfoldable pub update_where : (A → Bool) → (A → A) → List A → List A
  update_where p f [] = []
  update_where p f (x ∷ xs) = (if p x then f x else x) ∷ update_where p f xs

module _ {ℓ κ} {A : Type ℓ} where
  abbrev pub All : (A → Type κ) → List A → Type κ
  All P [] = Unit
  All P (x ∷ xs) = P x × All P xs

module _ {A : Type 0} where
  -- The place of an entry in a list.
  abbrev pub In : A → List A → Type 0
  In a [] = ⊥
  In a (x ∷ xs) = (x ≡ a) ⊎ In a xs

  pub In-select→ :
      (p : A → Bool) (a : A) (xs : List A) → In a (select p xs) → In a xs × (p a ≡ true)
  unfolding select
  In-select→ p a [] h = elim h [ ]
  In-select→ p a (x ∷ xs) h = elim (Bool-cases (p x)) [
    | inl kept ↦ ground (arith, In-select→ p a xs)
    | inr dropped ↦ ground (arith, In-select→ p a xs)
  ]

  pub In-select← : (p : A → Bool) (a : A) (xs : List A) → In a xs → p a ≡ true → In a (select p xs)
  unfolding select
  In-select← p a [] h q = elim h [ ]
  In-select← p a (x ∷ xs) (inl here) q = ground arith
  In-select← p a (x ∷ xs) (inr later) q = ground (arith, In-select← p a xs)

  pub find_some :
      (p : A → Bool) (x : A) (xs : List A) → In x xs → p x ≡ true → (y : A) × (find p xs ≡ some y)
  unfolding find
  find_some p x [] m hit = elim m [ ]
  find_some p x (y ∷ ys) (inl here) hit = let top : p y ≡ true = cc (here, hit) in (y, rw top refl)
  find_some p x (y ∷ ys) (inr later) hit = elim (Bool-cases (p y)) [
    | inl top ↦ (y, rw top refl)
    | inr other ↦ let (z, found) = find_some p x ys later hit in (z, rw other found)
  ]

  pub find-In : (p : A → Bool) (a : A) (xs : List A) → find p xs ≡ some a → In a xs × (p a ≡ true)
  unfolding find
  find-In p a [] h = cc
  find-In p a (x ∷ xs) h = ground (arith, find-In p a xs)

  pub any-In : (p : A → Bool) (xs : List A) → any p xs ≡ true → (a : A) × In a xs × (p a ≡ true)
  unfolding any
  any-In p [] h = absurd (ground arith)
  any-In p (x ∷ xs) h = elim (Bool-cases (p x)) [
    | inl hit ↦ (x, inl refl, hit)
    | inr miss ↦ let (a, m, q) = any-In p xs (ground arith) in (a, inr m, q)
  ]

  pub In-any : (p : A → Bool) (a : A) (xs : List A) → In a xs → p a ≡ true → any p xs ≡ true
  unfolding any
  In-any p a [] m h = elim m [ ]
  In-any p a (x ∷ xs) (inl here) h = ground arith
  In-any p a (x ∷ xs) (inr later) h = ground (arith, In-any p a xs later h)

  -- A row is found again after an update that keeps the test.
  pub find-update_where :
      (p : A → Bool) (f : A → A) (a : A) (xs : List A)
      → ((x : A) → p (f x) ≡ p x)
      → find p xs ≡ some a
      → find p (update_where p f xs) ≡ some (f a)
  unfolding find update_where
  find-update_where p f a [] keep h = cc
  find-update_where p f a (x ∷ xs) keep h = elim (Bool-cases (p x)) [
    | inl hit ↦ ground (arith, keep x)
    | inr miss ↦ ground (arith, find-update_where p f a xs keep)
  ]

  pub All-In : (P : A → Type 0) (a : A) (xs : List A) → All P xs → In a xs → P a
  All-In P a [] all m = elim m [ ]
  All-In P a (x ∷ xs) all (inl here) = subst P here all.0
  All-In P a (x ∷ xs) all (inr later) = All-In P a xs all.1 later

  pub All-select : (P : A → Type 0) (p : A → Bool) (xs : List A) → All P xs → All P (select p xs)
  unfolding select
  All-select P p [] all = tt
  All-select P p (x ∷ xs) all = ground (arith, All-select P p xs all.1)

  pub All-update_where :
      (P : A → Type 0) (p : A → Bool) (f : A → A) (xs : List A)
      → ((x : A) → P x → P (f x))
      → All P xs
      → All P (update_where p f xs)
  unfolding update_where
  All-update_where P p f [] keep all = tt
  All-update_where P p f (x ∷ xs) keep all = elim (Bool-cases (p x)) [
    | inl hit ↦ rw hit (keep x all.0, All-update_where P p f xs keep all.1)
    | inr miss ↦ rw miss (all.0, All-update_where P p f xs keep all.1)
  ]

  pub In-update_where :
      (p : A → Bool) (f : A → A) (a : A) (xs : List A)
      → In a xs
      → p a ≡ false
      → In a (update_where p f xs)
  unfolding update_where
  In-update_where p f a [] m h = elim m [ ]
  In-update_where p f a (x ∷ xs) (inl here) h = ground arith
  In-update_where p f a (x ∷ xs) (inr later) h = ground (arith, In-update_where p f a xs later h)

  -- An update of other rows does not change what is found.
  pub find-update_where_other :
      (p q : A → Bool) (f : A → A) (xs : List A)
      → ((x : A) → q (f x) ≡ q x)
      → ((x : A) → p x ≡ true → q x ≡ false)
      → find q (update_where p f xs) ≡ find q xs
  unfolding find update_where
  find-update_where_other p q f [] keep apart = refl
  find-update_where_other p q f (x ∷ xs) keep apart = elim (Bool-cases (p x)) [
    | inl hit ↦ ground (arith, keep x, apart x hit, find-update_where_other p q f xs keep apart)
    | inr miss ↦ ground (arith, find-update_where_other p q f xs keep apart)
  ]

  pub All-zip :
      (P Q R : A → Type 0) (xs : List A)
      → ((x : A) → P x → Q x → R x)
      → All P xs
      → All Q xs
      → All R xs
  All-zip P Q R [] f ps qs = tt
  All-zip P Q R (x ∷ xs) f ps qs = (f x ps.0 qs.0, All-zip P Q R xs f ps.1 qs.1)

  pub All-of-In : (P : A → Type 0) (xs : List A) → ((x : A) → In x xs → P x) → All P xs
  All-of-In P [] f = tt
  All-of-In P (x ∷ xs) f = (f x (inl refl), All-of-In P xs (λ y m. f y (inr m)))

  -- What is found after an update that touches it.
  pub find-update_where_hit :
      (p q : A → Bool) (f : A → A) (a : A) (xs : List A)
      → ((x : A) → q (f x) ≡ q x)
      → p a ≡ true
      → find q xs ≡ some a
      → find q (update_where p f xs) ≡ some (f a)
  unfolding find update_where
  find-update_where_hit p q f a [] keep hit h = cc
  find-update_where_hit p q f a (x ∷ xs) keep hit h = elim (Bool-cases (q x)) [
    | inl here ↦ ground (arith, keep x)
    | inr miss ↦ ground (arith, keep x, find-update_where_hit p q f a xs keep hit)
  ]
