-- ===== src/Policy/Matching.antt =====
-- What the selectors of a policy rule match: matchAny of internal/orchestrator/ai_enforce.go.
use opord_ai_demo.Base.{
  String, true, List, [], ◌∷◌, ◌≡◌, refl, ◌⊎◌, inl, inr, ◌↔◌, ◌==◌, any, trim, equal_fold, In,
  In-any, any-In, Bool-cases, eq_iff, arith,
}
use opord_ai_demo.Policy.Rule.{match_any, match_loop}

-- The pattern is blank, or names a candidate up to case and surrounding space.
abbrev pub Selects : String → List String → Type 0
Selects p candidates =
    (trim p ≡ "") ⊎ ((c : String) × In c candidates × (equal_fold (trim p) (trim c) ≡ true))

match_loop-Selects :
    (ps cs : List String) → match_loop ps cs ≡ true → (p : String) × In p ps × Selects p cs
unfolding match_loop
match_loop-Selects [] cs h = absurd (ground arith)
match_loop-Selects (p ∷ ps) cs h = elim (Bool-cases (trim p == "")) [
  | inl blank ↦ (p, inl refl, inl (ground (arith, eq_iff (trim p) "")))
  | inr full ↦ elim (Bool-cases (any (λ c. equal_fold (trim p) (trim c)) cs)) [
    | inl hit ↦ (p, inl refl, inr (any-In (λ c. equal_fold (trim p) (trim c)) cs hit))
    | inr miss ↦ let (q, m, s) = match_loop-Selects ps cs (ground arith) in (q, inr m, s)
  ]
]

Selects-loop : (p : String) (ps cs : List String) → Selects p cs → match_loop (p ∷ ps) cs ≡ true
unfolding match_loop
Selects-loop p ps cs (inl blank) = ground (arith, eq_iff (trim p) "")
Selects-loop p ps cs (inr (c, m, s)) =
    ground (arith, In-any (λ d. equal_fold (trim p) (trim d)) c cs m s)

Selects-match_loop :
    (ps cs : List String) (p : String) → In p ps → Selects p cs → match_loop ps cs ≡ true
unfolding match_loop
Selects-match_loop [] cs p m s = elim m [ ]
Selects-match_loop (q ∷ ps) cs p (inl here) s = Selects-loop q ps cs (rw here s)
Selects-match_loop (q ∷ ps) cs p (inr later) s = ground (arith, Selects-match_loop ps cs p later s)

-- A selector matches exactly where it is empty, or one of its patterns is blank or names a
-- candidate up to case and surrounding space.
pub match_any_iff :
    (ps cs : List String)
    → (match_any ps cs ≡ true) ↔ ((ps ≡ []) ⊎ ((p : String) × In p ps × Selects p cs))
unfolding match_any
match_any_iff [] cs = (λ h. inl refl, λ s. refl)
match_any_iff (p ∷ ps) cs = (
  λ h. inr (match_loop-Selects (p ∷ ps) cs h),
  λ s. elim s [
    | inl empty ↦ absurd (ground arith)
    | inr (q, m, k) ↦ Selects-match_loop (p ∷ ps) cs q m k
  ],
)
