-- ===== src/Pricing/Laws.antt =====
-- Which row prices a model, and how the two estimates agree.
use opord_ai_demo.Base.{
  ℕ, ◌+◌, ◌≡◌, refl, ◌⊎◌, inl, inr, String, true, false, List, [], ◌∷◌, ◌++◌, arith, ap, lower,
  trim, contains, has_prefix, All, In, All-In, Bool-cases,
}
use opord_ai_demo.Pricing.Table.{ModelPrice, ai_model_prices, ai_default_price}
use opord_ai_demo.Pricing.{
  claude_family_keyword, applies, first_price, price_for, estimate_ai_cost, estimate_ai_cost_total,
}

first_price_cases :
    (m : String) (ps : List ModelPrice)
    → (All (λ p. applies m p ≡ false) ps × (first_price m ps ≡ ai_default_price))
      ⊎ ((before : List ModelPrice) × (p : ModelPrice) × (after : List ModelPrice) × (ps
            ≡ before ++ p ∷ after)
          × All (λ q. applies m q ≡ false) before
          × (applies m p ≡ true)
          × (first_price m ps ≡ p))
unfolding first_price
first_price_cases m [] = inl (tt, refl)
first_price_cases m (p ∷ ps) = elim (Bool-cases (applies m p)) [
  | inl hit ↦ inr ([], p, ps, refl, tt, hit, rw hit)
  | inr miss ↦ elim (first_price_cases m ps) [
    | inl (none_, default) ↦ inl ((miss, none_), rw miss default)
    | inr (before, q, after, split, missed, hit, found) ↦ inr (
      p ∷ before,
      q,
      after,
      ap (λ (l : List ModelPrice). p ∷ l) split,
      (miss, missed),
      hit,
      rw miss found,
    )
  ]
]

-- A model is priced by the first row of the table that applies to its trimmed, lower-case name,
-- and by the default where none does.
pub price_for_first :
    (model : String)
    → (All (λ p. applies (lower (trim model)) p ≡ false) ai_model_prices
        × (price_for model ≡ ai_default_price))
      ⊎ ((before : List ModelPrice) × (p : ModelPrice) × (after : List ModelPrice)
          × (ai_model_prices ≡ before ++ p ∷ after)
          × All (λ q. applies (lower (trim model)) q ≡ false) before
          × (applies (lower (trim model)) p ≡ true)
          × (price_for model ≡ p))
unfolding price_for
price_for_first model = first_price_cases (lower (trim model)) ai_model_prices

not_borrowed :
    (m : String) (ps : List ModelPrice)
    → has_prefix m "claude" ≡ false
    → claude_family_keyword (first_price m ps).match ≡ false
unfolding first_price applies claude_family_keyword
not_borrowed m [] h = refl
not_borrowed m (p ∷ ps) h = ground (arith, not_borrowed m ps h)

-- A model whose name does not begin with "claude" is never priced by a bare Claude family row.
pub price_for_not_borrowed :
    (model : String)
    → has_prefix (lower (trim model)) "claude" ≡ false
    → claude_family_keyword (price_for model).match ≡ false
unfolding price_for
price_for_not_borrowed model h = not_borrowed (lower (trim model)) ai_model_prices h

own_names :
    All (λ p. (claude_family_keyword p.match ≡ true) ⊎ (price_for p.match ≡ p)) ai_model_prices
unfolding price_for ai_model_prices first_price applies claude_family_keyword lower trim contains
    has_prefix
own_names = (
  inr refl,
  (
    inr refl,
    (
      inr refl,
      (
        inr refl,
        (
          inr refl,
          (
            inr refl,
            (
              inr refl,
              (
                inr refl,
                (
                  inr refl,
                  (
                    inr refl,
                    (
                      inr refl,
                      (
                        inr refl,
                        (
                          inr refl,
                          (
                            inr refl,
                            (
                              inr refl,
                              (
                                inr refl,
                                (
                                  inr refl,
                                  (
                                    inr refl,
                                    (
                                      inr refl,
                                      (
                                        inr refl,
                                        (
                                          inr refl,
                                          (inr refl, (inl refl, (inl refl, (inl refl, tt)))),
                                        ),
                                      ),
                                    ),
                                  ),
                                ),
                              ),
                            ),
                          ),
                        ),
                      ),
                    ),
                  ),
                ),
              ),
            ),
          ),
        ),
      ),
    ),
  ),
)

-- No row is hidden by one above it: a row that is not a bare family keyword prices its own name.
pub price_for_own_name :
    (p : ModelPrice)
    → In p ai_model_prices
    → claude_family_keyword p.match ≡ false
    → price_for p.match ≡ p
price_for_own_name p place specific =
    elim (All-In (λ q. (claude_family_keyword q.match ≡ true) ⊎ (price_for q.match ≡ q)) p
      ai_model_prices own_names place) [ inl bare ↦ cc | inr own ↦ own ]

-- The blended rate is the mean: 2n tokens of unknown kind cost what n in and n out do.
pub estimate_ai_cost_total-mean :
    (model : String) (n : ℕ) → estimate_ai_cost_total model (n + n) ≡ estimate_ai_cost model n n
unfolding estimate_ai_cost estimate_ai_cost_total
estimate_ai_cost_total-mean model n = omega arith
