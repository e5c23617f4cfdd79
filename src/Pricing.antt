-- ===== src/Pricing.antt =====
-- internal/orchestrator/ai_pricing.go: the cost of a gateway call. Prices are in micro-dollars for
-- a million tokens, so that every price of the table is a whole number and tokens times price is
-- in units of 10^-12 dollars; token counts are whole numbers.
pub mod Table
pub mod Laws
use opord_ai_demo.Base.{
  ℕ, ◌+◌, ◌*◌, ◌/◌, String, Bool, true, false, List, [], ◌∷◌, if◌then◌else◌, ◌==◌, ◌&&◌, ◌||◌, not,
  trim, lower, contains, has_prefix,
}
use Table.{ModelPrice, ai_model_prices, ai_default_price}

unfoldable pub claude_family_keyword : String → Bool
claude_family_keyword match = match == "haiku" || match == "sonnet" || match == "opus"

-- The two `continue`s of priceFor's loop, the other way round.
unfoldable pub applies : String → ModelPrice → Bool
unfolding claude_family_keyword
applies m p =
    not (p.match == "" || not (contains m p.match))
    && not (claude_family_keyword p.match && not (has_prefix m "claude"))

unfoldable pub first_price : String → List ModelPrice → ModelPrice
first_price m [] = ai_default_price
first_price m (p ∷ ps) = if applies m p then p else first_price m ps

unfoldable pub price_for : String → ModelPrice
price_for model = first_price (lower (trim model)) ai_model_prices

unfoldable pub estimate_ai_cost : String → ℕ → ℕ → ℕ
estimate_ai_cost model in_tokens out_tokens =
    in_tokens * (price_for model).in_per_m + out_tokens * (price_for model).out_per_m

unfoldable pub estimate_ai_cost_total : String → ℕ → ℕ
estimate_ai_cost_total model total_tokens =
    total_tokens * ((price_for model).in_per_m + (price_for model).out_per_m) / 2
