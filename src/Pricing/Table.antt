-- ===== src/Pricing/Table.antt =====
-- The price table of internal/orchestrator/ai_pricing.go, in the source's order.
use opord_ai_demo.Base.{ℕ, String, List, [], ◌∷◌}

pub record ModelPrice : Type 0 where
  pub match : String
  pub in_per_m : ℕ
  pub out_per_m : ℕ

abbrev price : String → ℕ → ℕ → ModelPrice
price match in_per_m out_per_m = record {
  match = match;
  in_per_m = in_per_m;
  out_per_m = out_per_m;
}

unfoldable pub ai_model_prices : List ModelPrice
ai_model_prices =
    price "gpt-4o-mini" 150000 600000
    ∷ price "gpt-4o" 2500000 10000000
    ∷ price "gpt-4-turbo" 10000000 30000000
    ∷ price "gpt-4.1-mini" 400000 1600000
    ∷ price "gpt-4.1" 2000000 8000000
    ∷ price "gpt-4" 30000000 60000000
    ∷ price "gpt-3.5" 500000 1500000
    ∷ price "o1-mini" 1100000 4400000
    ∷ price "o1" 15000000 60000000
    ∷ price "o3-mini" 1100000 4400000
    ∷ price "o3" 10000000 40000000
    ∷ price "claude-opus" 15000000 75000000
    ∷ price "claude-sonnet" 3000000 15000000
    ∷ price "claude-haiku" 800000 4000000
    ∷ price "claude-3-opus" 15000000 75000000
    ∷ price "claude-3-5-sonnet" 3000000 15000000
    ∷ price "claude-3-haiku" 250000 1250000
    ∷ price "claude-fable" 5000000 25000000
    ∷ price "gemini-1.5-pro" 1250000 5000000
    ∷ price "gemini-1.5-flash" 75000 300000
    ∷ price "gemini" 1000000 3000000
    ∷ price "mock" 0 0
    ∷ price "haiku" 800000 4000000
    ∷ price "sonnet" 3000000 15000000
    ∷ price "opus" 15000000 75000000
    ∷ []

abbrev pub ai_default_price : ModelPrice
ai_default_price = price "" 1000000 3000000
