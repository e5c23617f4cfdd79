-- ===== src/Examples/Money.antt =====
-- Runs of the theorems on prices, costs and budgets.
use opord_ai_demo.Base.{
  ◌≡◌, refl, ◌⊎◌, ℕ, String, true, false, Bool, none, some, List, [], ◌∷◌, arith, trim, lower,
  select, has_prefix,
}
use opord_ai_demo.Base.Int.{pos}
use opord_ai_demo.Json.{obj, field, text, end, entry}
use opord_ai_demo.Db.{Env}
use opord_ai_demo.Db.Governance.{UsageRow}
use opord_ai_demo.Pricing.{claude_family_keyword, price_for}
use opord_ai_demo.Pricing.Laws.{price_for_not_borrowed}
use opord_ai_demo.Budget.Cost.{ai_cost_usd, usage_source, usage_raw_field, is_authoritative}
use opord_ai_demo.Budget.Supersession.{total, counts, ai_cost_usd-total}
use opord_ai_demo.Budget.Summary.{summary_of}
use opord_ai_demo.Budget.Bands.{IsValid, Reached, Missed, summary_of_bands}
use opord_ai_demo.Budget.Edit.{AiBudgetInput}
use opord_ai_demo.Budget.Validity.{
  AllValid, BudgetOp, create, update, delete, run_all, budget_edits-AllValid,
}
use opord_ai_demo.Examples.{env, db, acme_budget, other_budget}

acme_budget-IsValid : IsValid acme_budget
acme_budget-IsValid = record { limited = refl; soft_positive = refl; ordered = omega arith }

other_budget-IsValid : IsValid other_budget
other_budget-IsValid = record { limited = refl; soft_positive = refl; ordered = omega arith }

db-AllValid : AllValid db
db-AllValid = record { each = (acme_budget-IsValid, (other_budget-IsValid, tt)) }

summary_of_bands_example :
    let s = (summary_of acme_budget (pos 90)).status in
    ((s ≡ "hard_limit")
      × Reached acme_budget (pos 100) (pos 90)
      × Reached acme_budget (pos 80) (pos 90))
    ⊎ (((s ≡ "warning")
          × Missed acme_budget (pos 100) (pos 90)
          × Reached acme_budget (pos 80) (pos 90))
        ⊎ ((s ≡ "ok")
            × Missed acme_budget (pos 100) (pos 90)
            × Missed acme_budget (pos 80) (pos 90)))
summary_of_bands_example = summary_of_bands acme_budget (pos 90) acme_budget-IsValid

abbrev bigger : AiBudgetInput
bigger = record {
  scope = "";
  scope_ref = "";
  limit_usd = pos 500;
  period = "";
  soft_threshold_pct = pos 0;
  hard_threshold_pct = pos 0;
}

abbrev edits : List (Env × BudgetOp)
edits = (env, create bigger) ∷ (env, update 30 bigger) ∷ (env, delete 31) ∷ []

budget_edits-AllValid_example : AllValid (run_all edits db)
budget_edits-AllValid_example = budget_edits-AllValid edits db db-AllValid

abbrev usage_of : String → ℕ → UsageRow
usage_of source cost = record {
  provider_id = 10;
  period_start = 600;
  metric = "tokens";
  quantity = pos 1;
  cost_usd = pos cost;
  raw = some (obj (field "source" (text source) end));
  provider_name = "OpenAI";
  owner = none;
  workspace = none;
  tenant_id = none;
}

abbrev estimate : UsageRow
estimate = usage_of "opord_gateway_lite" 7

abbrev import : UsageRow
import = record (usage_of "openai_costs_api" 5) { provider_name = "openai" }

abbrev everything : UsageRow → Bool
everything u = true

estimate_source : usage_source estimate.raw ≡ "opord_gateway_lite"
unfolding usage_source usage_raw_field entry lower trim
estimate_source = refl

import_official : is_authoritative (usage_source import.raw) ≡ true
unfolding is_authoritative usage_source usage_raw_field entry lower trim
import_official = refl

price_for_not_borrowed_example : claude_family_keyword (price_for "my-opus-model").match ≡ false
price_for_not_borrowed_example =
    price_for_not_borrowed "my-opus-model" (unfold trim lower has_prefix in refl)

ai_cost_usd-total_example :
    ai_cost_usd (estimate ∷ import ∷ []) 500 everything
    ≡ total (select (counts 500 everything (estimate ∷ import ∷ [])) (estimate ∷ import ∷ []))
ai_cost_usd-total_example = ai_cost_usd-total 500 everything (estimate ∷ import ∷ [])
