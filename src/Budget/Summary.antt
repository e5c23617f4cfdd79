-- ===== src/Budget/Summary.antt =====
-- ListAIBudgetSummaries and ListAIUsageRecords: internal/orchestrator/ai_governance.go and ai.go.
use opord_ai_demo.Base.{ℕ, String, Bool, List, Exec, pure, reading, ◌>>=◌, if◌then◌else◌, map}
use opord_ai_demo.Base.Int.{ℤ, pos, ◌-ℤ◌, ◌*ℤ◌, leb_ℤ, ltb_ℤ, pos_part}
use opord_ai_demo.Db.{Env, Db}
use opord_ai_demo.Db.Rows.{AiBudget}
use opord_ai_demo.Db.Governance.{UsageRow, all_budgets, all_usage, all_usage_again}
use opord_ai_demo.Tenant.{scope_tenant, visible_rows}
use opord_ai_demo.Budget.{GovernanceError, list_failed}
use opord_ai_demo.Budget.Cost.{budget_actual_usd}

-- The fraction numerator / denominator, a percentage.
pub record Percentage : Type 0 where
  pub numerator : ℤ
  pub denominator : ℕ

-- `pct >= float64(threshold)`
unfoldable pub reaches : Percentage → ℤ → Bool
reaches pct threshold = leb_ℤ (threshold *ℤ pos pct.denominator) pct.numerator

unfoldable pub usage_pct : ℤ → ℤ → Percentage
usage_pct actual limit =
    if ltb_ℤ (pos 0) limit
    then record { numerator = actual *ℤ pos 100; denominator = pos_part limit }
    else record { numerator = pos 0; denominator = 1 }

unfoldable pub budget_status : AiBudget → Percentage → String
budget_status b pct =
    if reaches pct b.hard_threshold_pct
    then "hard_limit"
    else if reaches pct b.soft_threshold_pct
    then "warning"
    else "ok"

pub record AiBudgetSummary : Type 0 where
  pub budget : AiBudget
  pub actual_usd : ℤ
  pub remaining_usd : ℤ
  pub usage_pct : Percentage
  pub status : String

unfoldable pub summary_of : AiBudget → ℤ → AiBudgetSummary
summary_of b actual = record {
  budget = b;
  actual_usd = actual;
  remaining_usd = b.limit_usd -ℤ actual;
  usage_pct = usage_pct actual b.limit_usd;
  status = budget_status b (usage_pct actual b.limit_usd);
}

unfoldable pub list_usage_records : Env → Exec Db GovernanceError (List UsageRow)
list_usage_records e = do
  rows ← reading (all_usage e) list_failed
  pure (visible_rows (λ (u : UsageRow). u.tenant_id) (scope_tenant e) rows)

-- ListAIUsageRecords, called a second time.
unfoldable pub list_usage_records_again : Env → Exec Db GovernanceError (List UsageRow)
list_usage_records_again e = do
  rows ← reading (all_usage_again e) list_failed
  pure (visible_rows (λ (u : UsageRow). u.tenant_id) (scope_tenant e) rows)

unfoldable pub list_budget_summaries : Env → Exec Db GovernanceError (List AiBudgetSummary)
unfolding list_usage_records
list_budget_summaries e = do
  budgets ← reading (all_budgets e) list_failed
  usage ← list_usage_records e
  pure (
      map (λ (b : AiBudget). summary_of b (budget_actual_usd e b usage))
        (visible_rows (λ (b : AiBudget). b.tenant_id) (scope_tenant e) budgets))
