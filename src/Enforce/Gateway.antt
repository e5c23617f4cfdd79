-- ===== src/Enforce/Gateway.antt =====
-- evaluateGatewayBudget and aiQuotaUsage of internal/orchestrator/ai_enforce.go: the spend gate in
-- front of the model gateway. A failing query opens it.
use opord_ai_demo.Base.{
  ℕ, String, Bool, true, none, List, [], ◌∷◌, Result, ok, err, Exec, if◌then◌else◌, ◌==◌, ◌||◌,
  ◌&&◌, ltb, any, trim, lower, equal_fold,
}
use opord_ai_demo.Base.Int.{ℤ, pos, leb_ℤ, ◌+ℤ◌}
use opord_ai_demo.Db.{Env, Db}
use opord_ai_demo.Db.Rows.{AiQuota}
use opord_ai_demo.Db.Governance.{UsageRow}
use opord_ai_demo.Tenant.{emit_audit}
use opord_ai_demo.Budget.{GovernanceError}
use opord_ai_demo.Budget.Cost.{period_start, ai_cost_usd}
use opord_ai_demo.Budget.Summary.{AiBudgetSummary, list_budget_summaries, list_usage_records_again}
use opord_ai_demo.Quota.{list_ai_quotas}
use opord_ai_demo.Policy.Rule.{AiReqContext}
use opord_ai_demo.Enforce.Scope.{budget_applies}

unfoldable pub sum_quantity : ℕ → String → List UsageRow → ℤ
sum_quantity start metric [] = pos 0
sum_quantity start metric (u ∷ us) =
    let rest = sum_quantity start metric us in
    if ltb u.period_start start
    then rest
    else if equal_fold (trim u.metric) metric
    then u.quantity +ℤ rest
    else rest

unfoldable pub ai_quota_usage : Env → String → String → List UsageRow → ℤ
ai_quota_usage e metric period usage =
    if metric == "cost_usd" || metric == "cost"
    then ai_cost_usd usage (period_start e period) (λ _. true)
    else sum_quantity (period_start e period) metric usage

-- The request that a gateway call is: only the provider is known.
abbrev pub gateway_context : String → AiReqContext
gateway_context provider_name = record {
  service_id = 0;
  service_slug = "";
  service_category = "";
  provider_name = provider_name;
  provider_type = "";
  owner = "";
  workspace = "";
  tenant = none;
}

-- A global or provider budget at its hard limit.
unfoldable pub budget_closes : Env → String → AiBudgetSummary → Bool
budget_closes e provider_name b =
    let scope = lower (trim b.budget.scope) in
    (scope == "" || scope == "global" || scope == "provider")
    && b.status == "hard_limit"
    && budget_applies e.uuid_string b.budget (gateway_context provider_name)

-- A blocking quota on tokens or cost that is used up.
unfoldable pub quota_closes : Env → List UsageRow → AiQuota → Bool
quota_closes e usage q =
    let metric = lower (trim q.metric) in
    (metric == "tokens" || metric == "cost_usd" || metric == "cost")
    && equal_fold q.enforcement "block"
    && leb_ℤ q.limit_quantity (ai_quota_usage e metric q.period usage)

pub data GatewayBlock : Type 0 where
  budget_exhausted quota_exhausted : GatewayBlock

unfoldable pub closed : Env → GatewayBlock → Exec Db GatewayBlock (Unit {0})
closed e reason db = (err reason, emit_audit e "ai_gateway" 0 "governance_blocked" "" db)

-- No quotas, or a failing query, and the gate is open.
unfoldable pub usage_gate :
    Env → List AiQuota → Result GovernanceError (List UsageRow) → Exec Db GatewayBlock (Unit {0})
usage_gate e quotas (err x) db = (ok tt, db)
usage_gate e quotas (ok usage) db =
    if any (quota_closes e usage) quotas then closed e quota_exhausted db else (ok tt, db)

unfoldable pub quota_gate :
    Env → Result GovernanceError (List AiQuota) → Exec Db GatewayBlock (Unit {0})
unfolding usage_gate
quota_gate e (err x) db = (ok tt, db)
quota_gate e (ok quotas) db = usage_gate e quotas (list_usage_records_again e db).0 db

unfoldable pub budget_gate :
    Env → String → Result GovernanceError (List AiBudgetSummary) → Exec Db GatewayBlock (Unit {0})
unfolding quota_gate
budget_gate e provider_name (err x) db = (ok tt, db)
budget_gate e provider_name (ok budgets) db =
    if any (budget_closes e provider_name) budgets
    then closed e budget_exhausted db
    else quota_gate e (list_ai_quotas e db).0 db

unfoldable pub evaluate_gateway_budget : Env → String → Exec Db GatewayBlock (Unit {0})
unfolding budget_gate
evaluate_gateway_budget e provider_name db =
    budget_gate e provider_name (list_budget_summaries e db).0 db
