-- ===== src/Enforce/Scope.antt =====
-- budgetAppliesToRequest of internal/orchestrator/ai_enforce.go.
use opord_ai_demo.Base.{
  ℕ, String, Bool, true, false, Option, none, some, if◌then◌else◌, ◌==◌, ◌||◌, trim, lower,
  equal_fold,
}
use opord_ai_demo.Db.Rows.{AiBudget}
use opord_ai_demo.Policy.Rule.{AiReqContext}

tenant_applies : (ℕ → String) → Option ℕ → String → Bool
tenant_applies uuid_string none ref = ref == ""
tenant_applies uuid_string (some t) ref = if ref == "" then false else uuid_string t == ref

unfoldable pub budget_applies : (ℕ → String) → AiBudget → AiReqContext → Bool
unfolding tenant_applies
budget_applies uuid_string b rc =
    let ref = trim b.scope_ref in
    let scope = lower (trim b.scope) in
    if scope == "" || scope == "global"
    then true
    else if scope == "provider"
    then ref == "" || equal_fold rc.provider_name ref
    else if scope == "owner"
    then equal_fold rc.owner ref
    else if scope == "workspace"
    then ref == "" || equal_fold rc.workspace ref
    else if scope == "tenant"
    then tenant_applies uuid_string rc.tenant ref
    else false
