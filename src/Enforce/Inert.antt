-- ===== src/Enforce/Inert.antt =====
-- Access policies that change nothing in EvaluateAIGovernance.
use opord_ai_demo.Base.{
  String, false, none, some, List, [], ◌∷◌, ◌≡◌, refl, ◌⊎◌, inl, inr, ℕ, select, Bool-cases,
  Option-cases, arith,
}
use opord_ai_demo.Db.{Env, Db, list_policies, list_quotas, list_budgets, list_usage}
use opord_ai_demo.Db.Rows.{AiAccessPolicy}
use opord_ai_demo.Db.Governance.{all_policies, all_quotas, all_budgets, all_instances, all_usage}
use opord_ai_demo.Tenant.{scope_tenant, tenant_visible, visible_rows}
use opord_ai_demo.Budget.Summary.{list_budget_summaries, list_usage_records}
use opord_ai_demo.Quota.{list_ai_quotas}
use opord_ai_demo.Policy.{list_ai_access_policies}
use opord_ai_demo.Policy.Rule.{AiReqContext, AiPolicyRule, decode_rule, has_selector}
use opord_ai_demo.Enforce.{
  Reason, listed, collect, rule_denies, policy_reason, visible_instances, hard_reasons, block,
  evaluate_ai_governance,
}

-- The database with one more policy.
abbrev pub with_policy : AiAccessPolicy → Db → Db
with_policy p db = record db { policies = p ∷ db.policies }

-- The policy is not the caller's to see, or it has nothing against the request.
Silent : Env → AiReqContext → AiAccessPolicy → Type 0
Silent e rc p =
    ((t : ℕ) × (scope_tenant e ≡ some t) × (tenant_visible p.tenant_id t ≡ false))
    ⊎ (policy_reason rc p ≡ none)

policies_with_policy :
    (e : Env) (rc : AiReqContext) (p : AiAccessPolicy) (db : Db)
    → Silent e rc p
    → collect (policy_reason rc) (listed (list_ai_access_policies e (with_policy p db)).0)
      ≡ collect (policy_reason rc) (listed (list_ai_access_policies e db).0)
unfolding Silent list_ai_access_policies all_policies visible_rows select collect
policies_with_policy e rc p db s = elim (Bool-cases (e.fails list_policies)) [
  | inl down ↦ rw down refl
  | inr up ↦ elim (Option-cases (scope_tenant e)) [
    | inl everyone ↦ rw (up, everyone) (ground arith)
    | inr (t, scoped) ↦ rw (up, scoped) (ground arith)
  ]
]

quotas_with_policy :
    (e : Env) (p : AiAccessPolicy) (db : Db)
    → (list_ai_quotas e (with_policy p db)).0 ≡ (list_ai_quotas e db).0
unfolding list_ai_quotas all_quotas
quotas_with_policy e p db = elim (Bool-cases (e.fails list_quotas)) [
  | inl down ↦ rw down refl
  | inr up ↦ rw up refl
]

budgets_with_policy :
    (e : Env) (p : AiAccessPolicy) (db : Db)
    → (list_budget_summaries e (with_policy p db)).0 ≡ (list_budget_summaries e db).0
unfolding list_budget_summaries list_usage_records all_budgets all_usage
budgets_with_policy e p db = elim (Bool-cases (e.fails list_budgets)) [
  | inl down ↦ rw down refl
  | inr up ↦ elim (Bool-cases (e.fails list_usage)) [
    | inl silent ↦ rw (up, silent) refl
    | inr read ↦ rw (up, read) refl
  ]
]

block_state :
    (e : Env) (owner : String) (rs : List Reason) (db db' : Db)
    → (block e owner rs db).0 ≡ (block e owner rs db').0
unfolding block
block_state e owner [] db db' = refl
block_state e owner (r ∷ rs) db db' = refl

-- One more policy that is silent leaves the outcome as it was.
outcome_with_policy :
    (e : Env) (rc : AiReqContext) (p : AiAccessPolicy) (db : Db)
    → Silent e rc p
    → (evaluate_ai_governance e rc (with_policy p db)).0 ≡ (evaluate_ai_governance e rc db).0
unfolding evaluate_ai_governance hard_reasons visible_instances all_instances
outcome_with_policy e rc p db s =
    rw (policies_with_policy e rc p db s, quotas_with_policy e p db, budgets_with_policy e p db)
      (block_state e rc.owner (hard_reasons e rc db) _ _)

-- Adding a policy whose rule has no selector (only blank ones, or none, or a rule that does not
-- decode) changes the outcome of no request.
pub evaluate_ai_governance-selectorless :
    (e : Env) (rc : AiReqContext) (p : AiAccessPolicy) (db : Db)
    → ((rule : AiPolicyRule) → decode_rule p.rules ≡ some rule → has_selector rule ≡ false)
    → (evaluate_ai_governance e rc (with_policy p db)).0 ≡ (evaluate_ai_governance e rc db).0
unfolding Silent policy_reason rule_denies
evaluate_ai_governance-selectorless e rc p db h = outcome_with_policy e rc p db (
    inr (elim (Option-cases (decode_rule p.rules)) [
      | inl undecoded ↦ ground arith
      | inr (rule, decoded) ↦ ground (arith, h rule decoded)
    ]))

-- For a caller held to a tenant, adding a policy of no tenant (a global one), whatever it denies,
-- changes the outcome of no request.
pub evaluate_ai_governance_global_policy :
    (e : Env) (rc : AiReqContext) (p : AiAccessPolicy) (db : Db) (t : ℕ)
    → scope_tenant e ≡ some t
    → p.tenant_id ≡ none
    → (evaluate_ai_governance e rc (with_policy p db)).0 ≡ (evaluate_ai_governance e rc db).0
unfolding Silent tenant_visible
evaluate_ai_governance_global_policy e rc p db t scoped global =
    outcome_with_policy e rc p db (inl (t, scoped, ground arith))
