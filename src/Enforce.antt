-- ===== src/Enforce.antt =====
-- internal/orchestrator/ai_enforce.go: the governance gate on an AI request.
pub mod Scope
pub mod Gateway
pub mod Verdict
pub mod Inert
pub mod GatewayVerdict
use opord_ai_demo.Base.{
  ℕ, suc, String, Bool, true, false, Option, none, some, List, [], ◌∷◌, ◌++◌, Result, ok, err, Exec,
  if◌then◌else◌, ◌==◌, ◌=?◌, ◌||◌, ◌&&◌, not, trim, lower,
}
use opord_ai_demo.Base.Int.{ℤ, pos, leb_ℤ}
use opord_ai_demo.Db.{Env, Db, DbError}
use opord_ai_demo.Db.Rows.{AiServiceInstance, AiQuota, AiAccessPolicy}
use opord_ai_demo.Db.Governance.{all_instances}
use opord_ai_demo.Tenant.{scope_tenant, visible_rows, emit_audit}
use opord_ai_demo.Budget.Summary.{AiBudgetSummary, list_budget_summaries}
use opord_ai_demo.Quota.{list_ai_quotas}
use opord_ai_demo.Policy.{list_ai_access_policies}
use opord_ai_demo.Policy.Rule.{
  AiReqContext, AiPolicyRule, decode_rule, is_deny, has_selector, rule_matches,
}
use Scope.{budget_applies}

-- Why a request is blocked, or warned about.
pub data Reason : Type 0 where
  policy_denies : String → Reason
  quota_reached : ℕ → String → Reason
  budget_exhausted budget_warning : AiBudgetSummary → Reason

-- The rows of a listing, none where it fails: the gate goes on without them.
abbrev pub listed : {E A : Type 0} → Result E (List A) → List A
listed (ok rows) = rows
listed (err x) = []

module _ {A : Type 0} where
  -- The reasons that a loop appends.
  unfoldable pub collect : (A → Option Reason) → List A → List Reason
  collect f [] = []
  collect f (x ∷ xs) = let rest = collect f xs in elim (f x) [ none ↦ rest | some r ↦ r ∷ rest ]

unfoldable pub rule_denies : AiReqContext → Option AiPolicyRule → Bool
rule_denies rc none = false
rule_denies rc (some rule) = is_deny rule && has_selector rule && rule_matches rule rc

unfoldable pub policy_reason : AiReqContext → AiAccessPolicy → Option Reason
policy_reason rc p =
    if p.status == "active" && rule_denies rc (decode_rule p.rules)
    then some (policy_denies p.name)
    else none

-- ListAIInstances; an error leaves no instances.
unfoldable pub visible_instances : Env → Db → List AiServiceInstance
visible_instances e db =
    visible_rows (λ (i : AiServiceInstance). i.tenant_id) (scope_tenant e)
      (listed (all_instances e db))

abbrev pub is_for : Option ℕ → ℕ → Bool
is_for none service_id = true
is_for (some s) service_id = s =? service_id

-- The active instances that a quota counts: all, or those of the request's service.
unfoldable pub count_active : Bool → ℕ → List AiServiceInstance → ℕ
count_active scoped service_id [] = 0
count_active scoped service_id (i ∷ is) =
    let rest = count_active scoped service_id is in
    if i.status == "active" && not (scoped && not (i.service_id =? service_id))
    then suc rest
    else rest

abbrev pub is_valid : Option ℕ → Bool
is_valid none = false
is_valid (some s) = true

-- A quota on seats or instances that the request falls under, at or over its limit.
unfoldable pub quota_is_reached : AiReqContext → List AiServiceInstance → AiQuota → Bool
quota_is_reached rc instances q =
    let metric = lower (trim q.metric) in
    (metric == "instances" || metric == "seats")
    && is_for q.service_id rc.service_id
    && leb_ℤ q.limit_quantity (pos (count_active (is_valid q.service_id) rc.service_id instances))

quota_message : AiReqContext → List AiServiceInstance → AiQuota → Reason
quota_message rc instances q =
    quota_reached (count_active (is_valid q.service_id) rc.service_id instances)
      (lower (trim q.metric))

unfoldable pub quota_hard : AiReqContext → List AiServiceInstance → AiQuota → Option Reason
unfolding quota_message
quota_hard rc instances q =
    if quota_is_reached rc instances q && q.enforcement == "block"
    then some (quota_message rc instances q)
    else none

unfoldable pub quota_soft : AiReqContext → List AiServiceInstance → AiQuota → Option Reason
unfolding quota_message
quota_soft rc instances q =
    if quota_is_reached rc instances q && not (q.enforcement == "block")
    then some (quota_message rc instances q)
    else none

unfoldable pub budget_hard : Env → AiReqContext → AiBudgetSummary → Option Reason
budget_hard e rc b =
    if budget_applies e.uuid_string b.budget rc && b.status == "hard_limit"
    then some (budget_exhausted b)
    else none

unfoldable pub budget_soft : Env → AiReqContext → AiBudgetSummary → Option Reason
budget_soft e rc b =
    if budget_applies e.uuid_string b.budget rc && b.status == "warning"
    then some (budget_warning b)
    else none

unfoldable pub hard_reasons : Env → AiReqContext → Db → List Reason
hard_reasons e rc db =
    collect (policy_reason rc) (listed (list_ai_access_policies e db).0)
    ++ (collect (quota_hard rc (visible_instances e db)) (listed (list_ai_quotas e db).0)
        ++ collect (budget_hard e rc) (listed (list_budget_summaries e db).0))

unfoldable pub soft_reasons : Env → AiReqContext → Db → List Reason
soft_reasons e rc db =
    collect (quota_soft rc (visible_instances e db)) (listed (list_ai_quotas e db).0)
    ++ collect (budget_soft e rc) (listed (list_budget_summaries e db).0)

unfoldable pub warn_all : Env → String → List Reason → Db → Db
warn_all e owner [] db = db
warn_all e owner (r ∷ rs) db =
    warn_all e owner rs (emit_audit e "ai_request" 0 "governance_warning" owner db)

-- `return &aiEnforcementError{reasons: hard}` if there is one.
unfoldable pub block : Env → String → List Reason → Exec Db (List Reason) (Unit {0})
block e owner [] db = (ok tt, db)
block e owner (r ∷ rs) db =
    (err (r ∷ rs), emit_audit e "ai_request" 0 "governance_blocked" owner db)

unfoldable pub evaluate_ai_governance : Env → AiReqContext → Exec Db (List Reason) (Unit {0})
evaluate_ai_governance e rc db =
    block e rc.owner (hard_reasons e rc db) (warn_all e rc.owner (soft_reasons e rc db) db)
