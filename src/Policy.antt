-- ===== src/Policy.antt =====
-- CreateAIAccessPolicy, ListAIAccessPolicies, UpdateAIAccessPolicy and DeleteAIAccessPolicy of
-- internal/orchestrator/ai_governance.go. A rules map is a JSON object; encoding one cannot fail.
pub mod Rule
pub mod Matching
use opord_ai_demo.Base.{
  ℕ, String, Option, none, some, List, Exec, Result, ok, err, pure, guard, perform, reading,
  writing, ◌>>=◌, ◌>>◌, if◌then◌else◌, ◌==◌, non_empty, trim, lower, or_else,
}
use opord_ai_demo.Json.{Json, Fields, end, obj}
use opord_ai_demo.Db.{Env, Db}
use opord_ai_demo.Db.Rows.{AiAccessPolicy}
use opord_ai_demo.Db.Governance.{
  all_policies, policy_by_id, create_policy_row, update_policy_row, delete_policy_row,
}
use opord_ai_demo.Tenant.{tenant_for_create, scope_tenant, may_see, visible_rows, emit_audit}
use opord_ai_demo.Budget.{
  GovernanceError, name_required, not_found, create_failed, load_failed, update_failed,
  delete_failed, list_failed,
}

-- `nil` rules are stored as the empty object.
unfoldable pub rules_or_empty : Option Fields → Json
rules_or_empty none = obj end
rules_or_empty (some fs) = obj fs

unfoldable pub create_ai_access_policy :
    Env → String → Option Fields → String → Exec Db GovernanceError AiAccessPolicy
create_ai_access_policy e name rules status = do
  guard (non_empty (trim name)) name_required
  p ←
      writing
        (create_policy_row e (trim name) (tenant_for_create e) (some (rules_or_empty rules))
          (or_else (trim status) "active"))
        create_failed
  perform (emit_audit e "ai_policy" p.id "created" "")
  pure p

unfoldable pub list_ai_access_policies : Env → Exec Db GovernanceError (List AiAccessPolicy)
list_ai_access_policies e = do
  rows ← reading (all_policies e) list_failed
  pure (visible_rows (λ (p : AiAccessPolicy). p.tenant_id) (scope_tenant e) rows)

-- Whatever is not "disabled", up to case and space, is "active".
unfoldable pub normal_status : String → String
normal_status s = if lower (trim s) == "disabled" then "disabled" else "active"

unfoldable pub update_ai_access_policy :
    Env → ℕ → Option Fields → String → Exec Db GovernanceError AiAccessPolicy
update_ai_access_policy e id rules status = do
  existing ← reading (policy_by_id e id) load_failed
  guard (may_see (scope_tenant e) existing.tenant_id) not_found
  p ←
      writing (update_policy_row e id (some (rules_or_empty rules)) (normal_status status))
        update_failed
  perform (emit_audit e "ai_policy" p.id "updated" "")
  pure p

unfoldable pub delete_ai_access_policy : Env → ℕ → Exec Db GovernanceError (Unit {0})
delete_ai_access_policy e id = do
  existing ← reading (policy_by_id e id) load_failed
  guard (may_see (scope_tenant e) existing.tenant_id) not_found
  writing (delete_policy_row e id) delete_failed
  perform (emit_audit e "ai_policy" id "deleted" "")
