-- ===== src/Quota.antt =====
-- CreateAIQuota, ListAIQuotas, UpdateAIQuota and DeleteAIQuota of
-- internal/orchestrator/ai_governance.go.
pub mod Laws
use opord_ai_demo.Base.{
  ℕ, String, Option, none, some, List, Exec, Result, ok, err, pure, fail, guard, perform, reading,
  writing, ◌>>=◌, ◌>>◌, if◌then◌else◌, ◌==◌, trim, lower, or_else,
}
use opord_ai_demo.Base.Int.{ℤ, pos, ltb_ℤ}
use opord_ai_demo.Db.{Env, Db}
use opord_ai_demo.Db.Rows.{AiService, AiQuota}
use opord_ai_demo.Db.Governance.{
  service_by_slug, all_quotas, quota_by_id, create_quota_row, update_quota_row, delete_quota_row,
}
use opord_ai_demo.Tenant.{tenant_for_create, scope_tenant, may_see, visible_rows, emit_audit}
use opord_ai_demo.Budget.{
  GovernanceError, limit_not_positive, service_not_found, not_found, create_failed, load_failed,
  update_failed, delete_failed, list_failed,
}

pub record AiQuotaInput : Type 0 where
  pub service_slug : String
  pub metric : String
  pub limit_quantity : ℤ
  pub period : String
  pub enforcement : String

-- The service that a quota is for, if its slug is given.
unfoldable pub quota_service : Env → String → Exec Db GovernanceError (Option ℕ)
quota_service e slug =
    if slug == ""
    then pure none
    else do svc ← reading (service_by_slug e slug) service_not_found; pure (some svc.id)

unfoldable pub create_ai_quota : Env → AiQuotaInput → Exec Db GovernanceError AiQuota
create_ai_quota e input = do
  guard (ltb_ℤ (pos 0) input.limit_quantity) limit_not_positive
  service_id ← quota_service e (trim input.service_slug)
  q ←
      writing
        (create_quota_row e (record {
          id = 0;
          service_id = service_id;
          tenant_id = tenant_for_create e;
          metric = or_else (trim input.metric) "tokens";
          limit_quantity = input.limit_quantity;
          period = or_else (trim input.period) "monthly";
          enforcement = or_else (trim input.enforcement) "warn";
        }))
        create_failed
  perform (emit_audit e "ai_quota" q.id "created" "")
  pure q

unfoldable pub list_ai_quotas : Env → Exec Db GovernanceError (List AiQuota)
list_ai_quotas e = do
  rows ← reading (all_quotas e) list_failed
  pure (visible_rows (λ (q : AiQuota). q.tenant_id) (scope_tenant e) rows)

-- Whatever is not "block", up to case and space, is "warn".
unfoldable pub normal_enforcement : String → String
normal_enforcement s = if lower (trim s) == "block" then "block" else "warn"

unfoldable pub update_ai_quota : Env → ℕ → ℤ → String → String → Exec Db GovernanceError AiQuota
update_ai_quota e id limit period enforcement = do
  guard (ltb_ℤ (pos 0) limit) limit_not_positive
  existing ← reading (quota_by_id e id) load_failed
  guard (may_see (scope_tenant e) existing.tenant_id) not_found
  q ←
      writing
        (update_quota_row e id limit (or_else (trim period) "monthly")
          (normal_enforcement enforcement))
        update_failed
  perform (emit_audit e "ai_quota" q.id "updated" "")
  pure q

unfoldable pub delete_ai_quota : Env → ℕ → Exec Db GovernanceError (Unit {0})
delete_ai_quota e id = do
  existing ← reading (quota_by_id e id) load_failed
  guard (may_see (scope_tenant e) existing.tenant_id) not_found
  writing (delete_quota_row e id) delete_failed
  perform (emit_audit e "ai_quota" id "deleted" "")
