-- ===== src/Budget/Edit.antt =====
-- CreateAIBudget, UpdateAIBudget and DeleteAIBudget of internal/orchestrator/ai_governance.go.
use opord_ai_demo.Base.{
  ℕ, String, Bool, Exec, pure, guard, perform, reading, writing, ◌>>=◌, ◌>>◌, if◌then◌else◌, ◌==◌,
  ◌&&◌, trim, or_else,
}
use opord_ai_demo.Base.Int.{ℤ, pos, leb_ℤ, ltb_ℤ}
use opord_ai_demo.Db.{Env, Db}
use opord_ai_demo.Db.Rows.{AiBudget}
use opord_ai_demo.Db.Governance.{
  create_budget_row, budget_by_id, update_budget_row, delete_budget_row,
}
use opord_ai_demo.Tenant.{tenant_for_create, scope_tenant, may_see, emit_audit}
use opord_ai_demo.Budget.{
  GovernanceError, limit_not_positive, thresholds_not_positive, soft_above_hard, not_found,
  create_failed, load_failed, update_failed, delete_failed,
}

pub record AiBudgetInput : Type 0 where
  pub scope : String
  pub scope_ref : String
  pub limit_usd : ℤ
  pub period : String
  pub soft_threshold_pct : ℤ
  pub hard_threshold_pct : ℤ

is_zero : ℤ → Bool
is_zero n = leb_ℤ n (pos 0) && leb_ℤ (pos 0) n

unfoldable pub or_default : ℤ → ℤ → ℤ
unfolding is_zero
or_default n d = if is_zero n then d else n

unfoldable pub validate_thresholds : ℤ → ℤ → Exec Db GovernanceError (Unit {0})
validate_thresholds soft hard = do
  guard (ltb_ℤ (pos 0) soft && ltb_ℤ (pos 0) hard) thresholds_not_positive
  guard (leb_ℤ soft hard) soft_above_hard

-- aiTenantGuard
unfoldable pub tenant_guard : Env → AiBudget → Exec Db GovernanceError (Unit {0})
tenant_guard e b = guard (may_see (scope_tenant e) b.tenant_id) not_found

-- The row that CreateAIBudget inserts, under any id.
unfoldable pub new_row : Env → AiBudgetInput → AiBudget
new_row e input = record {
  id = 0;
  tenant_id = tenant_for_create e;
  scope = or_else (trim input.scope) "global";
  scope_ref = trim input.scope_ref;
  limit_usd = input.limit_usd;
  period = or_else (trim input.period) "monthly";
  soft_threshold_pct = or_default input.soft_threshold_pct (pos 80);
  hard_threshold_pct = or_default input.hard_threshold_pct (pos 100);
}

unfoldable pub create_ai_budget : Env → AiBudgetInput → Exec Db GovernanceError AiBudget
unfolding validate_thresholds new_row
create_ai_budget e input = do
  guard (ltb_ℤ (pos 0) input.limit_usd) limit_not_positive
  validate_thresholds (or_default input.soft_threshold_pct (pos 80))
      (or_default input.hard_threshold_pct (pos 100))
  b ← writing (create_budget_row e (new_row e input)) create_failed
  perform (emit_audit e "ai_budget" b.id "created" "")
  pure b

-- A budget whose scope is left out keeps the scope that it has.
unfoldable pub new_scope : AiBudgetInput → AiBudget → String
new_scope input b = if trim input.scope == "" then b.scope else trim input.scope

unfoldable pub new_scope_ref : AiBudgetInput → AiBudget → String
new_scope_ref input b = if trim input.scope == "" then b.scope_ref else trim input.scope_ref

unfoldable pub edited : AiBudgetInput → AiBudget → AiBudget → AiBudget
edited input existing b = record b {
  scope = new_scope input existing;
  scope_ref = new_scope_ref input existing;
  limit_usd = input.limit_usd;
  period = or_else (trim input.period) "monthly";
  soft_threshold_pct = or_default input.soft_threshold_pct (pos 80);
  hard_threshold_pct = or_default input.hard_threshold_pct (pos 100);
}

unfoldable pub update_ai_budget : Env → ℕ → AiBudgetInput → Exec Db GovernanceError AiBudget
unfolding validate_thresholds tenant_guard
update_ai_budget e id input = do
  guard (ltb_ℤ (pos 0) input.limit_usd) limit_not_positive
  existing ← reading (budget_by_id e id) load_failed
  tenant_guard e existing
  validate_thresholds (or_default input.soft_threshold_pct (pos 80))
      (or_default input.hard_threshold_pct (pos 100))
  b ← writing (update_budget_row e id (edited input existing)) update_failed
  perform (emit_audit e "ai_budget" b.id "updated" "")
  pure b

unfoldable pub delete_ai_budget : Env → ℕ → Exec Db GovernanceError (Unit {0})
unfolding tenant_guard
delete_ai_budget e id = do
  existing ← reading (budget_by_id e id) load_failed
  tenant_guard e existing
  writing (delete_budget_row e id) delete_failed
  perform (emit_audit e "ai_budget" id "deleted" "")
