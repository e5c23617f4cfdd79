-- ===== src/Tenant.antt =====
-- internal/orchestrator/tenant.go: which tenant a row is stamped with, and which rows a caller
-- sees; and `emitAIAudit` of internal/orchestrator/ai.go.
pub mod Isolation
use opord_ai_demo.Base.{
  ℕ, String, Bool, true, false, Option, none, some, List, ◌∷◌, Result, ok, err, Exec, pure,
  if◌then◌else◌, ◌==◌, ◌=?◌, ◌||◌, select,
}
use opord_ai_demo.Db.{Env, Db, Identity, create_audit_event}
use opord_ai_demo.Db.Rows.{AiAuditEvent}

-- A UUID as a nullable column: `uuid.Nil` is not valid.
abbrev pub nullable : ℕ → Option ℕ
nullable id = if id =? 0 then none else some id

tenant_of : Option Identity → Option ℕ
tenant_of none = none
tenant_of (some id) = nullable id.tenant_id

unfoldable pub tenant_for_create : Env → Option ℕ
unfolding tenant_of
tenant_for_create e = tenant_of e.identity

scope_of : Option Identity → Option ℕ
scope_of none = none
scope_of (some id) = if (id.role == "admin") || (id.tenant_id =? 0) then none else some id.tenant_id

-- The tenant that a caller is held to; `none` where no filter applies.
unfoldable pub scope_tenant : Env → Option ℕ
unfolding scope_of
scope_tenant e = scope_of e.identity

unfoldable pub tenant_visible : Option ℕ → ℕ → Bool
tenant_visible none tid = false
tenant_visible (some t) tid = t =? tid

-- `tid, scoped := scopeTenant(ctx); scoped && !tenantVisible(row.TenantID, tid)` is this test
-- failing.
unfoldable pub may_see : Option ℕ → Option ℕ → Bool
unfolding tenant_visible
may_see none row = true
may_see (some tid) row = tenant_visible row tid

-- The loop at the end of each List method.
module _ {A : Type 0} (tenant_id : A → Option ℕ) where
  unfoldable pub visible_rows : Option ℕ → List A → List A
  unfolding tenant_visible
  visible_rows none rows = rows
  visible_rows (some tid) rows = select (λ r. tenant_visible (tenant_id r) tid) rows

actor_of : Option Identity → String → String
actor_of none fallback = fallback
actor_of (some id) fallback = id.email

unfoldable pub audit_event : Env → String → ℕ → String → String → AiAuditEvent
unfolding actor_of
audit_event e subject_type subject_id action fallback = record {
  actor = if actor_of e.identity fallback == "" then "system" else actor_of e.identity fallback;
  tenant_id = tenant_for_create e;
  subject_type = subject_type;
  subject_id = nullable subject_id;
  action = action;
}

-- emitAIAudit: a failing insert is ignored. The message and the fields are left out.
unfoldable pub emit_audit : Env → String → ℕ → String → String → Db → Db
emit_audit e subject_type subject_id action fallback db =
    if e.fails create_audit_event
    then db
    else record db { audit = audit_event e subject_type subject_id action fallback ∷ db.audit }
