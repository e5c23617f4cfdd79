-- ===== src/Approval.antt =====
-- ApproveRequest and provisionRequest of internal/orchestrator/request.go: an approval provisions
-- what was asked for, and the request ends completed or failed.
pub mod Workflow
pub mod Untouched
pub mod Filed
pub mod Creation
pub mod Refinement
use opord_ai_demo.Base.{
  ℕ, String, Bool, Option, none, some, Result, ok, err, Exec, pure, guard, reading, writing, ◌>>=◌,
  ◌>>◌, if◌then◌else◌, ◌==◌, or_else,
}
use opord_ai_demo.Db.{Env, Db, DbError}
use opord_ai_demo.Db.Rows.{Request, AiServiceInstance}
use opord_ai_demo.Db.Requests.{request_by_name, decide_request_row, set_resource_row}
use opord_ai_demo.Tenant.{scope_tenant, may_see}
use opord_ai_demo.Providers.Adapter.{Wiring}
use opord_ai_demo.Provision.{ProvisionError}
use opord_ai_demo.Provision.Spec.{Parsers}
use opord_ai_demo.Provision.Grant.{provision_ai_request}

pub data ApprovalError : Type 0 where
  hidden : ApprovalError
  unknown_kind not_pending : String → ApprovalError
  not_found decide_failed : DbError → ApprovalError
  provisioning : ProvisionError → ApprovalError

-- What was provisioned: its reference, and the status that comes next.
abbrev completed_by : Env → AiServiceInstance → String × String
completed_by e inst = (e.uuid_string inst.id, "completed")

unfoldable pub provision_request :
    Env → Wiring → Parsers → Request → Exec Db ApprovalError (String × String)
provision_request e w ps req =
    if req.kind == "ai_service"
    then (writing (provision_ai_request e w ps req) provisioning
        >>= (λ inst. pure (completed_by e inst)))
    else (λ db. (err (unknown_kind req.kind), db))

-- The outcome is written on the request; an error of this write is ignored.
abbrev pub settle :
    Env
    → Request
    → Result ApprovalError (String × String) × Db
    → Result ApprovalError (Unit {0}) × Db
settle e req (err x, db) = (err x, (set_resource_row e req.id req.name "failed" db).1)
settle e req (ok (ref, next), db) =
    (ok tt, (set_resource_row e req.id (or_else ref req.name) (or_else next "provisioning") db).1)

-- The request is provisioned as it was read, before the decision was written on it.
unfoldable pub approve_request :
    Env → Wiring → Parsers → String → String → String → Exec Db ApprovalError (Unit {0})
approve_request e w ps name environment by = do
  req ← reading (request_by_name e name (or_else environment "dev")) not_found
  guard (may_see (scope_tenant e) req.tenant_id) hidden
  guard (req.status == "pending_approval") (not_pending req.status)
  writing (decide_request_row e req.id "approved" by "") decide_failed
  λ db. settle e req (provision_request e w ps req db)
