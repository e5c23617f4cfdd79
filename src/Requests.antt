-- ===== src/Requests.antt =====
-- CreateRequest, RejectRequest, ListRequests and RequestStatus of internal/orchestrator/request.go.
-- The ticket system is an argument: the reference of the ticket it opens, `none` where there is no
-- such system or it fails.
pub mod Decisions
pub mod Creation
use opord_ai_demo.Base.{
  ℕ, String, Bool, Option, none, some, List, Result, ok, err, Exec, pure, guard, perform, reading,
  writing, ◌>>=◌, ◌>>◌, if◌then◌else◌, ◌==◌, ◌&&◌, non_empty, or_else,
}
use opord_ai_demo.Json.{Json, obj, end}
use opord_ai_demo.Db.{Env, Db, DbError}
use opord_ai_demo.Db.Rows.{Request}
use opord_ai_demo.Db.Requests.{
  request_by_name, all_requests, create_request_row, set_ticket_row, decide_request_row,
}
use opord_ai_demo.Tenant.{tenant_for_create, scope_tenant, may_see, visible_rows}

pub record CreateRequestInput : Type 0 where
  pub name : String
  pub environment : String
  pub requester : String
  pub kind : String
  pub provider : String
  pub blueprint : String
  pub spec : Option Json

pub data RequestError : Type 0 where
  fields_required invalid_kind hidden : RequestError
  not_pending : String → RequestError
  create_failed not_found decide_failed list_failed : DbError → RequestError

-- An empty spec is stored as the empty object.
unfoldable pub spec_or_empty : Option Json → Json
spec_or_empty none = obj end
spec_or_empty (some j) = j

unfoldable pub new_request : Env → CreateRequestInput → Request
unfolding spec_or_empty
new_request e input = record {
  id = 0;
  name = input.name;
  environment = or_else input.environment "dev";
  requester = input.requester;
  kind = input.kind;
  provider = input.provider;
  blueprint = input.blueprint;
  spec = some (spec_or_empty input.spec);
  status = "pending_approval";
  ticket_ref = "";
  resource_ref = "";
  decided_by = "";
  reason = "";
  created_at = 0;
  tenant_id = tenant_for_create e;
}

-- `if updated, err := SetRequestTicket(…); err == nil { req = updated }`
abbrev pub or_old : Request → Result DbError Request × Db → Result RequestError Request × Db
or_old req (ok updated, db) = (ok updated, db)
or_old req (err x, db) = (ok req, db)

unfoldable pub attach_ticket : Env → Option String → Request → Exec Db RequestError Request
attach_ticket e none req db = (ok req, db)
attach_ticket e (some ticket) req db =
    if ticket == "" then (ok req, db) else or_old req (set_ticket_row e req.id ticket db)

unfoldable pub create_request :
    Env → (Request → Option String) → CreateRequestInput → Exec Db RequestError Request
create_request e ticketer input = do
  guard (non_empty input.name && non_empty input.provider && non_empty input.kind) fields_required
  guard (input.kind == "ai_service") invalid_kind
  req ← writing (create_request_row e (new_request e input)) create_failed
  attach_ticket e (ticketer req) req

unfoldable pub request_status : Env → String → String → Exec Db RequestError Request
request_status e name environment = do
  req ← reading (request_by_name e name (or_else environment "dev")) not_found
  guard (may_see (scope_tenant e) req.tenant_id) hidden
  pure req

unfoldable pub reject_request :
    Env → String → String → String → String → Exec Db RequestError (Unit {0})
reject_request e name environment by reason = do
  req ← reading (request_by_name e name (or_else environment "dev")) not_found
  guard (may_see (scope_tenant e) req.tenant_id) hidden
  guard (req.status == "pending_approval") (not_pending req.status)
  writing (decide_request_row e req.id "rejected" by reason) decide_failed
  pure tt

unfoldable pub list_requests : Env → Exec Db RequestError (List Request)
list_requests e = do
  rows ← reading (all_requests e) list_failed
  pure (visible_rows (λ (r : Request). r.tenant_id) (scope_tenant e) rows)
