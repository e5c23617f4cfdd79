-- ===== src/Mcp/Authorize.antt =====
-- AuthorizeMCP of internal/orchestrator/mcp.go.
use opord_ai_demo.Base.{
  ℕ, String, Bool, true, false, Option, none, some, List, [], ◌∷◌, Result, ok, err, if◌then◌else◌,
  ◌==◌, ◌&&◌, not, ltb, non_empty, trim, equal_fold,
}
use opord_ai_demo.Db.{Env, Db, DbError, no_rows, violation, failed}
use opord_ai_demo.Db.Rows.{McpServer, McpGrant}
use opord_ai_demo.Db.Mcp.{server_by_name, active_grant}
use opord_ai_demo.Tenant.{emit_audit}

pub data Reason : Type 0 where
  not_registered server_disabled no_active_grant lookup_failed grant_expired : Reason
  tool_not_allowed authorized : Reason

-- The verdict; `risk_tier` is "" for a server that is not registered.
pub record McpAuthorizeResult : Type 0 where
  pub allowed : Bool
  pub reason : Reason
  pub server : String
  pub owner : String
  pub tool : String
  pub risk_tier : String

unfoldable pub contains_fold : List String → String → Bool
contains_fold [] v = false
contains_fold (item ∷ list) v =
    if equal_fold (trim item) (trim v) then true else contains_fold list v

unfoldable pub audit_mcp_authz : Env → ℕ → McpAuthorizeResult → Db → Db
audit_mcp_authz e server_id res db =
    emit_audit e "mcp_server" server_id (if res.allowed then "authz_allowed" else "authz_denied")
      res.owner db

abbrev pub is_empty : List String → Bool
is_empty [] = true
is_empty (t ∷ ts) = false

-- `grant.ExpiresAt.Valid && grant.ExpiresAt.Time.Before(now)`
unfoldable pub is_expired : ℕ → Option ℕ → Bool
is_expired now none = false
is_expired now (some t) = ltb t now

unfoldable pub tool_refused : McpServer → String → Bool
tool_refused srv tool =
    non_empty (trim tool)
    && (not (is_empty srv.allowed_tools) && not (contains_fold srv.allowed_tools tool))

unfoldable pub grant_reason : Env → McpServer → String → Result DbError McpGrant → Reason
grant_reason e srv tool (err no_rows) = no_active_grant
grant_reason e srv tool (err violation) = lookup_failed
grant_reason e srv tool (err failed) = lookup_failed
grant_reason e srv tool (ok grant) =
    if is_expired e.now grant.expires_at
    then grant_expired
    else if tool_refused srv tool
    then tool_not_allowed
    else authorized

unfoldable pub server_reason : Env → String → String → Db → McpServer → Reason
unfolding grant_reason
server_reason e owner tool db srv =
    if srv.status == "active"
    then grant_reason e srv tool (active_grant e srv.id (trim owner) db)
    else server_disabled

abbrev pub is_authorized : Reason → Bool
is_authorized authorized = true
is_authorized _ = false

unfoldable pub verdict :
    Env → String → String → String → Db → Result DbError McpServer → McpAuthorizeResult × ℕ
unfolding server_reason
verdict e server_name owner tool db (err x) = (
  record {
    allowed = false;
    reason = not_registered;
    server = server_name;
    owner = owner;
    tool = tool;
    risk_tier = "";
  },
  0,
)
verdict e server_name owner tool db (ok srv) =
    let reason = server_reason e owner tool db srv in
    (
      record {
        allowed = is_authorized reason;
        reason = reason;
        server = server_name;
        owner = owner;
        tool = tool;
        risk_tier = srv.risk_tier;
      },
      srv.id,
    )

-- Each branch of AuthorizeMCP ends in one audit event; the call never returns an error.
unfoldable pub authorize_mcp : Env → String → String → String → Db → McpAuthorizeResult × Db
unfolding verdict
authorize_mcp e server_name owner tool db =
    let (res, server_id) = verdict e server_name owner tool db (server_by_name e server_name db) in
    (res, audit_mcp_authz e server_id res db)
