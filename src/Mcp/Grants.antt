-- ===== src/Mcp/Grants.antt =====
-- GrantMCPAccess, RequestMCPAccess and the decisions on a grant of
-- internal/orchestrator/mcp.go.
use opord_ai_demo.Base.{
  ℕ, String, Option, none, List, Exec, Result, ok, err, pure, guard, perform, reading, writing,
  attempt, ◌>>=◌, ◌>>◌, trim, non_empty, ◌==◌, ◌||◌, if◌then◌else◌,
}
use opord_ai_demo.Db.{Env, Db, DbError}
use opord_ai_demo.Db.Rows.{McpServer, McpGrant}
use opord_ai_demo.Db.Mcp.{
  server_by_name, create_grant_row, all_grants, latest_grant, active_grant, set_grant_status,
  revoke_grant_row,
}
use opord_ai_demo.Tenant.{tenant_for_create, scope_tenant, visible_rows, emit_audit}
use opord_ai_demo.Mcp.{
  McpError, owner_required, server_not_found, server_not_active, list_failed, grant_failed,
  decide_failed,
}

-- The insert and its audit event, at the end of GrantMCPAccess and RequestMCPAccess.
unfoldable pub new_grant :
    Env → McpServer → String → Option ℕ → String → String → String → Exec Db McpError McpGrant
new_grant e srv owner expires_at by status action = do
  grant ←
      writing (create_grant_row e srv.id owner expires_at by (tenant_for_create e) status)
        grant_failed
  perform (emit_audit e "mcp_grant" grant.id action by)
  pure grant

-- An owner who has an active grant gets that one back.
unfoldable pub reuse_active :
    Result DbError McpGrant → Exec Db McpError McpGrant → Exec Db McpError McpGrant
reuse_active (ok g) otherwise = pure g
reuse_active (err x) otherwise = otherwise

unfoldable pub grant_mcp_access :
    Env → String → String → Option ℕ → String → Exec Db McpError McpGrant
unfolding reuse_active new_grant
grant_mcp_access e server_name raw_owner expires_at granted_by = do
  let owner = trim raw_owner
  guard (non_empty owner) owner_required
  srv ← reading (server_by_name e server_name) server_not_found
  guard (srv.status == "active") (server_not_active srv.status)
  existing ← attempt (active_grant e srv.id owner)
  reuse_active existing (new_grant e srv owner expires_at granted_by "active" "granted")

-- So does one whose latest grant is active or requested.
unfoldable pub reuse_latest :
    Result DbError McpGrant → Exec Db McpError McpGrant → Exec Db McpError McpGrant
reuse_latest (ok g) otherwise =
    if g.status == "active" || g.status == "requested" then pure g else otherwise
reuse_latest (err x) otherwise = otherwise

unfoldable pub request_mcp_access : Env → String → String → String → Exec Db McpError McpGrant
unfolding reuse_latest new_grant
request_mcp_access e server_name raw_owner requester = do
  let owner = trim raw_owner
  guard (non_empty owner) owner_required
  srv ← reading (server_by_name e server_name) server_not_found
  existing ← attempt (latest_grant e srv.id owner)
  reuse_latest existing (new_grant e srv owner none requester "requested" "requested")

unfoldable pub approve_mcp_grant : Env → ℕ → String → Exec Db McpError McpGrant
approve_mcp_grant e id actor = do
  g ← writing (set_grant_status e id "active") decide_failed
  perform (emit_audit e "mcp_grant" g.id "approved" actor)
  pure g

unfoldable pub reject_mcp_grant : Env → ℕ → String → Exec Db McpError McpGrant
reject_mcp_grant e id actor = do
  g ← writing (set_grant_status e id "rejected") decide_failed
  perform (emit_audit e "mcp_grant" g.id "rejected" actor)
  pure g

unfoldable pub list_mcp_grants : Env → Exec Db McpError (List McpGrant)
list_mcp_grants e = do
  rows ← reading (all_grants e) list_failed
  pure (visible_rows (λ (g : McpGrant). g.tenant_id) (scope_tenant e) rows)

unfoldable pub revoke_mcp_grant : Env → ℕ → String → Exec Db McpError McpGrant
revoke_mcp_grant e id actor = do
  g ← writing (revoke_grant_row e id) decide_failed
  perform (emit_audit e "mcp_grant" g.id "revoked" actor)
  pure g
