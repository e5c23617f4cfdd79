-- ===== src/Mcp/Registry.antt =====
-- RegisterMCPServer, ListMCPServers, SetMCPServerStatus and DeleteMCPServer of
-- internal/orchestrator/mcp.go.
use opord_ai_demo.Base.{
  String, List, Exec, pure, guard, perform, reading, writing, ◌>>=◌, ◌>>◌, trim, lower, or_else,
  non_empty,
}
use opord_ai_demo.Db.{Env, Db}
use opord_ai_demo.Db.Rows.{McpServer}
use opord_ai_demo.Db.Mcp.{
  create_server_row, all_servers, server_by_name, update_server_status, delete_server_row,
}
use opord_ai_demo.Tenant.{tenant_for_create, scope_tenant, visible_rows, emit_audit}
use opord_ai_demo.Mcp.{
  McpError, name_required, server_not_found, register_failed, list_failed, update_failed,
}

pub record McpServerInput : Type 0 where
  pub name : String
  pub transport : String
  pub endpoint : String
  pub description : String
  pub risk_tier : String
  pub allowed_tools : List String

unfoldable pub register_mcp_server : Env → McpServerInput → Exec Db McpError McpServer
register_mcp_server e input = do
  let name = trim input.name
  guard (non_empty name) name_required
  srv ←
      writing
        (create_server_row e name (or_else (lower (trim input.transport)) "stdio")
          (trim input.endpoint) (trim input.description)
          (or_else (lower (trim input.risk_tier)) "medium") input.allowed_tools
          (tenant_for_create e))
        register_failed
  perform (emit_audit e "mcp_server" srv.id "registered" "")
  pure srv

unfoldable pub list_mcp_servers : Env → Exec Db McpError (List McpServer)
list_mcp_servers e = do
  rows ← reading (all_servers e) list_failed
  pure (visible_rows (λ (s : McpServer). s.tenant_id) (scope_tenant e) rows)

unfoldable pub set_mcp_server_status : Env → String → String → Exec Db McpError McpServer
set_mcp_server_status e name status = do
  srv ← reading (server_by_name e name) server_not_found
  updated ← writing (update_server_status e srv.id status) update_failed
  perform (emit_audit e "mcp_server" srv.id "status_changed" "")
  pure updated

unfoldable pub delete_mcp_server : Env → String → Exec Db McpError (Unit {0})
delete_mcp_server e name = do
  srv ← reading (server_by_name e name) server_not_found
  writing (delete_server_row e srv.id) update_failed
  perform (emit_audit e "mcp_server" srv.id "deleted" "")
