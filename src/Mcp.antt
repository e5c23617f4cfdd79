-- ===== src/Mcp.antt =====
-- internal/orchestrator/mcp.go: the registry of MCP servers, the grants on them, and the check an
-- agent runtime makes before it connects. Error texts are constructors; the log and the messages
-- of audit events are left out.
pub mod Registry
pub mod Grants
pub mod Authorize
pub mod Verdict
pub mod Lifecycle
pub mod Revocation
use opord_ai_demo.Base.{ℕ, String}
use opord_ai_demo.Db.{DbError}

pub data McpError : Type 0 where
  name_required owner_required : McpError
  server_not_found register_failed list_failed update_failed : DbError → McpError
  server_not_active : String → McpError
  grant_failed decide_failed : DbError → McpError
