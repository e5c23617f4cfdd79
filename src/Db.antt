-- ===== src/Db.antt =====
-- internal/db: the tables as lists, newest row first, and what a handler finds around it.
pub mod Rows
pub mod Users
pub mod Mcp
pub mod Governance
pub mod Access
pub mod Providers
pub mod Listings
pub mod Requests
use Rows.{
  Tenant, User, Request, AiProvider, AiService, AiServiceInstance, AiUsageRecord, AiBudget, AiQuota,
  AiAccessPolicy, AiAuditEvent, McpServer, McpGrant, AiProviderCredential, AiModelCatalog,
}
use opord_ai_demo.Base.{
  ℕ, suc, ◌+◌, String, Option, none, some, Bool, List, Result, ok, err, if◌then◌else◌,
}

-- internal/auth: the authenticated caller.
pub record Identity : Type 0 where
  pub email : String
  pub tenant : String
  pub tenant_id : ℕ
  pub role : String

-- One constructor for each query of internal/db/querier.go that the modelled code makes.
pub data Query : Type 0 where
  create_tenant get_tenant get_tenant_by_name list_tenants : Query
  create_user get_user_by_api_key_hash list_users : Query
  create_request get_request_by_name list_requests set_request_ticket : Query
  set_request_resource decide_request : Query
  list_budgets get_budget create_budget update_budget delete_budget : Query
  list_quotas get_quota create_quota update_quota delete_quota : Query
  list_policies get_policy create_policy update_policy delete_policy : Query
  list_usage list_instances get_service_by_slug create_audit_event : Query
  -- the second ListAIUsageRecords of one evaluateGatewayBudget, which can fail alone
  list_usage_again : Query
  get_instance get_service get_provider revoke_instance recertify_instance : Query
  create_instance create_usage find_usage_by_key find_key_spend update_usage_cost : Query
  create_provider get_provider_by_name update_provider delete_provider list_providers : Query
  count_active_instances delete_provider_instances : Query
  create_credential get_credential create_service list_services : Query
  upsert_model list_models list_expiring list_audit : Query
  get_mcp_server_by_name list_mcp_servers create_mcp_server : Query
  update_mcp_server_status delete_mcp_server : Query
  create_mcp_grant list_mcp_grants find_active_mcp_grant find_latest_mcp_grant : Query
  set_mcp_grant_status revoke_mcp_grant : Query

-- What a call reads besides the database: the caller in the context, the clock with the starts of
-- the current day, month and year in its location, which queries the database fails, and how a
-- UUID prints (github.com/google/uuid).
pub record Env : Type 0 where
  pub identity : Option Identity
  pub now : ℕ
  pub day_start : ℕ
  pub month_start : ℕ
  pub year_start : ℕ
  pub fails : Query → Bool
  pub uuid_string : ℕ → String

-- `pgx.ErrNoRows`, a constraint, or any other failure.
pub data DbError : Type 0 where
  no_rows violation failed : DbError

pub record Db : Type 0 where
  pub next_id : ℕ
  pub tenants : List Tenant
  pub users : List User
  pub requests : List Request
  pub providers : List AiProvider
  pub credentials : List AiProviderCredential
  pub models : List AiModelCatalog
  pub services : List AiService
  pub instances : List AiServiceInstance
  pub usage : List AiUsageRecord
  pub budgets : List AiBudget
  pub quotas : List AiQuota
  pub policies : List AiAccessPolicy
  pub audit : List AiAuditEvent
  pub mcp_servers : List McpServer
  pub mcp_grants : List McpGrant

-- A query that the database may fail.
abbrev pub query : {A : Type 0} → Env → Query → Result DbError A → Result DbError A
query e q r = if e.fails q then err failed else r

abbrev pub first_row : {A : Type 0} → Option A → Result DbError A
first_row none = err no_rows
first_row (some a) = ok a

-- A write that the database may fail; then nothing is written.
abbrev pub write : {A : Type 0} → Env → Query → Db → Result DbError A × Db → Result DbError A × Db
write e q db r = if e.fails q then (err failed, db) else r

-- `gen_random_uuid()`: the next number that no row has.
abbrev pub fresh : Db → ℕ
fresh db = suc db.next_id
