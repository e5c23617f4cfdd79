-- ===== src/Db/Rows.antt =====
-- internal/db/models.go: the rows of the tables that the governance code reads and writes. A
-- nullable column is an `Option`; a UUID is a number, with 0 for `uuid.Nil`; a time is a number of
-- nanoseconds. Left out are the columns `updated_at`, `provisioned_at` and those of a credential's
-- rotation and validation, `created_at` where no code reads it, and the `status` of a service.
use opord_ai_demo.Base.{ℕ, String, Option, Bool, List}
use opord_ai_demo.Base.Int.{ℤ}
use opord_ai_demo.Json.{Raw}

pub record Tenant : Type 0 where
  pub id : ℕ
  pub name : String

pub record User : Type 0 where
  pub id : ℕ
  pub email : String
  pub tenant_id : ℕ
  pub role : String
  pub api_key_hash : String

pub record Request : Type 0 where
  pub id : ℕ
  pub name : String
  pub environment : String
  pub requester : String
  pub kind : String
  pub provider : String
  pub blueprint : String
  pub spec : Raw
  pub status : String
  pub ticket_ref : String
  pub resource_ref : String
  pub decided_by : String
  pub reason : String
  pub created_at : ℕ
  pub tenant_id : Option ℕ

pub record AiProvider : Type 0 where
  pub id : ℕ
  pub name : String
  pub type : String
  pub config : Raw
  pub status : String
  pub tenant_id : Option ℕ

pub record AiProviderCredential : Type 0 where
  pub id : ℕ
  pub provider_id : ℕ
  pub secret_ref : String
  pub scopes : List String

pub record AiModelCatalog : Type 0 where
  pub id : ℕ
  pub provider_id : ℕ
  pub model : String
  pub display_name : String
  pub modality : String
  pub status : String
  pub metadata : Raw

pub record AiService : Type 0 where
  pub id : ℕ
  pub provider_id : ℕ
  pub name : String
  pub slug : String
  pub category : String
  pub description : String
  pub request_schema : Raw
  pub default_expiration_days : ℤ
  pub requires_approval : Bool

pub record AiServiceInstance : Type 0 where
  pub id : ℕ
  pub service_id : ℕ
  pub request_id : Option ℕ
  pub provider_access_id : String
  pub owner : String
  pub tenant_id : Option ℕ
  pub workspace : String
  pub status : String
  pub spec : Raw
  pub observed : Raw
  pub expires_at : Option ℕ
  pub revoked_at : Option ℕ
  pub created_at : ℕ

pub record AiUsageRecord : Type 0 where
  pub id : ℕ
  pub instance_id : Option ℕ
  pub provider_id : ℕ
  pub period_start : ℕ
  pub period_end : ℕ
  pub metric : String
  pub quantity : ℤ
  pub unit : String
  pub cost_usd : ℤ
  pub raw : Raw

pub record AiBudget : Type 0 where
  pub id : ℕ
  pub tenant_id : Option ℕ
  pub scope : String
  pub scope_ref : String
  pub limit_usd : ℤ
  pub period : String
  pub soft_threshold_pct : ℤ
  pub hard_threshold_pct : ℤ

pub record AiQuota : Type 0 where
  pub id : ℕ
  pub service_id : Option ℕ
  pub tenant_id : Option ℕ
  pub metric : String
  pub limit_quantity : ℤ
  pub period : String
  pub enforcement : String

pub record AiAccessPolicy : Type 0 where
  pub id : ℕ
  pub name : String
  pub tenant_id : Option ℕ
  pub rules : Raw
  pub status : String

pub record AiAuditEvent : Type 0 where
  pub actor : String
  pub tenant_id : Option ℕ
  pub subject_type : String
  pub subject_id : Option ℕ
  pub action : String

pub record McpServer : Type 0 where
  pub id : ℕ
  pub name : String
  pub transport : String
  pub endpoint : String
  pub description : String
  pub risk_tier : String
  pub allowed_tools : List String
  pub status : String
  pub tenant_id : Option ℕ

pub record McpGrant : Type 0 where
  pub id : ℕ
  pub server_id : ℕ
  pub owner : String
  pub status : String
  pub expires_at : Option ℕ
  pub granted_by : String
  pub tenant_id : Option ℕ
  pub revoked_at : Option ℕ
