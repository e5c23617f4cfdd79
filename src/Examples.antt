-- ===== src/Examples.antt =====
-- A small database and callers of it, on which the theorems are run.
mod Access
mod Registry
mod Tickets
mod Cards
mod Grants
mod Money
mod Gates
mod Providers
mod Approvals
mod Gateways
mod Imports
mod Admins
use opord_ai_demo.Base.{ℕ, String, Bool, true, false, Option, none, some, List, [], ◌∷◌}
use opord_ai_demo.Base.Int.{pos}
use opord_ai_demo.Json.{Json, Fields, Raw, obj, field, end, text, arr, cons, nil}
use opord_ai_demo.Db.{Env, Db, Identity}
use opord_ai_demo.Db.Rows.{
  Tenant, User, AiProvider, AiService, AiServiceInstance, AiUsageRecord, AiBudget, AiQuota,
  AiAccessPolicy, McpServer, McpGrant,
}
use opord_ai_demo.Policy.Rule.{AiReqContext}

-- An operator of tenant 1, at nanosecond 1000, with a database that never fails.
abbrev pub ops : Identity
ops = record { email = "ops@acme.io"; tenant = "acme"; tenant_id = 1; role = "operator" }

abbrev pub env : Env
env = record {
  identity = some ops;
  now = 1000;
  day_start = 900;
  month_start = 500;
  year_start = 100;
  fails = λ q. false;
  uuid_string = λ id. "id";
}

abbrev pub acme_budget : AiBudget
acme_budget = record {
  id = 30;
  tenant_id = some 1;
  scope = "global";
  scope_ref = "";
  limit_usd = pos 100;
  period = "monthly";
  soft_threshold_pct = pos 80;
  hard_threshold_pct = pos 100;
}

abbrev pub other_budget : AiBudget
other_budget = record acme_budget { id = 31; tenant_id = some 2 }

abbrev pub other_quota : AiQuota
other_quota = record {
  id = 41;
  service_id = none;
  tenant_id = some 2;
  metric = "tokens";
  limit_quantity = pos 1000;
  period = "monthly";
  enforcement = "block";
}

abbrev pub acme_quota : AiQuota
acme_quota = record other_quota { id = 40; tenant_id = some 1 }

-- `{"effect": "deny", "providers": ["mock"]}`, a policy of no tenant.
abbrev pub no_mock : AiAccessPolicy
no_mock = record {
  id = 50;
  name = "no mock";
  tenant_id = none;
  rules =
      some
        (obj (field "effect" (text "deny") (field "providers" (arr (cons (text "mock") nil)) end)));
  status = "active";
}

-- `{}`
abbrev pub empty_policy : AiAccessPolicy
empty_policy = record no_mock {
  id = 51;
  name = "empty";
  tenant_id = some 1;
  rules = some (obj end);
}

abbrev pub files : McpServer
files = record {
  id = 60;
  name = "files";
  transport = "http";
  endpoint = "https://files";
  description = "";
  risk_tier = "high";
  allowed_tools = "read" ∷ [];
  status = "active";
  tenant_id = some 1;
}

abbrev pub eve : McpGrant
eve = record {
  id = 70;
  server_id = 60;
  owner = "Eve";
  status = "active";
  expires_at = some 2000;
  granted_by = "ops@acme.io";
  tenant_id = some 1;
  revoked_at = none;
}

-- A grant that is past its expiry.
abbrev pub bob : McpGrant
bob = record eve { id = 71; owner = "bob"; expires_at = some 10 }

abbrev pub mock : AiProvider
mock = record {
  id = 10;
  name = "mock";
  type = "mock";
  config = none;
  status = "active";
  tenant_id = some 1;
}

abbrev pub chat : AiService
chat = record {
  id = 20;
  provider_id = 10;
  name = "Chat";
  slug = "chat";
  category = "llm";
  description = "";
  request_schema = some (obj end);
  default_expiration_days = pos 30;
  requires_approval = false;
}

abbrev pub db : Db
db = record {
  next_id = 100;
  tenants = record { id = 1; name = "acme" } ∷ record { id = 2; name = "other" } ∷ [];
  users = [];
  requests = [];
  providers = mock ∷ [];
  credentials = [];
  models = [];
  services = chat ∷ [];
  instances = [];
  usage = [];
  budgets = acme_budget ∷ other_budget ∷ [];
  quotas = acme_quota ∷ other_quota ∷ [];
  policies = [];
  audit = [];
  mcp_servers = files ∷ [];
  mcp_grants = eve ∷ bob ∷ [];
}

-- A request of Eve's for the mock provider's chat service.
abbrev pub chat_request : AiReqContext
chat_request = record {
  service_id = 20;
  service_slug = "chat";
  service_category = "llm";
  provider_name = "mock";
  provider_type = "mock";
  owner = "eve@acme.io";
  workspace = "";
  tenant = some 1;
}
