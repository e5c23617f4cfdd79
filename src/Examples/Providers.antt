-- ===== src/Examples/Providers.antt =====
-- Runs of the theorems on providers and their configuration.
use opord_ai_demo.Base.{true, none, some, List, [], ◌∷◌, ◌≡◌, refl, inl, In, if◌then◌else◌}
use opord_ai_demo.Base.Int.{pos}
use opord_ai_demo.Json.{obj, field, text, end, entry}
use opord_ai_demo.Db.{Env, Db}
use opord_ai_demo.Db.Rows.{AiProvider, AiServiceInstance}
use opord_ai_demo.Db.Providers.{holds_access}
use opord_ai_demo.Providers.Config.{ai_provider_config, has_secret_key}
use opord_ai_demo.Providers.Adapter.{Service, Provider, Wiring}
use opord_ai_demo.Providers.{AiProviderInput, delete_ai_provider}
use opord_ai_demo.Providers.Clean.{AllClean}
use opord_ai_demo.Providers.Secrets.{ProviderOp, create, delete, run_all, run_all-AllClean}
use opord_ai_demo.Providers.Deletion.{delete_ai_provider-holds_access}
use opord_ai_demo.Api.Redact.{
  is_sensitive_ai_provider_config_key, hidden, shown_config, shown_config-entry,
}
use opord_ai_demo.Examples.{env, db, mock}

abbrev pub notes : Service
notes = record {
  name = "Notes";
  slug = "notes";
  category = "";
  description = "";
  request_schema = none;
  default_expiration_days = pos 30;
  requires_approval = true;
}

-- An adapter that advertises one service, and mints a key for an access.
abbrev pub mock_ai : Provider
mock_ai = record {
  validate_credentials = λ cs cfg. true;
  list_available_services = λ cs cfg. some (notes ∷ []);
  provision_access = λ r. some record {
    provider_access_id = "acc-1";
    observed = field "virtual_key" (text "sk-0123456789") end;
  };
  get_usage = λ r. some [];
  list_models = none;
}

abbrev pub wiring : Wiring
wiring = record {
  registry = some (("mock_ai", mock_ai) ∷ ("mock", mock_ai) ∷ []);
  read_secret = λ ref. some (("api_key", "sk-1") ∷ []);
  write_secret = some (λ path entries. some (λ asked. some entries));
}

abbrev with_key : AiProviderInput
with_key = record {
  name = "second";
  type = "mock_ai";
  config = some (field "API_key" (text "sk-1") end);
  secret_ref = "";
  scopes = none;
}

abbrev without_key : AiProviderInput
without_key = record with_key { config = some (field "region" (text "eu") end) }

db-AllClean : AllClean db
unfolding AllClean ai_provider_config has_secret_key
db-AllClean = (refl, tt)

abbrev provider_ops : List (Env × Wiring × ProviderOp)
provider_ops =
    (env, wiring, create with_key)
    ∷ (env, wiring, create without_key)
    ∷ (env, wiring, delete "mock")
    ∷ []

run_all-AllClean_example : AllClean (run_all provider_ops db)
run_all-AllClean_example = run_all-AllClean provider_ops db db-AllClean

abbrev pub eves_access : AiServiceInstance
eves_access = record {
  id = 80;
  service_id = 20;
  request_id = none;
  provider_access_id = "acc-0";
  owner = "eve";
  tenant_id = some 1;
  workspace = "";
  status = "active";
  spec = none;
  observed = some (obj end);
  expires_at = none;
  revoked_at = none;
  created_at = 0;
}

abbrev pub db_with_access : Db
db_with_access = record db { instances = eves_access ∷ [] }

eves_access_is_active : holds_access eves_access ≡ true
unfolding holds_access
eves_access_is_active = refl

delete_ai_provider-holds_access_example :
    In eves_access (delete_ai_provider env "mock" db_with_access).1.instances
delete_ai_provider-holds_access_example =
    delete_ai_provider-holds_access env "mock" eves_access db_with_access (inl refl)
      eves_access_is_active

-- A configuration that was written before the check on keys.
abbrev old_config : AiProvider
old_config = record mock { config = some (obj (field "Token" (text "t-1") end)) }

shown_config-entry_example : entry "Token" (shown_config old_config) ≡ (
    if is_sensitive_ai_provider_config_key "Token"
    then hidden (entry "Token" (ai_provider_config old_config))
    else entry "Token" (ai_provider_config old_config))
shown_config-entry_example = shown_config-entry old_config "Token"
