-- ===== src/Providers.antt =====
-- AI providers, in internal/orchestrator/ai.go: create, update, delete, list, check, and the import
-- of the catalog services that a provider advertises. The event bus is left out.
pub mod Config
pub mod Adapter
pub mod Clean
pub mod Secrets
pub mod Deletion
pub mod Imports
pub mod Catalog
use opord_ai_demo.Base.{
  ℕ, String, Bool, true, false, Option, none, some, List, [], ◌∷◌, Result, ok, err, Exec, pure,
  fail, guard, perform, reading, writing, ◌>>=◌, ◌>>◌, if◌then◌else◌, ◌==◌, ◌=?◌, ◌||◌, not,
  non_empty, or_else, select, trim,
}
use opord_ai_demo.Base.Int.{to_int32}
use opord_ai_demo.Json.{Json, Fields, Raw, obj, end}
use opord_ai_demo.Db.{Env, Db, DbError, no_rows, violation, failed}
use opord_ai_demo.Db.Rows.{AiProvider, AiProviderCredential, AiService}
use opord_ai_demo.Db.Providers.{
  provider_by_name, all_providers, create_provider_row, update_provider_row,
  count_active_by_provider, delete_instances_by_provider, delete_provider_row,
  create_credential_row, credential_of, create_service_row, all_services,
}
use opord_ai_demo.Tenant.{tenant_for_create, scope_tenant, may_see, emit_audit}
use Config.{has_secret_key, ai_provider_config, merge_config}
use Adapter.{Credentials, Service, Provider, Wiring, ai_provider}

pub record AiProviderInput : Type 0 where
  pub name : String
  pub type : String
  pub config : Option Fields
  pub secret_ref : String
  pub scopes : Option (List String)

pub record UpdateAiProviderInput : Type 0 where
  pub config : Option Fields
  pub secret_ref : Option String
  pub status : String

pub data ProviderError : Type 0 where
  name_required unsupported_type secret_in_config hidden invalid_status : ProviderError
  no_adapter services_failed check_failed no_catalog models_failed : ProviderError
  has_active_instances : ℕ → ProviderError
  not_found create_failed update_failed delete_failed list_failed : DbError → ProviderError
  credential_failed service_failed model_failed count_failed : DbError → ProviderError

unfoldable pub valid_ai_provider_type : String → Bool
valid_ai_provider_type t =
    t == "mock_ai"
    || t == "openai"
    || t == "anthropic"
    || t == "gemini"
    || t == "github_copilot"
    || t == "cursor"
    || t == "litellm"

-- A provider of no tenant is everybody's.
unfoldable pub may_use : Option ℕ → AiProvider → Bool
may_use scope p = elim p.tenant_id [ none ↦ true | some t ↦ may_see scope p.tenant_id ]

abbrev pub or_no_fields : Option Fields → Fields
or_no_fields none = end
or_no_fields (some fs) = fs

abbrev pub or_no_scopes : Option (List String) → List String
or_no_scopes none = []
or_no_scopes (some ss) = ss

-- The secrets at the latest reference of the provider; none where anything on the way fails.
unfoldable pub ai_credentials : Env → Wiring → AiProvider → Db → Credentials
ai_credentials e w p db = elim (credential_of e p.id db) [
  | err x ↦ []
  | ok c ↦
      if non_empty (trim c.secret_ref)
      then elim (w.read_secret c.secret_ref) [ none ↦ [] | some cs ↦ cs ]
      else []
]

-- `{}` for a schema that is nil.
unfoldable pub service_row : ℕ → Service → AiService
service_row provider_id s = record {
  id = 0;
  provider_id = provider_id;
  name = s.name;
  slug = s.slug;
  category = or_else s.category "access";
  description = s.description;
  request_schema = some (obj (or_no_fields s.request_schema));
  default_expiration_days = to_int32 s.default_expiration_days;
  requires_approval = s.requires_approval;
}

-- `if isUniqueViolation(err) { continue }`
abbrev pub skip_duplicate :
    Exec Db ProviderError (Unit {0})
    → Result DbError AiService × Db
    → Result ProviderError (Unit {0}) × Db
skip_duplicate next (ok s, db) = next db
skip_duplicate next (err violation, db) = next db
skip_duplicate next (err no_rows, db) = (err (service_failed no_rows), db)
skip_duplicate next (err failed, db) = (err (service_failed failed), db)

unfoldable pub import_services : Env → ℕ → List Service → Exec Db ProviderError (Unit {0})
unfolding service_row
import_services e provider_id [] db = (ok tt, db)
import_services e provider_id (s ∷ ss) db =
    skip_duplicate (import_services e provider_id ss)
      (create_service_row e (service_row provider_id s) db)

unfoldable pub sync_services_of :
    Env → Wiring → AiProvider → Option Provider → Exec Db ProviderError (Unit {0})
sync_services_of e w p none db = (err no_adapter, db)
sync_services_of e w p (some prov) db =
    elim (prov.list_available_services (ai_credentials e w p db) (ai_provider_config p)) [
      | none ↦ (err services_failed, db)
      | some services ↦ import_services e p.id services db
    ]

unfoldable pub sync_ai_provider_services :
    Env → Wiring → AiProvider → Exec Db ProviderError (Unit {0})
unfolding sync_services_of
sync_ai_provider_services e w p = sync_services_of e w p (ai_provider w p.type)

-- The credential of a new provider, where there is a reference to one.
unfoldable pub first_credential :
    Env → AiProvider → AiProviderInput → Exec Db ProviderError (Unit {0})
first_credential e p input =
    if non_empty (trim input.secret_ref)
    then writing (create_credential_row e p.id (trim input.secret_ref) (or_no_scopes input.scopes))
        credential_failed
      >> pure tt
    else pure tt

unfoldable pub create_ai_provider :
    Env → Wiring → AiProviderInput → Exec Db ProviderError AiProvider
create_ai_provider e w input = do
  guard (non_empty (trim input.name)) name_required
  guard (valid_ai_provider_type input.type) unsupported_type
  guard (not (has_secret_key (or_no_fields input.config))) secret_in_config
  p ←
      writing
        (create_provider_row e input.name input.type (some (obj (or_no_fields input.config)))
          (tenant_for_create e))
        create_failed
  first_credential e p input
  sync_ai_provider_services e w p
  perform (emit_audit e "ai_provider" p.id "registered" "")
  pure p

-- The status that an update asks for, the old one where it asks for none.
unfoldable pub new_status : String → String → String
new_status old input = or_else (trim input) old

unfoldable pub valid_update_status : String → Bool
valid_update_status input = let st = trim input in st == "" || st == "active" || st == "disabled"

-- A new credential row for a reference that is given, an empty one included.
unfoldable pub rotate_credential : Env → ℕ → Option String → Exec Db ProviderError (Unit {0})
rotate_credential e provider_id none = pure tt
rotate_credential e provider_id (some ref) =
    writing (create_credential_row e provider_id (trim ref) []) credential_failed >> pure tt

unfoldable pub update_ai_provider :
    Env → String → UpdateAiProviderInput → Exec Db ProviderError AiProvider
update_ai_provider e name input = do
  p ← reading (provider_by_name e name) not_found
  guard (may_use (scope_tenant e) p) hidden
  guard (not (has_secret_key (or_no_fields input.config))) secret_in_config
  guard (valid_update_status input.status) invalid_status
  updated ←
      writing
        (update_provider_row e p.id
          (some (obj (merge_config (ai_provider_config p) (or_no_fields input.config))))
          (new_status p.status input.status))
        update_failed
  rotate_credential e p.id input.secret_ref
  perform (emit_audit e "ai_provider" p.id "updated" "")
  pure updated

unfoldable pub delete_ai_provider : Env → String → Exec Db ProviderError (Unit {0})
delete_ai_provider e name = do
  p ← reading (provider_by_name e name) not_found
  guard (may_use (scope_tenant e) p) hidden
  active ← reading (count_active_by_provider e p.id) count_failed
  guard (active =? 0) (has_active_instances active)
  writing (delete_instances_by_provider e p.id) delete_failed
  writing (delete_provider_row e p.id) delete_failed
  perform (emit_audit e "ai_provider" p.id "deleted" "")

unfoldable pub sync_ai_provider_services_by_name :
    Env → Wiring → String → Exec Db ProviderError (Unit {0})
sync_ai_provider_services_by_name e w name = do
  p ← reading (provider_by_name e name) not_found
  sync_ai_provider_services e w p
  perform (emit_audit e "ai_provider" p.id "synced" "")

unfoldable pub list_ai_providers : Env → Exec Db ProviderError (List AiProvider)
list_ai_providers e = do
  ps ← reading (all_providers e) list_failed
  pure (select (may_use (scope_tenant e)) ps)

-- The adapter's answer, which is audited either way.
unfoldable pub check_with : Env → AiProvider → Bool → Exec Db ProviderError (Unit {0})
check_with e p true = perform (emit_audit e "ai_provider" p.id "checked" "")
check_with e p false =
    perform (emit_audit e "ai_provider" p.id "check_failed" "") >> fail check_failed

abbrev pub adapter_or_fail : Option Provider → Exec Db ProviderError Provider
adapter_or_fail none = fail no_adapter
adapter_or_fail (some prov) = pure prov

unfoldable pub check_ai_provider : Env → Wiring → String → Exec Db ProviderError (Unit {0})
check_ai_provider e w name = do
  p ← reading (provider_by_name e name) not_found
  prov ← adapter_or_fail (ai_provider w p.type)
  λ db.
      check_with e p (prov.validate_credentials (ai_credentials e w p db) (ai_provider_config p)) db

unfoldable pub list_ai_services : Env → Exec Db ProviderError (List AiService)
list_ai_services e = reading (all_services e) list_failed
