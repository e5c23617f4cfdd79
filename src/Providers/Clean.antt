-- ===== src/Providers/Clean.antt =====
-- A configuration with no key that names a secret: merging and the queries keep it so.
use opord_ai_demo.Base.{
  ℕ, String, false, Option, some, List, ◌≡◌, ok, find-In, All, All-In, All-select, All-update_where,
  not, arith,
}
use opord_ai_demo.Json.{Json, Fields, obj, end, field}
use opord_ai_demo.Db.{Env, Db}
use opord_ai_demo.Db.Rows.{AiProvider, AiService}
use opord_ai_demo.Db.Providers.{
  provider_by_name, create_provider_row, update_provider_row, delete_provider_row,
  delete_instances_by_provider, create_credential_row, create_service_row, is_named, has_id,
  with_config,
}
use opord_ai_demo.Tenant.{emit_audit}
use opord_ai_demo.Providers.Config.{
  is_sensitive_ai_config_key, has_secret_key, fields_of, ai_provider_config, remove_entry,
  set_entry, merge_entry, merge_config,
}

pub remove_entry-clean :
    (k : String) (fs : Fields)
    → has_secret_key fs ≡ false
    → has_secret_key (remove_entry k fs) ≡ false
unfolding has_secret_key remove_entry
remove_entry-clean k end h = h
remove_entry-clean k (field j v fs) h = ground (arith, remove_entry-clean k fs)

pub merge_entry-clean :
    (k : String) (v : Json) (fs : Fields)
    → is_sensitive_ai_config_key k ≡ false
    → has_secret_key fs ≡ false
    → has_secret_key (merge_entry k v fs) ≡ false
unfolding merge_entry set_entry has_secret_key
merge_entry-clean k v fs plain h = ground (arith, remove_entry-clean k fs h)

pub merge_config-clean :
    (cfg fs : Fields)
    → has_secret_key cfg ≡ false
    → has_secret_key fs ≡ false
    → has_secret_key (merge_config cfg fs) ≡ false
unfolding merge_config has_secret_key
merge_config-clean cfg end h g = h
merge_config-clean cfg (field k v fs) h g =
    merge_config-clean (merge_entry k v cfg) fs (merge_entry-clean k v cfg (ground arith) h)
      (ground arith)

-- The configuration that is stored has no key that names a secret.
abbrev pub Clean : AiProvider → Type 0
Clean p = has_secret_key (ai_provider_config p) ≡ false

unfoldable pub AllClean : Db → Type 0
AllClean db = All Clean db.providers

Clean-config :
    (fs : Fields) (status : String) (p : AiProvider)
    → has_secret_key fs ≡ false
    → Clean (with_config (some (obj fs)) status p)
unfolding ai_provider_config fields_of
Clean-config fs status p h = h

pub provider_by_name-Clean :
    (e : Env) (name : String) (db : Db)
    → AllClean db
    → (p : AiProvider) → provider_by_name e name db ≡ ok p
    → Clean p
unfolding provider_by_name AllClean
provider_by_name-Clean e name db all p found =
    All-In Clean p db.providers all (find-In (is_named name) p db.providers (ground arith)).0

pub create_provider_row-clean :
    (e : Env) (name type : String) (fs : Fields) (tenant_id : Option ℕ) (db : Db)
    → has_secret_key fs ≡ false
    → AllClean db
    → AllClean (create_provider_row e name type (some (obj fs)) tenant_id db).1
unfolding create_provider_row ai_provider_config fields_of AllClean
create_provider_row-clean e name type fs tenant_id db h all = ground arith

pub update_provider_row-clean :
    (e : Env) (id : ℕ) (fs : Fields) (status : String) (db : Db)
    → has_secret_key fs ≡ false
    → AllClean db
    → AllClean (update_provider_row e id (some (obj fs)) status db).1
unfolding update_provider_row AllClean
update_provider_row-clean e id fs status db h all =
    let changed =
      All-update_where Clean (has_id id) (with_config (some (obj fs)) status) db.providers
        (λ p c. Clean-config fs status p h) all in
    ground arith

pub create_credential_row-clean :
    (e : Env) (id : ℕ) (ref : String) (scopes : List String) (db : Db)
    → AllClean db
    → AllClean (create_credential_row e id ref scopes db).1
unfolding create_credential_row AllClean
create_credential_row-clean e id ref scopes db all = ground arith

pub create_service_row-clean :
    (e : Env) (row : AiService) (db : Db) → AllClean db → AllClean (create_service_row e row db).1
unfolding create_service_row AllClean
create_service_row-clean e row db all = ground arith

pub delete_instances_by_provider-clean :
    (e : Env) (id : ℕ) (db : Db) → AllClean db → AllClean (delete_instances_by_provider e id db).1
unfolding delete_instances_by_provider AllClean
delete_instances_by_provider-clean e id db all = ground arith

pub delete_provider_row-clean :
    (e : Env) (id : ℕ) (db : Db) → AllClean db → AllClean (delete_provider_row e id db).1
unfolding delete_provider_row AllClean
delete_provider_row-clean e id db all =
    let kept = All-select Clean (λ p. not (has_id id p)) db.providers all in ground arith

pub audited-clean :
    (e : Env) (t : String) (id : ℕ) (action by : String) (db : Db)
    → AllClean db
    → AllClean (emit_audit e t id action by db)
unfolding emit_audit AllClean
audited-clean e t id action by db all = ground arith
