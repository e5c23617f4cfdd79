-- ===== src/Db/Providers.antt =====
-- internal/db/ai.sql.go: the queries on providers, their credentials, catalog services and models,
-- with the constraints of migrations/00021_ai_governance_domain.sql and 00023_litellm_provider.sql.
-- A service slug that a provider already has is a unique violation. A new row's provider is one that
-- the caller has just read or written, so its foreign key holds.
use opord_ai_demo.Base.{
  ℕ, suc, String, Bool, false, Option, none, some, List, [], ◌∷◌, Result, ok, err, if◌then◌else◌,
  find, any, select, update_where, ◌==◌, ◌=?◌, ◌&&◌, ◌||◌, not,
}
use opord_ai_demo.Json.{Raw}
use opord_ai_demo.Db.{
  Env, Db, DbError, violation, query, first_row, write, fresh, create_provider,
  get_provider_by_name, update_provider, delete_provider, list_providers, count_active_instances,
  delete_provider_instances, create_credential, get_credential, create_service, list_services,
  upsert_model, list_models,
}
use opord_ai_demo.Db.Rows.{
  AiProvider, AiProviderCredential, AiService, AiServiceInstance, AiUsageRecord, AiQuota,
  AiModelCatalog,
}

abbrev pub is_named : String → AiProvider → Bool
is_named name p = p.name == name

abbrev pub has_id : ℕ → AiProvider → Bool
has_id id p = p.id =? id

unfoldable pub provider_by_name : Env → String → Db → Result DbError AiProvider
provider_by_name e name db =
    query e get_provider_by_name (first_row (find (is_named name) db.providers))

unfoldable pub all_providers : Env → Db → Result DbError (List AiProvider)
all_providers e db = query e list_providers (ok db.providers)

-- ai_providers_type_check
unfoldable pub stored_type : String → Bool
stored_type t =
    t == "mock_ai"
    || t == "openai"
    || t == "anthropic"
    || t == "gemini"
    || t == "github_copilot"
    || t == "cursor"
    || t == "litellm"

unfoldable pub create_provider_row :
    Env → String → String → Raw → Option ℕ → Db → Result DbError AiProvider × Db
create_provider_row e name type config tenant_id db =
    let p : AiProvider = record {
      id = fresh db;
      name = name;
      type = type;
      config = config;
      status = "active";
      tenant_id = tenant_id;
    } in
    write e create_provider db (
      if any (is_named name) db.providers || not (stored_type type)
      then (err violation, db)
      else (ok p, record db { next_id = fresh db; providers = p ∷ db.providers }))

abbrev pub with_config : Raw → String → AiProvider → AiProvider
with_config config status p = record p { config = config; status = status }

-- The name and the type are written back as they were read.
unfoldable pub update_provider_row : Env → ℕ → Raw → String → Db → Result DbError AiProvider × Db
update_provider_row e id config status db =
    write e update_provider db (elim (find (has_id id) db.providers) [
      | none ↦ (first_row none, db)
      | some p ↦
          if status == "active" || status == "disabled"
          then (
            ok (with_config config status p),
            record db {
              providers = update_where (has_id id) (with_config config status) db.providers;
            },
          )
          else (err violation, db)
    ])

-- The service of an instance belongs to the provider.
unfoldable pub is_served_by : List AiService → ℕ → AiServiceInstance → Bool
is_served_by services provider_id i =
    any (λ (s : AiService). s.id =? i.service_id && s.provider_id =? provider_id) services

unfoldable pub holds_access : AiServiceInstance → Bool
holds_access i = i.status == "active" || i.status == "suspended"

unfoldable pub count : (AiServiceInstance → Bool) → List AiServiceInstance → ℕ
count p [] = 0
count p (i ∷ is) = let rest = count p is in if p i then suc rest else rest

unfoldable pub count_active_by_provider : Env → ℕ → Db → Result DbError ℕ
count_active_by_provider e id db =
    query e count_active_instances
      (ok (count (λ i. is_served_by db.services id i && holds_access i) db.instances))

unfoldable pub names_instance : List AiServiceInstance → Option ℕ → Bool
names_instance is none = false
names_instance is (some id) = any (λ (i : AiServiceInstance). i.id =? id) is

-- The usage records of a removed instance go with it.
unfoldable pub delete_instances_by_provider : Env → ℕ → Db → Result DbError (Unit {0}) × Db
unfolding names_instance
delete_instances_by_provider e id db =
    let gone = select (is_served_by db.services id) db.instances in
    write e delete_provider_instances db (
      ok tt,
      record db {
        instances = select (λ i. not (is_served_by db.services id i)) db.instances;
        usage = select (λ (u : AiUsageRecord). not (names_instance gone u.instance_id)) db.usage;
      },
    )

unfoldable pub names_service : List AiService → Option ℕ → Bool
names_service ss none = false
names_service ss (some id) = any (λ (s : AiService). s.id =? id) ss

-- What the foreign keys on a provider remove with it: its credentials, usage records, models and
-- services, and the quotas on these services.
abbrev pub without_provider : ℕ → Db → Db
without_provider id db = record db {
  providers = select (λ p. not (has_id id p)) db.providers;
  credentials = select (λ (c : AiProviderCredential). not (c.provider_id =? id)) db.credentials;
  models = select (λ (m : AiModelCatalog). not (m.provider_id =? id)) db.models;
  usage = select (λ (u : AiUsageRecord). not (u.provider_id =? id)) db.usage;
  services = select (λ (s : AiService). not (s.provider_id =? id)) db.services;
  quotas =
      select
        (λ (q : AiQuota). not (
          names_service (select (λ (s : AiService). s.provider_id =? id) db.services) q.service_id))
        db.quotas;
}

-- `on delete restrict`: an instance holds its service.
unfoldable pub delete_provider_row : Env → ℕ → Db → Result DbError (Unit {0}) × Db
delete_provider_row e id db = write e delete_provider db (
    if any (is_served_by db.services id) db.instances
    then (err violation, db)
    else (ok tt, without_provider id db))

unfoldable pub create_credential_row :
    Env → ℕ → String → List String → Db → Result DbError AiProviderCredential × Db
create_credential_row e provider_id secret_ref scopes db =
    let c : AiProviderCredential = record {
      id = fresh db;
      provider_id = provider_id;
      secret_ref = secret_ref;
      scopes = scopes;
    } in
    write e create_credential db
      (ok c, record db { next_id = fresh db; credentials = c ∷ db.credentials })

-- The latest one.
unfoldable pub credential_of : Env → ℕ → Db → Result DbError AiProviderCredential
credential_of e provider_id db =
    query e get_credential
      (first_row (find (λ (c : AiProviderCredential). c.provider_id =? provider_id) db.credentials))

unfoldable pub is_slug_of : ℕ → String → AiService → Bool
is_slug_of provider_id slug s = s.provider_id =? provider_id && s.slug == slug

-- The row is given with any id, which the insert replaces.
unfoldable pub create_service_row : Env → AiService → Db → Result DbError AiService × Db
create_service_row e row db =
    let s = record row { id = fresh db } in
    write e create_service db (
      if any (is_slug_of row.provider_id row.slug) db.services
      then (err violation, db)
      else (ok s, record db { next_id = fresh db; services = s ∷ db.services }))

-- The join with the providers drops no row: provider_id is a foreign key.
unfoldable pub all_services : Env → Db → Result DbError (List AiService)
all_services e db = query e list_services (ok db.services)

unfoldable pub is_model_of : ℕ → String → AiModelCatalog → Bool
is_model_of provider_id model m = m.provider_id =? provider_id && m.model == model

abbrev refreshed : AiModelCatalog → AiModelCatalog → AiModelCatalog
refreshed row m = record m {
  display_name = row.display_name;
  modality = row.modality;
  status = row.status;
  metadata = row.metadata;
}

-- Inserted, or written over the row of that provider and model.
unfoldable pub upsert_model_row : Env → AiModelCatalog → Db → Result DbError AiModelCatalog × Db
upsert_model_row e row db =
    let m = record row { id = fresh db } in
    write e upsert_model db (
      if not (row.status == "active" || row.status == "disabled")
      then (err violation, db)
      else elim (find (is_model_of row.provider_id row.model) db.models) [
        | none ↦ (ok m, record db { next_id = fresh db; models = m ∷ db.models })
        | some old ↦ (
          ok (refreshed row old),
          record db {
            models = update_where (is_model_of row.provider_id row.model) (refreshed row) db.models;
          },
        )
      ])

-- The rows come in another order.
unfoldable pub all_models : Env → Db → Result DbError (List AiModelCatalog)
all_models e db = query e list_models (ok db.models)
