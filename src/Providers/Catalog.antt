-- ===== src/Providers/Catalog.antt =====
-- The model catalog of a provider: SyncAIProviderModelsByName and ListAIModelCatalog of
-- internal/orchestrator/ai_governance.go.
use opord_ai_demo.Base.{
  ℕ, String, Option, none, some, List, [], ◌∷◌, Result, ok, err, Exec, fail, pure, perform, reading,
  ◌>>=◌, ◌>>◌, if◌then◌else◌, non_empty, or_else, trim,
}
use opord_ai_demo.Json.{Fields, obj}
use opord_ai_demo.Db.{Env, Db, DbError}
use opord_ai_demo.Db.Rows.{AiProvider, AiModelCatalog}
use opord_ai_demo.Db.Providers.{provider_by_name, upsert_model_row, all_models}
use opord_ai_demo.Tenant.{emit_audit}
use opord_ai_demo.Providers.Config.{ai_provider_config}
use opord_ai_demo.Providers.Adapter.{Credentials, Model, Wiring, ai_provider}
use opord_ai_demo.Providers.{
  ProviderError, not_found, no_catalog, models_failed, model_failed, list_failed, or_no_fields,
  ai_credentials, adapter_or_fail,
}

unfoldable pub model_row : ℕ → Model → AiModelCatalog
model_row provider_id m = record {
  id = 0;
  provider_id = provider_id;
  model = m.model;
  display_name = or_else m.display_name m.model;
  modality = or_else m.modality "text";
  status = or_else m.status "active";
  metadata = some (obj (or_no_fields m.metadata));
}

-- After one upsert: the rest, or its error.
abbrev pub go_on :
    Exec Db ProviderError (Unit {0})
    → Result DbError AiModelCatalog × Db
    → Result ProviderError (Unit {0}) × Db
go_on next (ok m, db) = next db
go_on next (err x, db) = (err (model_failed x), db)

-- A model without a name is skipped.
unfoldable pub upsert_models : Env → ℕ → List Model → Exec Db ProviderError (Unit {0})
unfolding model_row
upsert_models e provider_id [] db = (ok tt, db)
upsert_models e provider_id (m ∷ ms) db =
    if non_empty (trim m.model)
    then go_on (upsert_models e provider_id ms) (upsert_model_row e (model_row provider_id m) db)
    else upsert_models e provider_id ms db

abbrev pub catalog_or_fail :
    Option (Credentials → Fields → Option (List Model))
    → Exec Db ProviderError (Credentials → Fields → Option (List Model))
catalog_or_fail none = fail no_catalog
catalog_or_fail (some f) = pure f

-- The models that the provider lists; a failure is audited.
unfoldable pub listed_models :
    Env → AiProvider → Option (List Model) → Exec Db ProviderError (List Model)
listed_models e p none =
    perform (emit_audit e "ai_provider" p.id "model_sync_failed" "") >> fail models_failed
listed_models e p (some ms) = pure ms

unfoldable pub sync_ai_provider_models_by_name :
    Env → Wiring → String → Exec Db ProviderError (Unit {0})
sync_ai_provider_models_by_name e w name = do
  p ← reading (provider_by_name e name) not_found
  prov ← adapter_or_fail (ai_provider w p.type)
  list ← catalog_or_fail prov.list_models
  models ← λ db. listed_models e p (list (ai_credentials e w p db) (ai_provider_config p)) db
  upsert_models e p.id models
  perform (emit_audit e "ai_provider" p.id "models_synced" "")

unfoldable pub list_ai_model_catalog : Env → Exec Db ProviderError (List AiModelCatalog)
list_ai_model_catalog e = reading (all_models e) list_failed
