-- ===== src/Imports/Spend.antt =====
-- ImportLiteLLMSpend of internal/orchestrator/ai_governance.go: one usage row for each key, that is
-- written over with the key's spend so far.
use opord_ai_demo.Base.{
  ℕ, suc, String, Bool, Option, none, some, List, [], ◌∷◌, Result, ok, err, Exec, pure, guard,
  perform, reading, ◌>>=◌, ◌>>◌, if◌then◌else◌, ◌==◌, ◌=?◌, ◌&&◌, find, false,
}
use opord_ai_demo.Base.Int.{ℤ, pos, ◌+ℤ◌}
use opord_ai_demo.Json.{obj, field, end, text}
use opord_ai_demo.Db.{Env, Db, DbError}
use opord_ai_demo.Db.Rows.{AiProvider, AiService, AiServiceInstance, AiUsageRecord}
use opord_ai_demo.Db.Governance.{all_instances}
use opord_ai_demo.Db.Providers.{provider_by_name}
use opord_ai_demo.Db.Access.{key_spend_of, update_usage_cost_row, create_usage_row}
use opord_ai_demo.Tenant.{emit_audit}
use opord_ai_demo.Providers.Config.{ai_provider_config}
use opord_ai_demo.Providers.Adapter.{Credentials, Provider, UsageRecord, Wiring, ai_provider}
use opord_ai_demo.Providers.{ai_credentials}
use opord_ai_demo.Provision.Minted.{minted_key_path, read_minted_key}
use opord_ai_demo.Imports.Rows.{ImportError, not_found, wrong_type, no_adapter, list_failed}

pub record SpendImportResult : Type 0 where
  pub keys : ℕ
  pub total_usd : ℤ

-- The provider's name in the joined row of an instance, `none` for one that the join drops.
unfoldable pub provider_name_of : Db → AiServiceInstance → Option String
provider_name_of db i = elim (find (λ (s : AiService). s.id =? i.service_id) db.services) [
  | none ↦ none
  | some s ↦ elim (find (λ (p : AiProvider). p.id =? s.provider_id) db.providers) [
    | none ↦ none
    | some p ↦ some p.name
  ]
]

abbrev is_name : Option String → String → Bool
is_name none s = false
is_name (some t) s = t == s

-- The credentials of the provider, and the key that was minted for the instance.
unfoldable pub key_credentials : Wiring → Credentials → AiServiceInstance → Credentials
key_credentials w base i =
    let k = read_minted_key w (minted_key_path i.observed) in
    if k == "" then base else ("minted_key", k) ∷ base

unfoldable pub spend_record : Env → AiProvider → AiServiceInstance → ℤ → AiUsageRecord
spend_record e p i spend = record {
  id = 0;
  instance_id = some i.id;
  provider_id = p.id;
  period_start = e.now;
  period_end = e.now;
  metric = "cost_usd";
  quantity = spend;
  unit = "usd";
  cost_usd = spend;
  raw = some (
      obj (
        field "source" (text "litellm_spend") (field "key_alias" (text i.provider_access_id) end)));
}

-- Any error of the look-up, and not only a missing row, leads to an insert; errors of the writes
-- are ignored.
abbrev pub upsert_spend :
    Env → AiProvider → AiServiceInstance → ℤ → Result DbError AiUsageRecord → Db → Db
upsert_spend e p i spend (ok old) db = (update_usage_cost_row e old.id spend db).1
upsert_spend e p i spend (err x) db = (create_usage_row e (spend_record e p i spend) db).1

unfoldable pub store_spend : Env → AiProvider → AiServiceInstance → ℤ → Db → Db
store_spend e p i spend db = upsert_spend e p i spend (key_spend_of e i.id db) db

-- The first record that the adapter gives, `none` where it fails or gives none.
abbrev pub spend_of : Option (List UsageRecord) → Option ℤ
spend_of none = none
spend_of (some []) = none
spend_of (some (r ∷ rs)) = some r.cost_usd

unfoldable pub key_spend :
    Wiring → AiProvider → Provider → Credentials → AiServiceInstance → Option ℤ
unfolding key_credentials
key_spend w p prov base i = spend_of (
    prov.get_usage record {
      provider_access_id = i.provider_access_id;
      period_start = none;
      period_end = none;
      credentials = key_credentials w base i;
      config = ai_provider_config p;
    })

unfoldable pub import_spends :
    Env
    → Wiring
    → AiProvider
    → Provider
    → Credentials
    → List AiServiceInstance
    → SpendImportResult
    → Db
    → SpendImportResult × Db
unfolding ◌+ℤ◌
import_spends e w p prov base [] r db = (r, db)
import_spends e w p prov base (i ∷ is) r db =
    let go = λ (s : SpendImportResult) (d : Db). import_spends e w p prov base is s d in
    if is_name (provider_name_of db i) p.name && i.status == "active"
    then elim (key_spend w p prov base i) [
      | none ↦ go r db
      | some spend ↦
          go (record r { keys = suc r.keys; total_usd = r.total_usd +ℤ spend })
            (store_spend e p i spend db)
    ]
    else go r db

abbrev adapter_of : Option Provider → Exec Db ImportError Provider
adapter_of none db = (err no_adapter, db)
adapter_of (some prov) db = (ok prov, db)

-- The instances of every tenant.
unfoldable pub import_litellm_spend : Env → Wiring → String → Exec Db ImportError SpendImportResult
import_litellm_spend e w name = do
  p ← reading (provider_by_name e name) not_found
  guard (p.type == "litellm") (wrong_type p.type)
  prov ← adapter_of (ai_provider w p.type)
  instances ← reading (all_instances e) list_failed
  r ← λ db.
      let (s, db') =
        import_spends e w p prov (ai_credentials e w p db) instances
          (record { keys = 0; total_usd = pos 0 }) db in
      (ok s, db')
  perform (emit_audit e "ai_provider" p.id "spend_imported" "")
  pure r
