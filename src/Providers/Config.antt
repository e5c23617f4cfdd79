-- ===== src/Providers/Config.antt =====
-- The configuration map of a provider, in internal/orchestrator/ai.go: isSensitiveAIConfigKey,
-- rejectAIProviderSecretConfig, aiProviderConfig and the merge of UpdateAIProvider. A Go map is the
-- list of its entries; the loops over it do not depend on their order.
use opord_ai_demo.Base.{
  String, Bool, true, false, none, some, if◌then◌else◌, ◌==◌, ◌||◌, trim, lower,
}
use opord_ai_demo.Json.{Json, Fields, Raw, null, obj, end, field}
use opord_ai_demo.Db.Rows.{AiProvider}

unfoldable pub is_sensitive_ai_config_key : String → Bool
is_sensitive_ai_config_key key =
    let k = lower (trim key) in
    k == "api_key"
    || k == "openai_api_key"
    || k == "anthropic_api_key"
    || k == "admin_api_key"
    || k == "token"
    || k == "access_token"
    || k == "bearer_token"
    || k == "secret"
    || k == "client_secret"
    || k == "password"
    || k == "master_key"
    || k == "litellm_master_key"

-- rejectAIProviderSecretConfig returns an error.
unfoldable pub has_secret_key : Fields → Bool
has_secret_key end = false
has_secret_key (field k v fs) = is_sensitive_ai_config_key k || has_secret_key fs

-- `map[string]any{}` where the column is not an object.
unfoldable pub fields_of : Raw → Fields
fields_of none = end
fields_of (some j) = elim j [ obj fs ↦ fs | _ ↦ end ]

unfoldable pub ai_provider_config : AiProvider → Fields
unfolding fields_of
ai_provider_config p = fields_of p.config

-- `delete(cfg, k)`
unfoldable pub remove_entry : String → Fields → Fields
remove_entry k end = end
remove_entry k (field j v fs) =
    let rest = remove_entry k fs in if j == k then rest else field j v rest

-- `cfg[k] = v`
unfoldable pub set_entry : String → Json → Fields → Fields
unfolding remove_entry
set_entry k v fs = field k v (remove_entry k fs)

abbrev pub is_null : Json → Bool
is_null null = true
is_null (Json.bool b) = false
is_null (Json.num n) = false
is_null (Json.text s) = false
is_null (Json.arr xs) = false
is_null (obj fs) = false

-- One entry of the update: a null deletes the key.
unfoldable pub merge_entry : String → Json → Fields → Fields
unfolding set_entry
merge_entry k v fs = if is_null v then remove_entry k fs else set_entry k v fs

unfoldable pub merge_config : Fields → Fields → Fields
merge_config cfg end = cfg
merge_config cfg (field k v fs) = merge_config (merge_entry k v cfg) fs
