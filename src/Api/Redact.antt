-- ===== src/Api/Redact.antt =====
-- redactAIProviderConfig of internal/api/ai.go.
use opord_ai_demo.Base.{
  String, Bool, Option, none, some, ◌≡◌, if◌then◌else◌, ◌==◌, ◌||◌, trim, lower, eq_iff, arith,
}
use opord_ai_demo.Json.{Json, Fields, text, end, field, entry}
use opord_ai_demo.Db.Rows.{AiProvider}
use opord_ai_demo.Providers.Config.{fields_of, ai_provider_config}

unfoldable pub is_sensitive_ai_provider_config_key : String → Bool
is_sensitive_ai_provider_config_key key =
    let k = lower (trim key) in
    k == "api_key"
    || k == "openai_api_key"
    || k == "anthropic_api_key"
    || k == "admin_api_key"
    || k == "token"
    || k == "access_token"
    || k == "bearer_token"
    || k == "secret"
    || k == "client_secret"
    || k == "password"
    || k == "master_key"
    || k == "litellm_master_key"

-- A nil map and an empty one are both without entries.
unfoldable pub redact_ai_provider_config : Fields → Fields
redact_ai_provider_config end = end
redact_ai_provider_config (field k v fs) =
    let rest = redact_ai_provider_config fs in
    if is_sensitive_ai_provider_config_key k
    then field k (text "[redacted]") rest
    else field k v rest

-- The configuration that aiProviderToDTO shows.
unfoldable pub shown_config : AiProvider → Fields
unfolding fields_of
shown_config p = redact_ai_provider_config (fields_of p.config)

abbrev pub hidden : Option Json → Option Json
hidden none = none
hidden (some j) = some (text "[redacted]")

redacted_entry :
    (k : String) (fs : Fields)
    → entry k (redact_ai_provider_config fs)
      ≡ (if is_sensitive_ai_provider_config_key k then hidden (entry k fs) else entry k fs)
unfolding entry redact_ai_provider_config
redacted_entry k end = ground arith
redacted_entry k (field j v fs) = ground (arith, eq_iff j k, redacted_entry k fs)

-- The configuration that the API shows has "[redacted]" under every key that names a secret and
-- that the provider has, and the provider's values, or none, under every other key.
pub shown_config-entry :
    (p : AiProvider) (k : String)
    → entry k (shown_config p) ≡ (
        if is_sensitive_ai_provider_config_key k
        then hidden (entry k (ai_provider_config p))
        else entry k (ai_provider_config p))
unfolding shown_config ai_provider_config
shown_config-entry p k = redacted_entry k (fields_of p.config)
