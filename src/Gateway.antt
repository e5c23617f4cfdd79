-- ===== src/Gateway.antt =====
-- The model gateway of internal/orchestrator/ai_governance.go: GatewayOpenAIResponses,
-- GatewayAnthropicMessages, applyGatewayDLP and recordGatewayUsage.
pub mod Usage
pub mod Guarded
use opord_ai_demo.Base.{
  ℕ, String, Bool, Option, none, some, List, [], ◌∷◌, Result, ok, err, Exec, pure, fail, guard,
  perform, reading, writing, ◌>>=◌, ◌>>◌, if◌then◌else◌, ◌==◌, ◌&&◌, leb, ltb, non_empty, or_else,
  trim, glue, trim_right,
}
use opord_ai_demo.Json.{Json, Fields, Raw, entry, text_of}
use opord_ai_demo.Db.{Env, Db, DbError}
use opord_ai_demo.Db.Rows.{AiProvider}
use opord_ai_demo.Db.Providers.{provider_by_name}
use opord_ai_demo.Tenant.{emit_audit}
use opord_ai_demo.Enforce.Gateway.{GatewayBlock, evaluate_gateway_budget}
use opord_ai_demo.Providers.Config.{ai_provider_config}
use opord_ai_demo.Providers.Adapter.{Credentials, secret, Wiring}
use opord_ai_demo.Providers.{ai_credentials}
use opord_ai_demo.Dlp.Redact.{Engine, redact_dlp, dlp_enabled}
use Usage.{record_gateway_usage}

-- A response of the model's API; no body where reading it fails.
pub record Response : Type 0 where
  pub status_code : ℕ
  pub content_type : String
  pub body : Option Raw

-- The HTTP client (net/http): whether a request can be made for a URL, and the answer to a POST
-- of a payload with its headers.
pub record Http : Type 0 where
  pub can_request : String → Bool
  pub post : String → List (String × String) → Raw → Option Response

pub record AiGatewayResponse : Type 0 where
  pub status_code : ℕ
  pub content_type : String
  pub body : Raw

pub data GatewayError : Type 0 where
  not_found : DbError → GatewayError
  wrong_type : String → GatewayError
  key_missing bad_url request_failed body_unread dlp_failed : GatewayError
  blocked : GatewayBlock → GatewayError

-- The upstream API: the type of its providers, the secrets that are tried for its key, its URL and
-- path, and the headers that carry the key.
pub record Upstream : Type 0 where
  pub default_name : String
  pub type : String
  pub keys : List String
  pub base_url : String
  pub path : String
  pub headers : String → Fields → List (String × String)

-- firstNonEmpty over the secrets.
unfoldable pub first_secret : Credentials → List String → String
first_secret cs [] = ""
first_secret cs (k ∷ ks) = let rest = first_secret cs ks in or_else (secret k cs) rest

-- A text of the configuration where it is not blank.
unfoldable pub config_or : String → String → Fields → String
config_or key d cfg = or_else (trim (text_of (entry key cfg))) d

abbrev pub openai_headers : String → Fields → List (String × String)
openai_headers key cfg =
    ("Authorization", glue "Bearer " key) ∷ ("Content-Type", "application/json") ∷ []

abbrev pub openai : Upstream
openai = record {
  default_name = "openai-main";
  type = "openai";
  keys = "api_key" ∷ "openai_api_key" ∷ "token" ∷ [];
  base_url = "https://api.openai.com";
  path = "/v1/responses";
  headers = openai_headers;
}

unfoldable pub anthropic_headers : String → Fields → List (String × String)
unfolding config_or
anthropic_headers key cfg =
    ("x-api-key", key)
    ∷ ("anthropic-version", config_or "anthropic_version" "2023-06-01" cfg)
    ∷ ("Content-Type", "application/json")
    ∷ []

unfoldable pub anthropic : Upstream
unfolding anthropic_headers
anthropic = record {
  default_name = "anthropic-main";
  type = "anthropic";
  keys = "api_key" ∷ "anthropic_api_key" ∷ "token" ∷ [];
  base_url = "https://api.anthropic.com";
  path = "/v1/messages";
  headers = anthropic_headers;
}

abbrev pub dlp_answer : Env → Option (Raw × List String) → Exec Db GatewayError Raw
dlp_answer e none =
    perform (emit_audit e "ai_gateway" 0 "dlp_redaction_failed" "") >> fail dlp_failed
dlp_answer e (some (payload, [])) = pure payload
dlp_answer e (some (payload, h ∷ hits)) =
    perform (emit_audit e "ai_gateway" 0 "dlp_redacted" "") >> pure payload

unfoldable pub apply_gateway_dlp : Env → Engine → Fields → Raw → Exec Db GatewayError Raw
apply_gateway_dlp e g cfg payload =
    if dlp_enabled cfg then dlp_answer e (redact_dlp g payload) else pure payload

abbrev pub is_success : ℕ → Bool
is_success code = leb 200 code && ltb code 300

unfoldable pub record_outcome : Env → ℕ → ℕ → Raw → Db → Db
record_outcome e provider_id code body db =
    if is_success code
    then emit_audit e "ai_gateway" 0 "request_completed" ""
        (record_gateway_usage e provider_id body db)
    else emit_audit e "ai_gateway" 0 "request_rejected" "" db

abbrev pub with_body : Option Raw → Exec Db GatewayError Raw
with_body none = fail body_unread
with_body (some body) = pure body

-- The answer of the client, and what is recorded of it.
unfoldable pub receive : Env → AiProvider → Option Response → Exec Db GatewayError AiGatewayResponse
receive e p none = perform (emit_audit e "ai_gateway" 0 "request_failed" "") >> fail request_failed
receive e p (some r) = do
  body ← with_body r.body
  perform (record_outcome e p.id r.status_code body)
  pure record {
    status_code = r.status_code;
    content_type = or_else r.content_type "application/json";
    body = body;
  }

-- `strings.TrimRight(baseURL, "/")`
unfoldable pub trim_slashes : String → String
trim_slashes String.[] = ""
trim_slashes (String.◌∷◌ c s) =
    let rest = trim_slashes s in
    if rest == "" && String.◌∷◌ c "" == "/" then "" else String.◌∷◌ c rest

unfoldable pub upstream_url : Upstream → Fields → String
unfolding trim_slashes
upstream_url up cfg = glue (trim_slashes (config_or "base_url" up.base_url cfg)) up.path

-- From the spend gate on.
unfoldable pub forward :
    Env
    → Engine
    → Http
    → Upstream
    → AiProvider
    → String
    → Raw
    → Exec Db GatewayError AiGatewayResponse
forward e g http up p key payload = do
  sent ← apply_gateway_dlp e g (ai_provider_config p) payload
  guard (http.can_request (upstream_url up (ai_provider_config p))) bad_url
  receive e p (
      http.post (upstream_url up (ai_provider_config p)) (up.headers key (ai_provider_config p))
        sent)

-- Both proxies: only the upstream differs, and the place of the reading of the configuration, which
-- has no effect.
unfoldable pub gateway :
    Env → Wiring → Engine → Http → Upstream → String → Raw → Exec Db GatewayError AiGatewayResponse
gateway e w g http up provider_name payload = do
  p ← reading (provider_by_name e (or_else (trim provider_name) up.default_name)) not_found
  guard (p.type == up.type) (wrong_type p.type)
  key ← λ db. pure (first_secret (ai_credentials e w p db) up.keys) db
  guard (non_empty key) key_missing
  writing (evaluate_gateway_budget e p.name) blocked
  forward e g http up p key payload

unfoldable pub gateway_openai_responses :
    Env → Wiring → Engine → Http → String → Raw → Exec Db GatewayError AiGatewayResponse
unfolding gateway
gateway_openai_responses e w g http = gateway e w g http openai

unfoldable pub gateway_anthropic_messages :
    Env → Wiring → Engine → Http → String → Raw → Exec Db GatewayError AiGatewayResponse
unfolding gateway anthropic
gateway_anthropic_messages e w g http = gateway e w g http anthropic
