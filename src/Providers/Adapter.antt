-- ===== src/Providers/Adapter.antt =====
-- internal/aiproviders/provider.go: what a provider's adapter answers, and the registry of the
-- adapters. `none` stands for the error of a call.
use opord_ai_demo.Base.{ℕ, String, Bool, Option, none, some, List, [], ◌∷◌, if◌then◌else◌, ◌==◌}
use opord_ai_demo.Base.Int.{ℤ}
use opord_ai_demo.Json.{Fields, Raw}

-- `map[string]string`: the secrets of a provider.
abbrev pub Credentials : Type 0
Credentials = List (String × String)

-- `creds[key]`, empty where there is no such key.
unfoldable pub secret : String → Credentials → String
secret key [] = ""
secret key ((k, v) ∷ cs) = if k == key then v else secret key cs

-- A Service, as a provider advertises it.
pub record Service : Type 0 where
  pub name : String
  pub slug : String
  pub category : String
  pub description : String
  pub request_schema : Option Fields
  pub default_expiration_days : ℤ
  pub requires_approval : Bool

pub record Model : Type 0 where
  pub model : String
  pub display_name : String
  pub modality : String
  pub status : String
  pub metadata : Option Fields

pub record ProvisionRequest : Type 0 where
  pub request_id : ℕ
  pub service_id : ℕ
  pub service : Service
  pub owner : String
  pub workspace : String
  pub spec : Raw
  pub expires_at : Option ℕ
  pub credentials : Credentials
  pub config : Fields

pub record ProvisionResult : Type 0 where
  pub provider_access_id : String
  pub observed : Fields

pub record UsageRecord : Type 0 where
  pub metric : String
  pub quantity : ℤ
  pub unit : String
  pub cost_usd : ℤ
  pub raw : Option Fields

-- The zero time is `none`.
pub record UsageRequest : Type 0 where
  pub provider_access_id : String
  pub period_start : Option ℕ
  pub period_end : Option ℕ
  pub credentials : Credentials
  pub config : Fields

-- A Provider; `list_models` is `none` for one that is no ModelCatalogProvider.
pub record Provider : Type 0 where
  pub validate_credentials : Credentials → Fields → Bool
  pub list_available_services : Credentials → Fields → Option (List Service)
  pub provision_access : ProvisionRequest → Option ProvisionResult
  pub get_usage : UsageRequest → Option (List UsageRecord)
  pub list_models : Option (Credentials → Fields → Option (List Model))

-- The factories by type. A factory makes the same adapter each time.
abbrev pub Registry : Type 0
Registry = List (String × Provider)

-- Registry.Get
unfoldable pub get : Registry → String → Option Provider
get [] type = none
get ((t, p) ∷ rs) type = if t == type then some p else get rs type

-- Registry.Register; `none` where it panics.
unfoldable pub register : Registry → String → Provider → Option Registry
unfolding get
register r type p = elim (get r type) [ some old ↦ none | none ↦ some ((type, p) ∷ r) ]

-- What a service is wired with: the registry, and the secret store behind `CredentialResolver`.
-- `read_secret` is `none` where there is no store, it cannot be read, or the read fails;
-- `write_secret` is `none` for a store that takes no writes; otherwise a write is refused, `none`, or
-- leaves what the store reads from then on.
pub record Wiring : Type 0 where
  pub registry : Option Registry
  pub read_secret : String → Option Credentials
  pub write_secret : Option (String → Credentials → Option (String → Option Credentials))

-- `s.aiProvider(t)`; `none` for its errors.
unfoldable pub ai_provider : Wiring → String → Option Provider
unfolding get
ai_provider w type = elim w.registry [ none ↦ none | some r ↦ get r type ]
