-- ===== src/Provision.antt =====
-- Requests for AI services and the access that they are granted, in internal/orchestrator/ai.go:
-- CreateAIRequest, ProvisionAIRequest, ListAIRequests and what they call. The event bus is left out.
pub mod Spec
pub mod Minted
pub mod Grant
pub mod Decode
pub mod Through
pub mod Sealed
pub mod Reveal
use opord_ai_demo.Base.{
  ℕ, ◌-◌, String, Bool, Option, none, some, List, [], ◌∷◌, Result, ok, err, Exec, pure, fail, guard,
  perform, reading, writing, ◌>>=◌, ◌>>◌, if◌then◌else◌, ◌==◌, ◌&&◌, ◌||◌, non_empty, or_else,
  select, trim,
}
use opord_ai_demo.Base.Int.{ℤ, pos}
use opord_ai_demo.Json.{Json, Fields, Raw, null, obj}
use opord_ai_demo.Db.{Env, Db, DbError, no_rows}
use opord_ai_demo.Db.Rows.{AiProvider, AiService, AiServiceInstance, AiUsageRecord, Request}
use opord_ai_demo.Db.Governance.{service_by_slug}
use opord_ai_demo.Db.Access.{
  service_by_id, provider_by_id, create_instance_row, create_usage_row, joined,
}
use opord_ai_demo.Tenant.{tenant_for_create, emit_audit}
use opord_ai_demo.Policy.Rule.{AiReqContext}
use opord_ai_demo.Enforce.{Reason, evaluate_ai_governance}
use opord_ai_demo.Requests.{CreateRequestInput, RequestError, create_request, list_requests}
use opord_ai_demo.Access.{day}
use opord_ai_demo.Providers.Config.{ai_provider_config, fields_of}
use opord_ai_demo.Providers.Adapter.{
  Service, Provider, ProvisionRequest, ProvisionResult, UsageRecord, Wiring, ai_provider,
}
use opord_ai_demo.Providers.{ai_credentials}
use Spec.{AiRequestSpec, empty_spec, encode_spec, ai_request_spec_of, Parsers, ai_expires_at}
use Minted.{strip_minted_secret}

pub record CreateAiRequestInput : Type 0 where
  pub name : String
  pub requester : String
  pub service_id : String
  pub service_slug : String
  pub owner : String
  pub workspace : String
  pub justification : String
  pub expires_at : String
  pub metadata : Option Fields

pub data ProvisionError : Type 0 where
  fields_required bad_expiry bad_service_id bad_spec no_service no_adapter : ProvisionError
  provision_failed : ProvisionError
  service_not_found provider_not_found instance_failed : DbError → ProvisionError
  blocked : List Reason → ProvisionError
  request_failed : RequestError → ProvisionError

-- GetAIService or GetAIServiceBySlug, with the provider that the row is joined with.
unfoldable pub lookup_ai_service :
    Env → Parsers → String → String → Exec Db ProvisionError (AiService × AiProvider)
lookup_ai_service e ps service_id service_slug db =
    if non_empty service_id
    then elim (ps.parse_uuid service_id) [
      | none ↦ (err bad_service_id, db)
      | some id ↦
          reading (λ (d : Db). joined d.providers (service_by_id e id d)) service_not_found db
    ]
    else reading (λ (d : Db). joined d.providers (service_by_slug e service_slug d))
        service_not_found db

abbrev pub expiry_or_fail : {A : Type 0} → Result (Unit {0}) A → Exec Db ProvisionError A
expiry_or_fail (ok t) = pure t
expiry_or_fail (err u) = fail bad_expiry

abbrev pub request_context : AiService → AiProvider → String → String → Option ℕ → AiReqContext
request_context s p owner workspace tenant = record {
  service_id = s.id;
  service_slug = s.slug;
  service_category = s.category;
  provider_name = p.name;
  provider_type = p.type;
  owner = owner;
  workspace = workspace;
  tenant = tenant;
}

unfoldable pub new_spec : Env → CreateAiRequestInput → AiService → AiRequestSpec
new_spec e input s = record {
  service_id = e.uuid_string s.id;
  service_slug = s.slug;
  owner = or_else input.owner input.requester;
  workspace = input.workspace;
  justification = input.justification;
  expires_at = input.expires_at;
  metadata = input.metadata;
}

unfoldable pub request_input :
    Env → CreateAiRequestInput → AiService → AiProvider → CreateRequestInput
unfolding new_spec
request_input e input s p = record {
  name = input.name;
  environment = "";
  requester = input.requester;
  kind = "ai_service";
  provider = p.name;
  blueprint = "";
  spec = some (encode_spec (new_spec e input s));
}

-- The expiry is parsed only to refuse a bad one.
unfoldable pub create_ai_request :
    Env
    → Parsers
    → (Request → Option String)
    → CreateAiRequestInput
    → Exec Db ProvisionError Request
create_ai_request e ps ticketer input = do
  guard
      (non_empty (trim input.name)
        && (non_empty (trim input.service_slug) || non_empty (trim input.service_id)))
      fields_required
  expiry_or_fail (ai_expires_at ps input.expires_at 0 (pos 0))
  (service, provider) ← lookup_ai_service e ps (trim input.service_id) (trim input.service_slug)
  writing
      (evaluate_ai_governance e (
        request_context service provider (or_else input.owner input.requester) input.workspace
          (tenant_for_create e)))
      blocked
  req ← writing (create_request e ticketer (request_input e input service provider)) request_failed
  perform (emit_audit e "ai_request" req.id "created" input.requester)
  pure req

-- ListAIRequests
unfoldable pub list_ai_requests : Env → Exec Db RequestError (List Request)
list_ai_requests e = do
  rs ← list_requests e
  pure (select (λ (r : Request). r.kind == "ai_service") rs)
