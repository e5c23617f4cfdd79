-- ===== src/Provision/Grant.antt =====
-- ProvisionAIRequest of internal/orchestrator/ai.go, with recordAIUsage: an approved request becomes
-- a service instance.
use opord_ai_demo.Base.{
  ℕ, ◌-◌, String, Option, none, some, List, [], ◌∷◌, Result, ok, err, Exec, pure, fail, guard,
  perform, reading, writing, ◌>>=◌, ◌>>◌, ◌||◌, non_empty, or_else,
}
use opord_ai_demo.Json.{Json, Fields, null, obj, end}
use opord_ai_demo.Db.{Env, Db}
use opord_ai_demo.Db.Rows.{AiProvider, AiService, AiServiceInstance, AiUsageRecord, Request}
use opord_ai_demo.Db.Access.{provider_by_id, create_instance_row, create_usage_row}
use opord_ai_demo.Tenant.{emit_audit}
use opord_ai_demo.Enforce.{evaluate_ai_governance}
use opord_ai_demo.Access.{day}
use opord_ai_demo.Providers.Config.{ai_provider_config, fields_of}
use opord_ai_demo.Providers.Adapter.{
  Service, Provider, ProvisionResult, UsageRecord, UsageRequest, Wiring, ai_provider,
}
use opord_ai_demo.Providers.{ai_credentials}
use opord_ai_demo.Provision.{
  ProvisionError, bad_spec, no_service, provider_not_found, no_adapter, provision_failed, blocked,
  instance_failed, lookup_ai_service, expiry_or_fail, request_context,
}
use opord_ai_demo.Provision.Spec.{AiRequestSpec, ai_request_spec_of, Parsers, ai_expires_at}
use opord_ai_demo.Provision.Minted.{strip_minted_secret}

abbrev pub some_or_fail : {A : Type 0} → Option A → ProvisionError → Exec Db ProvisionError A
some_or_fail none x = fail x
some_or_fail (some a) x = pure a

-- aiProviderServiceFromRow
unfoldable pub service_from_row : AiService → Service
service_from_row s = record {
  name = s.name;
  slug = s.slug;
  category = s.category;
  description = s.description;
  request_schema = some (fields_of s.request_schema);
  default_expiration_days = s.default_expiration_days;
  requires_approval = s.requires_approval;
}

-- json.Marshal of a map, `null` where it is nil.
abbrev pub marshal_map : Option Fields → Json
marshal_map none = null
marshal_map (some fs) = obj fs

abbrev pub usage_of : Env → ℕ → ℕ → UsageRecord → AiUsageRecord
usage_of e provider_id instance_id rec = record {
  id = 0;
  instance_id = some instance_id;
  provider_id = provider_id;
  period_start = e.now - day;
  period_end = e.now;
  metric = rec.metric;
  quantity = rec.quantity;
  unit = rec.unit;
  cost_usd = rec.cost_usd;
  raw = some (marshal_map rec.raw);
}

-- A record that cannot be written is passed over.
unfoldable pub store_usage : Env → ℕ → ℕ → List UsageRecord → Db → Db
store_usage e provider_id instance_id [] db = db
store_usage e provider_id instance_id (r ∷ rs) db =
    store_usage e provider_id instance_id rs
      (create_usage_row e (usage_of e provider_id instance_id r) db).1

abbrev pub last_day : Env → String → UsageRequest
last_day e access_id = record {
  provider_access_id = access_id;
  period_start = some (e.now - day);
  period_end = some e.now;
  credentials = [];
  config = end;
}

unfoldable pub record_ai_usage : Env → Provider → ℕ → ℕ → String → Db → Db
record_ai_usage e prov provider_id instance_id access_id db =
    elim (prov.get_usage (last_day e access_id)) [
      | none ↦ db
      | some rs ↦ store_usage e provider_id instance_id rs db
    ]

abbrev pub audited_error :
    {A : Type 0}
    → Env
    → Request
    → String
    → Result ProvisionError A × Db
    → Result ProvisionError A × Db
audited_error e req action (ok a, db) = (ok a, db)
audited_error e req action (err x, db) =
    (err x, emit_audit e "ai_request" req.id action req.decided_by db)

-- An error of the step is audited.
abbrev pub or_audit :
    {A : Type 0}
    → Env
    → Request
    → String
    → (Db → Result ProvisionError A × Db)
    → Exec Db ProvisionError A
or_audit e req action step db = audited_error e req action (step db)

unfoldable pub new_instance :
    Request → AiService → String → String → Option ℕ → String → Fields → AiServiceInstance
new_instance req s owner workspace expires_at access_id observed = record {
  id = 0;
  service_id = s.id;
  request_id = some req.id;
  provider_access_id = access_id;
  owner = owner;
  tenant_id = req.tenant_id;
  workspace = workspace;
  status = "active";
  spec = req.spec;
  observed = some (obj observed);
  expires_at = expires_at;
  revoked_at = none;
  created_at = 0;
}

abbrev pub owner_of : AiRequestSpec → Request → String
owner_of spec req = or_else spec.owner (or_else req.requester "unknown")

abbrev pub workspace_of : AiRequestSpec → Request → String
workspace_of spec req = or_else spec.workspace (or_else req.environment "default")

-- The gate again: what is used or spent may have changed since the request was filed.
unfoldable pub gate_again :
    Env → Request → AiService → AiProvider → AiRequestSpec → Exec Db ProvisionError (Unit {0})
gate_again e req s p spec = or_audit e req "provision_blocked" (
    writing
      (evaluate_ai_governance e
        (request_context s p (owner_of spec req) (workspace_of spec req) req.tenant_id))
      blocked)

unfoldable pub ask_provider :
    Env
    → Wiring
    → Request
    → AiService
    → AiProvider
    → Provider
    → AiRequestSpec
    → Option ℕ
    → Exec Db ProvisionError ProvisionResult
ask_provider e w req s p prov spec expires_at = or_audit e req "provision_failed" (λ db.
    some_or_fail
      (prov.provision_access record {
        request_id = req.id;
        service_id = s.id;
        service = service_from_row s;
        owner = owner_of spec req;
        workspace = workspace_of spec req;
        spec = req.spec;
        expires_at = expires_at;
        credentials = ai_credentials e w p db;
        config = ai_provider_config p;
      })
      provision_failed db)

-- From the service on, which came joined with its provider.
unfoldable pub grant_access :
    Env
    → Wiring
    → Parsers
    → Request
    → AiRequestSpec
    → AiService × AiProvider
    → Exec Db ProvisionError AiServiceInstance
grant_access e w ps req spec (service, joined_with) = do
  provider ← reading (provider_by_id e service.provider_id) provider_not_found
  prov ← some_or_fail (ai_provider w provider.type) no_adapter
  expires_at ←
      expiry_or_fail
        (ai_expires_at ps spec.expires_at req.created_at service.default_expiration_days)
  gate_again e req service provider spec
  res ← ask_provider e w req service provider prov spec expires_at
  inst ←
      writing
        (create_instance_row e (
          new_instance req service (owner_of spec req) (workspace_of spec req) expires_at
            res.provider_access_id (strip_minted_secret e w req.id res.observed)))
        instance_failed
  perform (record_ai_usage e prov provider.id inst.id res.provider_access_id)
  perform (emit_audit e "ai_instance" inst.id "created" req.decided_by)
  pure inst

unfoldable pub provision_ai_request :
    Env → Wiring → Parsers → Request → Exec Db ProvisionError AiServiceInstance
provision_ai_request e w ps req = do
  spec ← some_or_fail (ai_request_spec_of req.spec) bad_spec
  guard (non_empty spec.service_slug || non_empty spec.service_id) no_service
  found ← lookup_ai_service e ps spec.service_id spec.service_slug
  grant_access e w ps req spec found
