-- ===== src/Examples/Access.antt =====
-- Runs of the theorems on tenants, roles, keys and the MCP registry.
use opord_ai_demo.Base.{
  ◌⊎◌, ◌≡◌, refl, String, true, Option, none, some, [], ◌∷◌, ok, arith, eq_iff, find, any,
}
use opord_ai_demo.Db.{Db, Identity}
use opord_ai_demo.Db.Rows.{
  AiProvider, AiServiceInstance, AiQuota, AiAccessPolicy, AiAuditEvent, Request, McpServer,
  McpGrant, User,
}
use opord_ai_demo.Tenant.Isolation.{Shows, listings_isolated}
use opord_ai_demo.Base.Int.{pos}
use opord_ai_demo.Db.Governance.{UsageRow, join_usage}
use opord_ai_demo.Db.Listings.{take}
use opord_ai_demo.Quota.{list_ai_quotas}
use opord_ai_demo.Policy.{list_ai_access_policies}
use opord_ai_demo.Budget.Summary.{list_usage_records}
use opord_ai_demo.Access.{list_ai_instances}
use opord_ai_demo.Access.Listings.{positive_or, list_ai_audit_events}
use opord_ai_demo.Requests.{list_requests}
use opord_ai_demo.Mcp.Registry.{list_mcp_servers}
use opord_ai_demo.Mcp.Grants.{list_mcp_grants}
use opord_ai_demo.Providers.{list_ai_providers}
use opord_ai_demo.Auth.{valid_role, middleware, require_role, HttpRequest, Handler}
use opord_ai_demo.Auth.Gate.{middleware-require_role, Outcome}
use opord_ai_demo.Auth.Users.{create_user, resolve_api_key}
use opord_ai_demo.Auth.Bootstrap.{resolve_api_key-create_user}
use opord_ai_demo.Examples.{ops, env, db}

listings_isolated_example :
    Shows (list_ai_quotas env db).0 db.quotas (λ (q : AiQuota). q.tenant_id ≡ some 1)
    × Shows
        (list_ai_access_policies env db).0
        db.policies
        (λ (p : AiAccessPolicy). p.tenant_id ≡ some 1)
    × Shows
        (list_usage_records env db).0
        (join_usage db.providers db.instances db.usage)
        (λ (u : UsageRow). u.tenant_id ≡ some 1)
    × Shows
        (list_ai_instances env db).0
        db.instances
        (λ (i : AiServiceInstance). i.tenant_id ≡ some 1)
    × Shows (list_requests env db).0 db.requests (λ (r : Request). r.tenant_id ≡ some 1)
    × Shows (list_mcp_servers env db).0 db.mcp_servers (λ (s : McpServer). s.tenant_id ≡ some 1)
    × Shows (list_mcp_grants env db).0 db.mcp_grants (λ (g : McpGrant). g.tenant_id ≡ some 1)
    × Shows
        (list_ai_providers env db).0
        db.providers
        (λ (p : AiProvider). (p.tenant_id ≡ none) ⊎ (p.tenant_id ≡ some 1))
    × Shows
        (list_ai_audit_events env (pos 5) db).0
        (take (positive_or 100 (pos 5)) db.audit)
        (λ (v : AiAuditEvent). (v.tenant_id ≡ none) ⊎ (v.tenant_id ≡ some 1))
listings_isolated_example =
    listings_isolated env ops (pos 5) db refl (λ h. cc ((eq_iff "operator" "admin").1 h))
      (omega arith) (λ q. refl)

abbrev text_key : String → String
text_key s = s

abbrev known : String → Option Identity
known hash = some ops

abbrev answer : Handler
answer r = record { status = 200; body = "" }

abbrev call : HttpRequest
call = record { authorization = "Bearer opd_1"; identity = none }

middleware-require_role_example :
    Outcome text_key known true "admin" answer call
      (middleware text_key known true (require_role "admin" answer) call)
middleware-require_role_example = middleware-require_role text_key known true "admin" answer call

abbrev ann : User
ann = record {
  id = 101;
  email = "ann@acme.io";
  tenant_id = 1;
  role = "viewer";
  api_key_hash = "opd_02";
}

abbrev with_ann : Db
with_ann = record db { next_id = 101; users = ann ∷ [] }

ann_made :
    create_user text_key env (some "02") "ann@acme.io" "acme" "viewer" db
    ≡ (ok (ann, "opd_02"), with_ann)
unfolding create_user find any
ann_made = refl

resolve_api_key-create_user_example :
    (id : Identity) × (resolve_api_key env with_ann "opd_02" ≡ some id)
    × (id.email ≡ "ann@acme.io")
    × (id.role ≡ "viewer")
    × (id.tenant_id ≡ 1)
    × (valid_role id.role ≡ true)
resolve_api_key-create_user_example =
    resolve_api_key-create_user text_key env (some "02") "ann@acme.io" "acme" "viewer" db with_ann
      ann "opd_02" ann_made (λ h. cc ((eq_iff "opd_02" "").1 h)) refl
