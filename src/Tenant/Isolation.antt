-- ===== src/Tenant/Isolation.antt =====
-- Callers of one tenant never see the rows of another.
use opord_ai_demo.Base.{
  Bool, none, refl, ap, ◌∙◌, ◌⊎◌, inl, Result, ok, select, false, ℕ, ◌≡◌, ◌≢◌, ◌↔◌, true, Option,
  some, List, arith, eq_iff, In, In-select→, In-select←,
}
use opord_ai_demo.Db.{
  Env, Db, Identity, Query, list_quotas, list_policies, list_usage, list_instances, list_providers,
  list_audit,
}
use opord_ai_demo.Db.Rows.{
  AiProvider, AiServiceInstance, AiQuota, AiAccessPolicy, AiAuditEvent, Request, McpServer,
  McpGrant,
}
use opord_ai_demo.Db.Governance.{
  UsageRow, join_usage, all_usage, all_quotas, all_policies, all_instances,
}
use opord_ai_demo.Db.Requests.{all_requests}
use opord_ai_demo.Db.Mcp.{all_servers, all_grants}
use opord_ai_demo.Db.Providers.{all_providers}
use opord_ai_demo.Db.Listings.{audit_events, take}
use opord_ai_demo.Tenant.{scope_tenant, may_see, visible_rows, tenant_visible}
use opord_ai_demo.Quota.{list_ai_quotas}
use opord_ai_demo.Policy.{list_ai_access_policies}
use opord_ai_demo.Budget.Summary.{list_usage_records}
use opord_ai_demo.Access.{list_ai_instances}
use opord_ai_demo.Access.Listings.{positive_or, shows_event, list_ai_audit_events}
use opord_ai_demo.Requests.{list_requests}
use opord_ai_demo.Mcp.Registry.{list_mcp_servers}
use opord_ai_demo.Mcp.Grants.{list_mcp_grants}
use opord_ai_demo.Providers.{may_use, list_ai_providers}
use opord_ai_demo.Base.Int.{ℤ}

visible_some : (t : Option ℕ) (tid : ℕ) → (tenant_visible t tid ≡ true) ↔ (t ≡ some tid)
unfolding tenant_visible
visible_some t tid = ground arith

scope_tenant-some :
    (e : Env) (id : Identity)
    → e.identity ≡ some id
    → id.role ≢ "admin"
    → id.tenant_id ≢ 0
    → scope_tenant e ≡ some id.tenant_id
unfolding scope_tenant
scope_tenant-some e id who role tenant = ground (arith, eq_iff id.role "admin")

module _ {A : Type 0} (tenant_id : A → Option ℕ) (tid : ℕ) (row : A) (rows : List A) where
  scoped_rows-In :
      In row (visible_rows tenant_id (some tid) rows) ↔ (In row rows × (tenant_id row ≡ some tid))
  unfolding visible_rows
  scoped_rows-In = (
    λ h.
        let k = In-select→ (λ r. tenant_visible (tenant_id r) tid) row rows h in
        (k.0, (visible_some (tenant_id row) tid).0 k.1),
    λ h. In-select← _ row rows h.0 ((visible_some (tenant_id row) tid).1 h.1),
  )

shared_some :
    (t : Option ℕ) (tid : ℕ) (b : Bool)
    → (t ≡ none → b ≡ true)
    → ((u : ℕ) → t ≡ some u → b ≡ may_see (some tid) (some u))
    → (b ≡ true) ↔ ((t ≡ none) ⊎ (t ≡ some tid))
unfolding may_see tenant_visible
shared_some none tid b shared owned = (λ k. inl refl, λ k. shared refl)
shared_some (some u) tid b shared owned = ground (arith, owned u refl)

-- A listing answers rows, and these are the stored ones that have a property.
abbrev pub Shows : {E A : Type 0} → Result E (List A) → List A → (A → Type 0) → Type 0
Shows {E} {A} out stored P =
    (rows : List A) × (out ≡ ok rows) × ((row : A) → In row rows ↔ (In row stored × P row))

visible_rows-Shows :
    {E A : Type 0} (tenant_id : A → Option ℕ) (scope : Option ℕ) (tid : ℕ) (stored : List A)
    (out : Result E (List A))
    → scope ≡ some tid
    → out ≡ ok (visible_rows tenant_id scope stored)
    → Shows out stored (λ row. tenant_id row ≡ some tid)
visible_rows-Shows tenant_id scope tid stored out held listed = (
  visible_rows tenant_id (some tid) stored,
  listed ∙ ap (λ s. ok (visible_rows tenant_id s stored)) held,
  λ row. scoped_rows-In tenant_id tid row stored,
)

select-Shows :
    {E A : Type 0} (p : A → Bool) (P : A → Type 0) (stored : List A) (out : Result E (List A))
    → ((row : A) → (p row ≡ true) ↔ P row)
    → out ≡ ok (select p stored)
    → Shows out stored P
select-Shows p P stored out test listed = (
  select p stored,
  listed,
  λ row. (
    λ m. let (k, hit) = In-select→ p row stored m in (k, (test row).0 hit),
    λ h. In-select← p row stored h.0 ((test row).1 h.1),
  ),
)

module _ (e : Env) (db : Db) (tid : ℕ) (held : scope_tenant e ≡ some tid)
    (up : (q : Query) → e.fails q ≡ false) where
  quotas_shown : Shows (list_ai_quotas e db).0 db.quotas (λ (q : AiQuota). q.tenant_id ≡ some tid)
  unfolding list_ai_quotas all_quotas
  quotas_shown =
      visible_rows-Shows (λ (q : AiQuota). q.tenant_id) (scope_tenant e) tid db.quotas _ held
        (rw (up list_quotas) refl)

  policies_shown :
      Shows
        (list_ai_access_policies e db).0
        db.policies
        (λ (p : AiAccessPolicy). p.tenant_id ≡ some tid)
  unfolding list_ai_access_policies all_policies
  policies_shown =
      visible_rows-Shows (λ (p : AiAccessPolicy). p.tenant_id) (scope_tenant e) tid db.policies _
        held (rw (up list_policies) refl)

  usage_shown :
      Shows
        (list_usage_records e db).0
        (join_usage db.providers db.instances db.usage)
        (λ (u : UsageRow). u.tenant_id ≡ some tid)
  unfolding list_usage_records all_usage
  usage_shown =
      visible_rows-Shows (λ (u : UsageRow). u.tenant_id) (scope_tenant e) tid _ _ held
        (rw (up list_usage) refl)

  instances_shown :
      Shows
        (list_ai_instances e db).0
        db.instances
        (λ (i : AiServiceInstance). i.tenant_id ≡ some tid)
  unfolding list_ai_instances all_instances
  instances_shown =
      visible_rows-Shows (λ (i : AiServiceInstance). i.tenant_id) (scope_tenant e) tid db.instances
        _ held (rw (up list_instances) refl)

  requests_shown :
      Shows (list_requests e db).0 db.requests (λ (r : Request). r.tenant_id ≡ some tid)
  unfolding list_requests all_requests
  requests_shown =
      visible_rows-Shows (λ (r : Request). r.tenant_id) (scope_tenant e) tid db.requests _ held
        (rw (up Query.list_requests) refl)

  servers_shown :
      Shows (list_mcp_servers e db).0 db.mcp_servers (λ (s : McpServer). s.tenant_id ≡ some tid)
  unfolding list_mcp_servers all_servers
  servers_shown =
      visible_rows-Shows (λ (s : McpServer). s.tenant_id) (scope_tenant e) tid db.mcp_servers _ held
        (rw (up Query.list_mcp_servers) refl)

  grants_shown :
      Shows (list_mcp_grants e db).0 db.mcp_grants (λ (g : McpGrant). g.tenant_id ≡ some tid)
  unfolding list_mcp_grants all_grants
  grants_shown =
      visible_rows-Shows (λ (g : McpGrant). g.tenant_id) (scope_tenant e) tid db.mcp_grants _ held
        (rw (up Query.list_mcp_grants) refl)

  providers_shown :
      Shows
        (list_ai_providers e db).0
        db.providers
        (λ (p : AiProvider). (p.tenant_id ≡ none) ⊎ (p.tenant_id ≡ some tid))
  unfolding list_ai_providers all_providers
  providers_shown =
      select-Shows (may_use (scope_tenant e)) _ db.providers _
        (λ p.
          shared_some p.tenant_id tid (may_use (scope_tenant e) p)
            (unfold may_use in λ h. rw h refl) (unfold may_use in λ u h. rw (h, held) refl))
        (rw (up list_providers) refl)

  events_shown :
      (limit : ℤ)
      → Shows
          (list_ai_audit_events e limit db).0
          (take (positive_or 100 limit) db.audit)
          (λ (v : AiAuditEvent). (v.tenant_id ≡ none) ⊎ (v.tenant_id ≡ some tid))
  unfolding list_ai_audit_events audit_events
  events_shown limit =
      select-Shows (shows_event e) _ (take (positive_or 100 limit) db.audit) _
        (λ v.
          shared_some v.tenant_id tid (shows_event e v) (unfold shows_event in λ h. rw h refl)
            (unfold shows_event in λ u h. rw (h, held) refl))
        (rw (up list_audit) refl)

-- Where no query fails, a caller with a tenant and a role other than admin is listed exactly the
-- stored quotas, access policies, usage records, instances, requests, MCP servers and MCP grants of
-- that tenant; and exactly the providers, and of the newest audit events exactly those, that are of
-- that tenant or of none.
pub listings_isolated :
    (e : Env) (id : Identity) (limit : ℤ) (db : Db)
    → e.identity ≡ some id
    → id.role ≢ "admin"
    → id.tenant_id ≢ 0
    → ((q : Query) → e.fails q ≡ false)
    → let tid = some id.tenant_id in
      Shows (list_ai_quotas e db).0 db.quotas (λ (q : AiQuota). q.tenant_id ≡ tid)
      × Shows
          (list_ai_access_policies e db).0
          db.policies
          (λ (p : AiAccessPolicy). p.tenant_id ≡ tid)
      × Shows
          (list_usage_records e db).0
          (join_usage db.providers db.instances db.usage)
          (λ (u : UsageRow). u.tenant_id ≡ tid)
      × Shows (list_ai_instances e db).0 db.instances (λ (i : AiServiceInstance). i.tenant_id ≡ tid)
      × Shows (list_requests e db).0 db.requests (λ (r : Request). r.tenant_id ≡ tid)
      × Shows (list_mcp_servers e db).0 db.mcp_servers (λ (s : McpServer). s.tenant_id ≡ tid)
      × Shows (list_mcp_grants e db).0 db.mcp_grants (λ (g : McpGrant). g.tenant_id ≡ tid)
      × Shows
          (list_ai_providers e db).0
          db.providers
          (λ (p : AiProvider). (p.tenant_id ≡ none) ⊎ (p.tenant_id ≡ tid))
      × Shows
          (list_ai_audit_events e limit db).0
          (take (positive_or 100 limit) db.audit)
          (λ (v : AiAuditEvent). (v.tenant_id ≡ none) ⊎ (v.tenant_id ≡ tid))
listings_isolated e id limit db who role tenant up =
    let held = scope_tenant-some e id who role tenant in
    let tid = id.tenant_id in
    (
      quotas_shown e db tid held up,
      policies_shown e db tid held up,
      usage_shown e db tid held up,
      instances_shown e db tid held up,
      requests_shown e db tid held up,
      servers_shown e db tid held up,
      grants_shown e db tid held up,
      providers_shown e db tid held up,
      events_shown e db tid held up limit,
    )
