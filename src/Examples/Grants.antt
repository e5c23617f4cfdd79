-- ===== src/Examples/Grants.antt =====
-- Runs of the theorems on granted access.
use opord_ai_demo.Base.{
  ◌↔◌, select, ◌+◌, ◌*◌, true, false, none, some, [], ◌∷◌, ◌≡◌, refl, inl, inr, ok, find, In, All,
  arith,
}
use opord_ai_demo.Base.Int.{pos}
use opord_ai_demo.Db.{Env, Db}
use opord_ai_demo.Db.Rows.{AiServiceInstance}
use opord_ai_demo.Tenant.{scope_tenant, may_see}
use opord_ai_demo.Access.{
  Adapters, is_live, is_due, revoke_ai_instance, reap_expired_ai_instances, day,
}
use opord_ai_demo.Access.Revoke.{Revoked, revoke_ai_instance_outcome}
use opord_ai_demo.Access.Reap.{reap_expired_ai_instances-In}
use opord_ai_demo.Access.Sweep.{Working, Backed}
use opord_ai_demo.Access.Expired.{reap_expired_ai_instances_complete}
use opord_ai_demo.Access.Listings.{list_ai_expiring_instances, positive_or}
use opord_ai_demo.Access.Renewals.{Renews, Ordered, list_ai_expiring_instances_ok}
use opord_ai_demo.Db.Listings.{expiring_instances, expires_by, order_by_expiry, insert_by_expiry}
use opord_ai_demo.Examples.{env, db, chat, mock}
use opord_ai_demo.Examples.Providers.{wiring}

-- An access that is past its expiry, and one that has none.
abbrev old : AiServiceInstance
old = record {
  id = 80;
  service_id = 20;
  request_id = none;
  provider_access_id = "a";
  owner = "eve@acme.io";
  tenant_id = some 1;
  workspace = "dev";
  status = "active";
  spec = none;
  observed = none;
  expires_at = some 10;
  revoked_at = none;
  created_at = 1;
}

abbrev standing : AiServiceInstance
standing = record old { id = 81; expires_at = none }

abbrev granted : Db
granted = record db { instances = old ∷ standing ∷ [] }

abbrev all_adapters : Adapters
all_adapters = record { wiring = wiring; has_adapter = λ t. true; revokes = λ t req. true }

revoke_ai_instance_outcome_example :
    Revoked env all_adapters 80 granted (revoke_ai_instance env all_adapters 80 "ops" granted)
revoke_ai_instance_outcome_example = revoke_ai_instance_outcome env all_adapters 80 "ops" granted

reap_expired_ai_instances-In_example :
    In standing (reap_expired_ai_instances env all_adapters granted).1.instances
reap_expired_ai_instances-In_example =
    reap_expired_ai_instances-In env all_adapters granted standing
      ((λ due. omega arith), ((λ due. absurd (unfold is_due is_live in cc due)), tt))
      (inr (inl refl))

-- An access that ends in a week, and one that ends a day earlier.
abbrev ending : AiServiceInstance
ending = record old { id = 82; expires_at = some (1000 + 7 * day) }

abbrev sooner : AiServiceInstance
sooner = record old { id = 83; status = "suspended"; expires_at = some (1000 + 6 * day) }

abbrev with_ending : Db
with_ending = record db { instances = ending ∷ sooner ∷ standing ∷ [] }

renewals : (list_ai_expiring_instances env (pos 0) with_ending).0 ≡ ok (sooner ∷ ending ∷ [])
unfolding list_ai_expiring_instances expiring_instances positive_or expires_by order_by_expiry
    insert_by_expiry select may_see scope_tenant
renewals = refl

list_ai_expiring_instances_ok_example :
    (In ending (sooner ∷ ending ∷ []) ↔ Renews env (pos 0) with_ending ending)
    × Ordered (sooner ∷ ending ∷ [])
list_ai_expiring_instances_ok_example =
    list_ai_expiring_instances_ok env (pos 0) with_ending (sooner ∷ ending ∷ []) ending renewals

-- A run of the system, which is held to no tenant.
abbrev system : Env
system = record env { identity = none }

system-Working : Working system all_adapters
unfolding scope_tenant
system-Working = record {
  no_fail = λ q. refl;
  unscoped = refl;
  adapters = λ t. refl;
  confirms = λ p i. refl;
}

granted-Backed : All (Backed granted.services granted.providers) granted.instances
unfolding find
granted-Backed = ((chat, refl, (mock, refl)), ((chat, refl, (mock, refl)), tt))

reap_expired_ai_instances_complete_example :
    All
      (λ i. is_due system.now i ≡ false)
      (reap_expired_ai_instances system all_adapters granted).1.instances
reap_expired_ai_instances_complete_example =
    reap_expired_ai_instances_complete system all_adapters granted system-Working
      ((refl, tt), (tt, tt)) granted-Backed
