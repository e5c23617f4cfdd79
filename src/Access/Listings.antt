-- ===== src/Access/Listings.antt =====
-- ListAIExpiringInstances of internal/orchestrator/ai_governance.go and ListAIAuditEvents of ai.go.
use opord_ai_demo.Base.{
  ℕ, zero, suc, Bool, true, none, some, List, Exec, pure, reading, ◌>>=◌, select,
}
use opord_ai_demo.Base.Int.{ℤ, pos, negsuc}
use opord_ai_demo.Db.{Env, Db}
use opord_ai_demo.Db.Rows.{AiServiceInstance, AiAuditEvent}
use opord_ai_demo.Db.Listings.{expiring_instances, audit_events}
use opord_ai_demo.Tenant.{scope_tenant, may_see}
use opord_ai_demo.Access.{AccessError, list_failed}

-- A number from outside, and another where it is not positive.
unfoldable pub positive_or : ℕ → ℤ → ℕ
positive_or d (pos zero) = d
positive_or d (pos (suc n)) = suc n
positive_or d (negsuc n) = d

unfoldable pub list_ai_expiring_instances : Env → ℤ → Exec Db AccessError (List AiServiceInstance)
list_ai_expiring_instances e days = do
  rows ← reading (expiring_instances e (positive_or 30 days)) list_failed
  pure (select (λ (i : AiServiceInstance). may_see (scope_tenant e) i.tenant_id) rows)

-- An event of no tenant is everybody's.
unfoldable pub shows_event : Env → AiAuditEvent → Bool
shows_event e v = elim v.tenant_id [ none ↦ true | some t ↦ may_see (scope_tenant e) v.tenant_id ]

-- The newest `limit` events, and of these the ones that the caller may see.
unfoldable pub list_ai_audit_events : Env → ℤ → Exec Db AccessError (List AiAuditEvent)
list_ai_audit_events e limit = do
  rows ← reading (audit_events e (positive_or 100 limit)) list_failed
  pure (select (shows_event e) rows)
