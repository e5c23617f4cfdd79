-- ===== src/Db/Listings.antt =====
-- internal/db/ai.sql.go: the instances that expire soon, and the audit trail.
use opord_ai_demo.Base.{
  ℕ, zero, suc, ◌+◌, ◌*◌, Bool, true, false, Option, none, some, List, [], ◌∷◌, Result, ok,
  if◌then◌else◌, ◌==◌, ◌||◌, ◌&&◌, leb, select,
}
use opord_ai_demo.Db.{Env, Db, DbError, query, list_expiring, list_audit}
use opord_ai_demo.Db.Rows.{AiServiceInstance, AiAuditEvent}

abbrev pub by_then : ℕ → Option ℕ → Bool
by_then limit none = false
by_then limit (some t) = leb t limit

-- The condition of the query: live, with an expiry, and that at `limit` or before.
unfoldable pub expires_by : ℕ → AiServiceInstance → Bool
expires_by limit i = (i.status == "active" || i.status == "suspended") && by_then limit i.expires_at

-- `order by expires_at asc`, on rows that have one.
abbrev pub not_after : Option ℕ → Option ℕ → Bool
not_after none t = true
not_after (some s) none = false
not_after (some s) (some t) = leb s t

unfoldable pub insert_by_expiry :
    AiServiceInstance → List AiServiceInstance → List AiServiceInstance
insert_by_expiry i [] = i ∷ []
insert_by_expiry i (j ∷ js) =
    let rest = insert_by_expiry i js in
    if not_after i.expires_at j.expires_at then i ∷ j ∷ js else j ∷ rest

unfoldable pub order_by_expiry : List AiServiceInstance → List AiServiceInstance
order_by_expiry [] = []
order_by_expiry (i ∷ is) = insert_by_expiry i (order_by_expiry is)

-- A day of the query is 24 hours.
unfoldable pub expiring_instances : Env → ℕ → Db → Result DbError (List AiServiceInstance)
expiring_instances e days db =
    query e list_expiring
      (ok (order_by_expiry (select (expires_by (e.now + days * 86400000000000)) db.instances)))

abbrev pub take : {A : Type 0} → ℕ → List A → List A
take zero xs = []
take (suc n) [] = []
take (suc n) (x ∷ xs) = x ∷ take n xs

-- The newest events first.
unfoldable pub audit_events : Env → ℕ → Db → Result DbError (List AiAuditEvent)
audit_events e limit db = query e list_audit (ok (take limit db.audit))
