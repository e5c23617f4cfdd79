-- ===== src/Access.antt =====
-- Access that was granted, in internal/orchestrator/ai.go: RevokeAIInstance,
-- ReapExpiredAIInstances, RecertifyAIInstance and ListAIAccessReview, and the other listings. A day is
-- 24 hours.
pub mod Revoke
pub mod Reap
pub mod Sweep
pub mod Expired
pub mod Listings
pub mod Renewals
use opord_ai_demo.Base.{
  ℕ, zero, suc, ◌+◌, ◌*◌, ◌-◌, ◌/◌, String, Bool, false, Option, none, some, List, [], ◌∷◌, Result,
  ok, err, Exec, pure, fail, guard, perform, reading, writing, ◌>>=◌, ◌>>◌, if◌then◌else◌, ◌==◌,
  ◌||◌, ◌&&◌, leb, ltb,
}
use opord_ai_demo.Base.Int.{ℤ, pos, negsuc, ◌-ℤ◌, leb_ℤ}
use opord_ai_demo.Json.{Fields}
use opord_ai_demo.Db.{Env, Db, DbError}
use opord_ai_demo.Db.Rows.{AiProvider, AiServiceInstance}
use opord_ai_demo.Db.Governance.{all_instances}
use opord_ai_demo.Db.Access.{
  instance_by_id, service_by_id, provider_by_id, revoke_instance_row, recertify_instance_row,
}
use opord_ai_demo.Tenant.{scope_tenant, may_see, visible_rows, emit_audit}
use opord_ai_demo.Providers.Adapter.{Credentials, Wiring}
use opord_ai_demo.Providers.Config.{ai_provider_config}
use opord_ai_demo.Providers.{ai_credentials}
use opord_ai_demo.Provision.Minted.{minted_key_path, read_minted_key}

-- aiproviders.RevokeRequest
pub record RevokeRequest : Type 0 where
  pub instance_id : ℕ
  pub provider_access_id : String
  pub credentials : Credentials
  pub config : Fields

-- What the code uses of the adapters (internal/aiproviders) and the secret store: whether there is
-- an adapter for a provider's type, and whether it confirms a revocation.
pub record Adapters : Type 0 where
  pub wiring : Wiring
  pub has_adapter : String → Bool
  pub revokes : String → RevokeRequest → Bool

-- The provider's secrets, and the minted key where the store still has it.
abbrev pub with_minted_key : String → Credentials → Credentials
with_minted_key key creds = if key == "" then creds else ("minted_key", key) ∷ creds

unfoldable pub revoke_request : Env → Adapters → AiProvider → AiServiceInstance → Db → RevokeRequest
revoke_request e ad p i db = record {
  instance_id = i.id;
  provider_access_id = i.provider_access_id;
  credentials =
      with_minted_key (read_minted_key ad.wiring (minted_key_path i.observed))
        (ai_credentials e ad.wiring p db);
  config = ai_provider_config p;
}

pub data AccessError : Type 0 where
  hidden no_adapter revoke_failed : AccessError
  not_live : String → AccessError
  not_found load_failed record_failed list_failed : DbError → AccessError

-- Revocable, recertifiable, and on the access review.
unfoldable pub is_live : String → Bool
is_live status = status == "active" || status == "suspended"

-- The adapter's answer; a refusal is audited and ends the handler.
unfoldable pub revoke_access :
    Env → Adapters → AiProvider → AiServiceInstance → String → Exec Db AccessError (Unit {0})
revoke_access e ad p i actor db =
    if ad.revokes p.type (revoke_request e ad p i db)
    then (ok tt, db)
    else (err revoke_failed, emit_audit e "ai_instance" i.id "revoke_failed" actor db)

unfoldable pub revoke_ai_instance :
    Env → Adapters → ℕ → String → Exec Db AccessError AiServiceInstance
revoke_ai_instance e ad id actor = do
  inst ← reading (instance_by_id e id) not_found
  guard (may_see (scope_tenant e) inst.tenant_id) hidden
  guard (is_live inst.status) (not_live inst.status)
  service ← reading (service_by_id e inst.service_id) load_failed
  provider ← reading (provider_by_id e service.provider_id) load_failed
  guard (ad.has_adapter provider.type) no_adapter
  revoke_access e ad provider inst actor
  gone ← writing (revoke_instance_row e inst.id) record_failed
  perform (emit_audit e "ai_instance" inst.id "revoked" actor)
  pure gone

-- `r.ExpiresAt.Valid && !r.ExpiresAt.Time.After(now)`
abbrev pub is_past : ℕ → Option ℕ → Bool
is_past now none = false
is_past now (some t) = leb t now

-- A row that the reaper revokes.
unfoldable pub is_due : ℕ → AiServiceInstance → Bool
is_due now i = is_live i.status && is_past now i.expires_at

-- After one revocation: a success is audited and counted, a failure is skipped.
abbrev pub tally : Env → ℕ → Result AccessError AiServiceInstance × Db → ℕ × Db
tally e id (ok i, db) = (1, emit_audit e "ai_instance" id "expired" "system-expiry" db)
tally e id (err x, db) = (0, db)

unfoldable pub reap_one : Env → Adapters → AiServiceInstance → Db → ℕ × Db
reap_one e ad r db =
    if is_due e.now r
    then tally e r.id (revoke_ai_instance e ad r.id "system-expiry" db)
    else (0, db)

unfoldable pub reap_all : Env → Adapters → List AiServiceInstance → Db → ℕ × Db
reap_all e ad [] db = (0, db)
reap_all e ad (r ∷ rs) db =
    let (n, db') = reap_one e ad r db in let (m, db'') = reap_all e ad rs db' in (n + m, db'')

-- The rows are those at the start of the run.
unfoldable pub reap_expired_ai_instances : Env → Adapters → Exec Db AccessError ℕ
reap_expired_ai_instances e ad = do
  rows ← reading (all_instances e) list_failed
  λ db. let (n, db') = reap_all e ad rows db in (ok n, db')

abbrev pub day : ℕ
day = 86400000000000

-- A number of days from outside, 90 where it is not positive.
unfoldable pub days_or_default : ℤ → ℕ
days_or_default (pos zero) = 90
days_or_default (pos (suc n)) = suc n
days_or_default (negsuc n) = 90

unfoldable pub recertify_ai_instance : Env → ℕ → ℤ → String → Exec Db AccessError AiServiceInstance
recertify_ai_instance e id extend_days actor = do
  inst ← reading (instance_by_id e id) not_found
  guard (may_see (scope_tenant e) inst.tenant_id) hidden
  guard (is_live inst.status) (not_live inst.status)
  updated ←
      writing (recertify_instance_row e id (e.now + days_or_default extend_days * day))
        record_failed
  perform (emit_audit e "ai_instance" id "recertified" actor)
  pure updated

pub data Flag : Type 0 where
  fine no_expiry overdue expiring_soon long_lived : Flag

-- Whole days since the grant, towards zero.
unfoldable pub age_days : ℕ → AiServiceInstance → ℤ
age_days now i = pos ((now - i.created_at) / day) -ℤ pos ((i.created_at - now) / day)

unfoldable pub dated_flag : ℕ → ℕ → ℤ → ℕ → Flag
dated_flag now stale_days age t =
    if ltb t now
    then overdue
    else if ltb t (now + stale_days * day)
    then expiring_soon
    else if leb_ℤ (pos stale_days) age
    then long_lived
    else fine

unfoldable pub flag_of : ℕ → ℕ → AiServiceInstance → Flag
flag_of now stale_days i = elim i.expires_at [
  | none ↦ no_expiry
  | some t ↦ dated_flag now stale_days (age_days now i) t
]

pub record AccessReviewItem : Type 0 where
  pub instance : AiServiceInstance
  pub flag : Flag
  pub age : ℤ

unfoldable pub review_items : ℕ → ℕ → List AiServiceInstance → List AccessReviewItem
review_items now stale_days [] = []
review_items now stale_days (i ∷ is) =
    let rest = review_items now stale_days is in
    if is_live i.status
    then record { instance = i; flag = flag_of now stale_days i; age = age_days now i } ∷ rest
    else rest

-- ListAIInstances
unfoldable pub list_ai_instances : Env → Exec Db AccessError (List AiServiceInstance)
list_ai_instances e = do
  rows ← reading (all_instances e) list_failed
  pure (visible_rows (λ (i : AiServiceInstance). i.tenant_id) (scope_tenant e) rows)

unfoldable pub list_ai_access_review : Env → ℤ → Exec Db AccessError (List AccessReviewItem)
list_ai_access_review e stale_days = do
  rows ← list_ai_instances e
  pure (review_items e.now (days_or_default stale_days) rows)
