-- ===== src/Access/Reap.antt =====
-- ReapExpiredAIInstances takes only what is due, and the access review agrees with it.
use opord_ai_demo.Base.{
  ℕ, ◌+◌, ◌*◌, ◌<◌, String, true, false, some, List, [], ◌∷◌, ◌≡◌, sym, ◌≢◌, inl, inr, Result, ok,
  err, In, In-update_where, All, Bool-cases, arith,
}
use mathlib.Core.Path.{subst}
use opord_ai_demo.Base.Int.{ℤ}
use opord_ai_demo.Db.{Env, Db, list_instances}
use opord_ai_demo.Db.Rows.{AiServiceInstance}
use opord_ai_demo.Db.Governance.{all_instances}
use opord_ai_demo.Db.Access.{recertify_instance_row, with_id, revoked}
use opord_ai_demo.Access.{
  Adapters, AccessError, is_due, is_live, tally, reap_one, reap_all, reap_expired_ai_instances,
  revoke_ai_instance, overdue, flag_of, dated_flag, days_or_default, day, recertify_ai_instance,
}
use opord_ai_demo.Access.Revoke.{
  emit_audit-instances, found_id, Revoked, revoke_ai_instance_outcome,
}

-- A row with another id is not touched by a revocation.
Revoked-In :
    (e : Env) (ad : Adapters) (id : ℕ) (db : Db) (out : Result AccessError AiServiceInstance × Db)
    (j : AiServiceInstance)
    → Revoked e ad id db out
    → j.id ≢ id
    → In j db.instances
    → In j out.1.instances
Revoked-In e ad id db out j (inl (x, failure, same)) other place = subst (In j) (sym same) place
Revoked-In e ad id db out j (inr (i, found, confirmed, made, written)) other place =
    subst (In j) (sym written) (
      In-update_where (with_id i.id) (revoked e) j db.instances place
        (ground (arith, found_id e id i db found)))

tally-In :
    (e : Env) (id : ℕ) (j : AiServiceInstance) (out : Result AccessError AiServiceInstance × Db)
    → In j out.1.instances
    → In j (tally e id out).1.instances
tally-In e id j (ok i, db) place = subst (In j) (sym (emit_audit-instances e _ _ _ _ db)) place
tally-In e id j (err x, db) place = place

reap_one-In :
    (e : Env) (ad : Adapters) (r : AiServiceInstance) (db : Db) (j : AiServiceInstance)
    → (is_due e.now r ≡ true → j.id ≢ r.id)
    → In j db.instances
    → In j (reap_one e ad r db).1.instances
unfolding reap_one
reap_one-In e ad r db j other place = elim (Bool-cases (is_due e.now r)) [
  | inr later ↦ rw later place
  | inl due ↦
      let out = revoke_ai_instance e ad r.id "system-expiry" db in
      rw due (
        tally-In e r.id j out (
          Revoked-In e ad r.id db out j (revoke_ai_instance_outcome e ad r.id "system-expiry" db)
            (other due) place))
]

reap_all-In :
    (e : Env) (ad : Adapters) (rs : List AiServiceInstance) (db : Db) (j : AiServiceInstance)
    → All (λ r. is_due e.now r ≡ true → j.id ≢ r.id) rs
    → In j db.instances
    → In j (reap_all e ad rs db).1.instances
unfolding reap_all
reap_all-In e ad [] db j others place = place
reap_all-In e ad (r ∷ rs) db j others place =
    reap_all-In e ad rs (reap_one e ad r db).1 j others.1 (reap_one-In e ad r db j others.0 place)

-- The reaper leaves an instance as it is unless a row with its id is live and past its expiry.
pub reap_expired_ai_instances-In :
    (e : Env) (ad : Adapters) (db : Db) (j : AiServiceInstance)
    → All (λ r. is_due e.now r ≡ true → j.id ≢ r.id) db.instances
    → In j db.instances
    → In j (reap_expired_ai_instances e ad db).1.instances
unfolding reap_expired_ai_instances all_instances
reap_expired_ai_instances-In e ad db j others place = elim (Bool-cases (e.fails list_instances)) [
  | inl down ↦ rw down place
  | inr up ↦ rw up (reap_all-In e ad db.instances db j others place)
]

days_or_default-positive : (n : ℤ) → 0 < days_or_default n
unfolding days_or_default
days_or_default-positive n = ground arith

-- What the access review flags as overdue, the reaper takes.
pub flag_of-is_due :
    (now stale_days : ℕ) (i : AiServiceInstance)
    → is_live i.status ≡ true
    → flag_of now stale_days i ≡ overdue
    → is_due now i ≡ true
unfolding flag_of dated_flag is_due
flag_of-is_due now stale_days i live flagged = ground arith

-- An instance that RecertifyAIInstance returns expires the given number of days from now, 90 where
-- that is not positive, so it is not due for the reaper.
pub recertify_ai_instance-is_due :
    (e : Env) (id : ℕ) (extend_days : ℤ) (actor : String) (db db' : Db) (i : AiServiceInstance)
    → recertify_ai_instance e id extend_days actor db ≡ (ok i, db')
    → (i.expires_at ≡ some (e.now + days_or_default extend_days * day)) × (is_due e.now i ≡ false)
unfolding recertify_ai_instance recertify_instance_row is_due
recertify_ai_instance-is_due e id extend_days actor db db' i done =
    let until : i.expires_at ≡ some (e.now + days_or_default extend_days * day) = ground arith in
    (until, ground (arith, until, days_or_default-positive extend_days))
