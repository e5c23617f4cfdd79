-- ===== src/Access/Expired.antt =====
-- A run of the reaper on a working system leaves no access that is past its expiry.
use opord_ai_demo.Base.{
  ℕ, true, false, List, [], ◌∷◌, ◌≡◌, refl, sym, inl, inr, In-any, All, All-zip, All-of-In, any,
  update_where, ◌=?◌, ◌&&◌, Bool-cases, arith,
}
use mathlib.Core.Path.{subst}
use opord_ai_demo.Db.{Env, Db, list_instances}
use opord_ai_demo.Db.Rows.{AiServiceInstance}
use opord_ai_demo.Db.Governance.{all_instances}
use opord_ai_demo.Db.Access.{with_id, revoked}
use opord_ai_demo.Access.{Adapters, is_due, is_live, reap_expired_ai_instances}
use opord_ai_demo.Access.Sweep.{Working, Backed, Keyed, Keyed-Found, sweep, reap_all-sweep}

-- A due row has a due row of its id among those to come.
abbrev Covered : ℕ → List AiServiceInstance → AiServiceInstance → Type 0
Covered now rs x = is_due now x ≡ true → any (λ r. is_due now r && x.id =? r.id) rs ≡ true

revoked_not_due : (e : Env) (x : AiServiceInstance) → is_due e.now (revoked e x) ≡ false
unfolding is_due is_live
revoked_not_due e x = refl

Covered-update :
    (e : Env) (r : AiServiceInstance) (rs xs : List AiServiceInstance)
    → All (Covered e.now (r ∷ rs)) xs
    → All (Covered e.now rs) (update_where (with_id r.id) (revoked e) xs)
unfolding update_where any
Covered-update e r rs [] covered = tt
Covered-update e r rs (x ∷ xs) covered = elim (Bool-cases (with_id r.id x)) [
  | inl hit ↦
      rw hit ((λ due. absurd (cc (due, revoked_not_due e x))), Covered-update e r rs xs covered.1)
  | inr miss ↦ rw miss ((λ due. ground (arith, covered.0 due)), Covered-update e r rs xs covered.1)
]

sweep_clean :
    (e : Env) (rs xs : List AiServiceInstance)
    → All (Covered e.now rs) xs
    → All (λ x. is_due e.now x ≡ false) (sweep e rs xs)
unfolding sweep any
sweep_clean e [] xs covered =
    All-zip (Covered e.now []) (Covered e.now []) (λ x. is_due e.now x ≡ false) xs
      (λ x c d. ground (arith, c)) covered covered
sweep_clean e (r ∷ rs) xs covered = elim (Bool-cases (is_due e.now r)) [
  | inl due ↦ rw due (
      sweep_clean e rs (update_where (with_id r.id) (revoked e) xs)
        (Covered-update e r rs xs covered))
  | inr later ↦ rw later (
      sweep_clean e rs xs (
        All-zip (Covered e.now (r ∷ rs)) (Covered e.now (r ∷ rs)) (Covered e.now rs) xs
          (λ x c d due. ground (arith, c due)) covered covered))
]

Covered-self : (now : ℕ) (xs : List AiServiceInstance) → All (Covered now xs) xs
Covered-self now xs =
    All-of-In (Covered now xs) xs
      (λ x m due. In-any (λ r. is_due now r && x.id =? r.id) x xs m (ground arith))

-- Where no query fails, the run has no tenant, every adapter confirms, ids are unique and every
-- instance has its service and provider, no live instance is past its expiry after a run of
-- ReapExpiredAIInstances.
pub reap_expired_ai_instances_complete :
    (e : Env) (ad : Adapters) (db : Db)
    → Working e ad
    → Keyed db.instances
    → All (Backed db.services db.providers) db.instances
    → All (λ i. is_due e.now i ≡ false) (reap_expired_ai_instances e ad db).1.instances
unfolding reap_expired_ai_instances all_instances
reap_expired_ai_instances_complete e ad db w keyed backed = rw (w.no_fail list_instances) (
    subst (All (λ i. is_due e.now i ≡ false))
      (sym (reap_all-sweep e ad db.instances db w keyed (Keyed-Found db.instances keyed) backed))
      (sweep_clean e db.instances db.instances (Covered-self e.now db.instances)))
