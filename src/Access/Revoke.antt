-- ===== src/Access/Revoke.antt =====
-- What RevokeAIInstance does to the instances, on every branch.
use opord_ai_demo.Base.{
  ℕ, String, true, some, ◌≡◌, refl, sym, ap, ◌∙◌, ◌⊎◌, inl, inr, Result, ok, err, find, find-In,
  find-update_where, update_where, =?_iff, Bool-cases, Result-cases, arith,
}
use opord_ai_demo.Db.{Env, Db, failed, revoke_instance}
use opord_ai_demo.Db.Rows.{AiProvider, AiService, AiServiceInstance}
use opord_ai_demo.Db.Access.{
  instance_by_id, service_by_id, provider_by_id, revoke_instance_row, with_id, revoked,
}
use opord_ai_demo.Tenant.{scope_tenant, may_see, emit_audit}
use opord_ai_demo.Access.{
  Adapters, AccessError, revoke_request, not_live, is_live, revoke_access, revoke_ai_instance,
}

pub emit_audit-instances :
    (e : Env) (t : String) (id : ℕ) (action by : String) (db : Db)
    → (emit_audit e t id action by db).instances ≡ db.instances
unfolding emit_audit
emit_audit-instances e t id action by db = ground arith

read_row :
    (e : Env) (id : ℕ) (i : AiServiceInstance) (db : Db)
    → instance_by_id e id db ≡ ok i
    → find (with_id id) db.instances ≡ some i
unfolding instance_by_id
read_row e id i db found = ground arith

pub found_id :
    (e : Env) (id : ℕ) (i : AiServiceInstance) (db : Db) → instance_by_id e id db ≡ ok i → i.id ≡ id
found_id e id i db found =
    (=?_iff i.id id).0 (find-In (with_id id) i db.instances (read_row e id i db found)).1

-- The row that was read is the one that is written.
revoke_instance_row-found :
    (e : Env) (id : ℕ) (i : AiServiceInstance) (db : Db)
    → instance_by_id e id db ≡ ok i
    → (revoke_instance_row e i.id db ≡ (err failed, db))
      ⊎ (revoke_instance_row e i.id db ≡ (
        ok (revoked e i),
        record db { instances = update_where (with_id i.id) (revoked e) db.instances },
      ))
unfolding revoke_instance_row
revoke_instance_row-found e id i db found = elim (Bool-cases (e.fails revoke_instance)) [
  | inl down ↦ inl (rw down refl)
  | inr up ↦
      let here : find (with_id i.id) db.instances ≡ some i =
        ap (λ n. find (with_id n) db.instances) (found_id e id i db found)
        ∙ read_row e id i db found in
      inr (ground (arith, up, here))
]

-- The instance was live and the caller's to see, and the adapter of the provider that its service
-- is stored with confirmed the revocation.
abbrev pub Confirmed : Env → Adapters → AiServiceInstance → Db → Type 0
Confirmed e ad i db =
    (may_see (scope_tenant e) i.tenant_id ≡ true)
    × (is_live i.status ≡ true)
    × ((s : AiService) × (service_by_id e i.service_id db ≡ ok s)
        × ((p : AiProvider) × (provider_by_id e s.provider_id db ≡ ok p)
            × (ad.has_adapter p.type ≡ true)
            × (ad.revokes p.type (revoke_request e ad p i db) ≡ true)))

abbrev pub Revoked : Env → Adapters → ℕ → Db → Result AccessError AiServiceInstance × Db → Type 0
Revoked e ad id db out =
    ((x : AccessError) × (out.0 ≡ err x) × (out.1.instances ≡ db.instances))
    ⊎ ((i : AiServiceInstance) × (instance_by_id e id db ≡ ok i)
        × Confirmed e ad i db
        × (out.0 ≡ ok (revoked e i))
        × (out.1.instances ≡ update_where (with_id i.id) (revoked e) db.instances))

-- RevokeAIInstance either fails and leaves every instance as it was, or the instance is live and the
-- caller may see it, the adapter of the provider of its service has confirmed its revocation, asked
-- with the provider's credentials and the minted key, and that row alone is marked.
pub revoke_ai_instance_outcome :
    (e : Env) (ad : Adapters) (id : ℕ) (actor : String) (db : Db)
    → Revoked e ad id db (revoke_ai_instance e ad id actor db)
unfolding revoke_ai_instance revoke_access
revoke_ai_instance_outcome e ad id actor db = elim (Result-cases (instance_by_id e id db)) [
  | inr (x, missing) ↦ rw missing (inl (_, refl, refl))
  | inl (i, found) ↦ elim (Bool-cases (may_see (scope_tenant e) i.tenant_id)) [
    | inr unseen ↦ rw (found, unseen) (inl (_, refl, refl))
    | inl seen ↦ elim (Bool-cases (is_live i.status)) [
      | inr dead ↦ rw (found, seen, dead) (inl (_, refl, refl))
      | inl live ↦ elim (Result-cases (service_by_id e i.service_id db)) [
        | inr (x, missing) ↦ rw (found, seen, live, missing) (inl (_, refl, refl))
        | inl (s, service) ↦ elim (Result-cases (provider_by_id e s.provider_id db)) [
          | inr (x, missing) ↦ rw (found, seen, live, service, missing) (inl (_, refl, refl))
          | inl (p, provider) ↦ elim (Bool-cases (ad.has_adapter p.type)) [
            | inr none_known ↦
                rw (found, seen, live, service, provider, none_known) (inl (_, refl, refl))
            | inl known ↦ elim (Bool-cases (ad.revokes p.type (revoke_request e ad p i db))) [
              | inr refused ↦
                  rw (found, seen, live, service, provider, known, refused)
                    (inl (_, refl, emit_audit-instances e _ _ _ _ db))
              | inl confirmed ↦ elim (revoke_instance_row-found e id i db found) [
                | inl down ↦
                    rw (found, seen, live, service, provider, known, confirmed, down)
                      (inl (_, refl, refl))
                | inr written ↦
                    rw (found, seen, live, service, provider, known, confirmed, written)
                      (inr (
                        i,
                        refl,
                        (seen, live, (s, service, (p, provider, known, confirmed))),
                        refl,
                        emit_audit-instances e _ _ _ _ _,
                      ))
              ]
            ]
          ]
        ]
      ]
    ]
  ]
]

-- The row as it is read after the revocation.
revoked_row :
    (e : Env) (id : ℕ) (i : AiServiceInstance) (db db' : Db)
    → instance_by_id e id db ≡ ok i
    → db'.instances ≡ update_where (with_id i.id) (revoked e) db.instances
    → instance_by_id e id db' ≡ ok (revoked e i)
unfolding instance_by_id
revoked_row e id i db db' found written =
    let there : find (with_id id) db'.instances ≡ some (revoked e i) =
      ap (find (with_id id)) written
      ∙ (ap (λ n. find (with_id id) (update_where (with_id n) (revoked e) db.instances))
            (found_id e id i db found)
          ∙ find-update_where (with_id id) (revoked e) i db.instances (λ x. refl)
              (read_row e id i db found)) in
    ground (arith, there)

again_refused :
    (e : Env) (ad : Adapters) (id : ℕ) (actor : String) (i : AiServiceInstance) (db : Db)
    → instance_by_id e id db ≡ ok (revoked e i)
    → may_see (scope_tenant e) i.tenant_id ≡ true
    → revoke_ai_instance e ad id actor db ≡ (err (not_live "revoked"), db)
unfolding revoke_ai_instance is_live
again_refused e ad id actor i db found seen = rw (found, seen) refl

-- An instance is revoked once: after RevokeAIInstance succeeds, a second call is refused because
-- the instance is revoked, and changes nothing.
pub revoke_ai_instance_once :
    (e : Env) (ad : Adapters) (id : ℕ) (actor again : String) (db db' : Db)
    (gone : AiServiceInstance)
    → revoke_ai_instance e ad id actor db ≡ (ok gone, db')
    → revoke_ai_instance e ad id again db' ≡ (err (not_live "revoked"), db')
revoke_ai_instance_once e ad id actor again db db' gone done =
    elim (revoke_ai_instance_outcome e ad id actor db) [
      | inl (x, failure, same) ↦ absurd (cc (failure, ap (λ r. r.0) done))
      | inr (i, found, ok_to, made, written) ↦
          again_refused e ad id again i db'
            (revoked_row e id i db db' found (sym (ap (λ r. r.1.instances) done) ∙ written)) ok_to.0
    ]
