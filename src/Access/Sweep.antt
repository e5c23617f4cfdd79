-- ===== src/Access/Sweep.antt =====
-- A run of the reaper on a working system, as what it does to the list of instances.
use opord_ai_demo.Base.{
  ℕ, String, true, false, none, some, List, [], ◌∷◌, ◌≡◌, refl, sym, ap, ◌∙◌, inl, inr, ok,
  if◌then◌else◌, All, All-zip, find, find-update_where_other, update_where, ◌=?◌, Bool-cases, arith,
}
use mathlib.Core.Path.{subst}
use opord_ai_demo.Db.{
  Env, Db, Query, get_instance, get_service, get_provider, revoke_instance, create_audit_event,
}
use opord_ai_demo.Db.Rows.{AiProvider, AiService, AiServiceInstance}
use opord_ai_demo.Db.Access.{
  instance_by_id, service_by_id, provider_by_id, revoke_instance_row, with_id, revoked,
}
use opord_ai_demo.Tenant.{scope_tenant, may_see, emit_audit}
use opord_ai_demo.Access.{
  Adapters, RevokeRequest, revoke_request, is_due, is_live, revoke_access, reap_one, reap_all,
  revoke_ai_instance,
}

-- No query fails, the run is nobody's in particular, and every adapter is there and confirms.
pub record Working (e : Env) (ad : Adapters) : Type 0 where
  pub no_fail : (q : Query) → e.fails q ≡ false
  pub unscoped : scope_tenant e ≡ none
  pub adapters : (t : String) → ad.has_adapter t ≡ true
  pub confirms : (t : String) (req : RevokeRequest) → ad.revokes t req ≡ true

-- The foreign keys of an instance.
abbrev pub Backed : List AiService → List AiProvider → AiServiceInstance → Type 0
Backed services providers i =
    (s : AiService) × (find (λ (s : AiService). s.id =? i.service_id) services ≡ some s)
    × ((p : AiProvider) × (find (λ (p : AiProvider). p.id =? s.provider_id) providers ≡ some p))

-- The primary key: no two rows have one id.
abbrev pub Keyed : List AiServiceInstance → Type 0
Keyed [] = Unit
Keyed (x ∷ xs) = All (λ y. (y.id =? x.id) ≡ false) xs × Keyed xs

-- A look-up by its id finds the row.
abbrev pub Found : List AiServiceInstance → AiServiceInstance → Type 0
Found xs r = find (with_id r.id) xs ≡ some r

pub Keyed-Found : (xs : List AiServiceInstance) → Keyed xs → All (Found xs) xs
unfolding find
Keyed-Found [] keyed = tt
Keyed-Found (x ∷ xs) keyed = (
  ground arith,
  All-zip (λ y. (y.id =? x.id) ≡ false) (Found xs) (Found (x ∷ xs)) xs
      (λ y other found. ground arith) keyed.0 (Keyed-Found xs keyed.1),
)

live_of : (now : ℕ) (r : AiServiceInstance) → is_due now r ≡ true → is_live r.status ≡ true
unfolding is_due
live_of now r due = ground arith

abbrev Swept : Env → AiServiceInstance → Db → Db → Type 0
Swept e r db db' =
    (db'.instances ≡ update_where (with_id r.id) (revoked e) db.instances)
    × (db'.services ≡ db.services)
    × (db'.providers ≡ db.providers)

row_written :
    (e : Env) (r : AiServiceInstance) (db : Db)
    → e.fails revoke_instance ≡ false
    → Found db.instances r
    → revoke_instance_row e r.id db ≡ (
      ok (revoked e r),
      record db { instances = update_where (with_id r.id) (revoked e) db.instances },
    )
unfolding revoke_instance_row
row_written e r db up found = ground arith

row_read :
    (e : Env) (r : AiServiceInstance) (db : Db)
    → e.fails get_instance ≡ false
    → Found db.instances r
    → instance_by_id e r.id db ≡ ok r
unfolding instance_by_id
row_read e r db up found = ground arith

reap_one_due :
    (e : Env) (ad : Adapters) (r : AiServiceInstance) (db : Db)
    → Working e ad
    → Found db.instances r
    → Backed db.services db.providers r
    → is_due e.now r ≡ true
    → Swept e r db (reap_one e ad r db).1
unfolding reap_one revoke_ai_instance revoke_access service_by_id provider_by_id may_see emit_audit
reap_one_due e ad r db w found (s, service, (p, provider)) due =
    rw
      (
        due,
        row_read e r db (w.no_fail get_instance) found,
        w.unscoped,
        live_of e.now r due,
        w.no_fail get_service,
        service,
        w.no_fail get_provider,
        provider,
        w.adapters p.type,
        w.confirms p.type (revoke_request e ad p r db),
        row_written e r db (w.no_fail revoke_instance) found,
        w.no_fail create_audit_event,
      )
      (refl, refl, refl)

-- What the rows, taken one after another, do to the instances.
unfoldable pub sweep :
    Env → List AiServiceInstance → List AiServiceInstance → List AiServiceInstance
sweep e [] xs = xs
sweep e (r ∷ rs) xs =
    sweep e rs (if is_due e.now r then update_where (with_id r.id) (revoked e) xs else xs)

-- A revocation of another row leaves a row to be found.
Found-update_where :
    (e : Env) (r : AiServiceInstance) (xs rs : List AiServiceInstance)
    → All (λ y. (y.id =? r.id) ≡ false) rs
    → All (Found xs) rs
    → All (Found (update_where (with_id r.id) (revoked e) xs)) rs
Found-update_where e r xs rs =
    All-zip (λ y. (y.id =? r.id) ≡ false) (Found xs)
      (Found (update_where (with_id r.id) (revoked e) xs)) rs
      (λ y other found.
        find-update_where_other (with_id r.id) (with_id y.id) (revoked e) xs (λ x. refl)
          (λ x hit. ground arith)
        ∙ found)

reap_one_later :
    (e : Env) (ad : Adapters) (r : AiServiceInstance) (db : Db)
    → is_due e.now r ≡ false
    → (reap_one e ad r db).1 ≡ db
unfolding reap_one
reap_one_later e ad r db later = rw later refl

pub reap_all-sweep :
    (e : Env) (ad : Adapters) (rs : List AiServiceInstance) (db : Db)
    → Working e ad
    → Keyed rs
    → All (Found db.instances) rs
    → All (Backed db.services db.providers) rs
    → (reap_all e ad rs db).1.instances ≡ sweep e rs db.instances
unfolding reap_all sweep
reap_all-sweep e ad [] db w keyed found backed = refl
reap_all-sweep e ad (r ∷ rs) db w keyed found backed = elim (Bool-cases (is_due e.now r)) [
  | inr later ↦
      rw (reap_one_later e ad r db later, later)
        (reap_all-sweep e ad rs db w keyed.1 found.1 backed.1)
  | inl due ↦
      let db' = (reap_one e ad r db).1 in
      let (written, services, providers) = reap_one_due e ad r db w found.0 backed.0 due in
      let found' : All (Found db'.instances) rs =
        subst (λ xs. All (Found xs) rs) (sym written)
          (Found-update_where e r db.instances rs keyed.0 found.1) in
      let backed' : All (Backed db'.services db'.providers) rs =
        subst (λ ss. All (Backed ss db'.providers) rs) (sym services)
          (subst (λ ps. All (Backed db.services ps) rs) (sym providers) backed.1) in
      rw due (reap_all-sweep e ad rs db' w keyed.1 found' backed' ∙ ap (sweep e rs) written)
]
