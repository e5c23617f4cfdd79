-- ===== src/Admin/Answers.antt =====
-- The audit event of one administration call, by its answer.
use opord_ai_demo.Base.{
  String, Option, none, some, ◌≡◌, refl, ◌⊎◌, inl, inr, Result, ok, err, Result-cases, ℕ, Bool,
  true, false, ◌∷◌,
}
use opord_ai_demo.Db.{Env, Db, create_audit_event}
use opord_ai_demo.Db.Rows.{AiProvider}
use opord_ai_demo.Db.Providers.{provider_by_name}
use opord_ai_demo.Tenant.{emit_audit, audit_event}
use opord_ai_demo.Providers.Adapter.{Provider, Wiring, ai_provider}
use opord_ai_demo.Admin.{
  AdminError, Capable, admin_for, looked_up, adapted, capable, answered, admin_write, granted,
  removed,
}
use opord_ai_demo.Admin.Types.{AdminProvisioner}
use opord_ai_demo.Base.Keeps.{reading_outcome}

-- What an administration call answers: whether it succeeds, and the database and the organisation.
abbrev pub Answer : Type 0 → Type 0
Answer Org = Bool × (Db × Org)

abbrev pub answer : {R Org : Type 0} → Result AdminError R × (Db × Org) → Answer Org
answer (ok r, world) = (true, world)
answer (err x, world) = (false, world)

-- An error and nothing changed, or one new audit event about the named provider, whose action is
-- the one for the answer.
unfoldable pub Audited :
    {Org : Type 0} → Env → String → (Bool → String) → Db × Org → Answer Org → Type 0
Audited e name action (db, org) (okay, (db', org')) =
    ((okay ≡ false) × (db' ≡ db) × (org' ≡ org))
    ⊎ ((p : AiProvider) × (provider_by_name e name db ≡ ok p)
        × (db'
            ≡ record db { audit = audit_event e "ai_provider" p.id (action okay) "" ∷ db.audit }))

-- The action of an event, by the success of the call.
abbrev pub either : String → String → Bool → String
either failed done true = done
either failed done false = failed

-- The provider of a capability is the named one.
capable-provider :
    {A : Type 0} (e : Env) (w : Wiring) (db : Db) (p : AiProvider) (a : Option A) (c : Capable A)
    → capable e w db p a ≡ ok c
    → p ≡ c.provider
capable-provider e w db p none c found = absurd (cc found)
capable-provider e w db p (some a) c found = cc found

adapted-provider :
    {A : Type 0} (e : Env) (w : Wiring) (offers : Provider → Option A) (db : Db) (p : AiProvider)
    (prov : Option Provider) (c : Capable A)
    → adapted e w offers db p prov ≡ ok c
    → p ≡ c.provider
adapted-provider e w offers db p none c found = absurd (cc found)
adapted-provider e w offers db p (some prov) c found =
    capable-provider e w db p (offers prov) c found

pub admin_for-provider :
    {A : Type 0} (e : Env) (w : Wiring) (offers : Provider → Option A) (name : String) (db : Db)
    (c : Capable A)
    → admin_for e w offers name db ≡ ok c
    → provider_by_name e name db ≡ ok c.provider
unfolding admin_for
admin_for-provider e w offers name db c found = elim (Result-cases (provider_by_name e name db)) [
  | inr (x, missing) ↦ absurd (cc (found, missing))
  | inl (p, there) ↦
      cc (there, adapted-provider e w offers db p (ai_provider w p.type) c (go there found))
]
  where
    go :
        {p : AiProvider}
        → provider_by_name e name db ≡ ok p
        → looked_up e w offers db (provider_by_name e name db) ≡ ok c
        → adapted e w offers db p (ai_provider w p.type) ≡ ok c
    go h k = cc (h, k)

emitted :
    (e : Env) (t : String) (id : ℕ) (action by : String) (db : Db)
    → e.fails create_audit_event ≡ false
    → emit_audit e t id action by db ≡ record db { audit = audit_event e t id action by ∷ db.audit }
unfolding emit_audit
emitted e t id action by db up = rw up refl

module _ {Org : Type 0} (e : Env) (up : e.fails create_audit_event ≡ false) (w : Wiring)
    (name : String) (db : Db) (org : Org) where
  answered-Audited :
      {R : Type 0} (p : AiProvider) (failed done : String) (out : Option R × Org)
      → provider_by_name e name db ≡ ok p
      → Audited e name (either failed done) (db, org) (answer (answered e p failed done db out))
  unfolding Audited
  answered-Audited p failed done (none, org') found = inr (p, found, emitted e _ _ failed _ db up)
  answered-Audited p failed done (some r, org') found = inr (p, found, emitted e _ _ done _ db up)

  pub unchanged-Audited :
      (action : Bool → String) → Audited e name action (db, org) (false, (db, org))
  unfolding Audited
  unchanged-Audited action = inl (refl, refl, refl)

  pub admin_write-Audited :
      {A R : Type 0} (offers : Provider → Option A) (failed done : String)
      (call : Capable A → Org → Option R × Org)
      → Audited e name
          (either failed done)
          (db, org)
          (answer (admin_write e w offers name failed done call (db, org)))
  unfolding admin_write
  admin_write-Audited offers failed done call =
      reading_outcome (λ out. Audited e name (either failed done) (db, org) (answer out))
        (λ world. admin_for e w offers name world.0) (λ x. x) _ (db, org)
        (λ x. unchanged-Audited (either failed done))
        (λ c found.
          answered-Audited c.provider failed done (call c org)
            (admin_for-provider e w offers name db c found))

  pub granted-Audited :
      (c : Capable (AdminProvisioner Org)) (workspace_id role : String)
      (user : Result AdminError String)
      → provider_by_name e name db ≡ ok c.provider
      → Audited e name
          (either "workspace_grant_failed" "workspace_access_granted")
          (db, org)
          (answer (granted e workspace_id role c (db, org) user))
  unfolding Audited
  granted-Audited c workspace_id role (err x) found =
      inr (c.provider, found, emitted e _ _ "workspace_grant_failed" _ db up)
  granted-Audited c workspace_id role (ok user_id) found =
      answered-Audited c.provider "workspace_grant_failed" "workspace_access_granted" _ found

  pub removed-Audited :
      (c : Capable (AdminProvisioner Org)) (workspace_id : String) (user : Result AdminError String)
      → provider_by_name e name db ≡ ok c.provider
      → Audited e name
          (either "workspace_member_remove_failed" "workspace_member_removed")
          (db, org)
          (answer (removed e workspace_id c (db, org) user))
  removed-Audited c workspace_id (err x) found = unchanged-Audited _
  removed-Audited c workspace_id (ok user_id) found =
      answered-Audited c.provider "workspace_member_remove_failed" "workspace_member_removed" _
        found
