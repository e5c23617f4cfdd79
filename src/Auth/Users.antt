-- ===== src/Auth/Users.antt =====
-- internal/orchestrator/auth.go: tenants, users and the resolution of API keys.
use opord_ai_demo.Base.{
  ℕ, String, Option, none, some, List, [], ◌∷◌, Result, ok, err, Exec, pure, fail, guard, reading,
  writing, ◌>>=◌, ◌>>◌, if◌then◌else◌, ◌==◌, ◌=?◌, non_empty, find,
}
use opord_ai_demo.Db.{Env, Db, DbError, Identity}
use opord_ai_demo.Db.Rows.{Tenant, User}
use opord_ai_demo.Db.Users.{
  create_tenant_row, tenant_by_id, tenant_by_name, all_tenants, create_user_row, user_by_hash,
  all_users,
}
use opord_ai_demo.Auth.{valid_role, generate_api_key}

pub data UserError : Type 0 where
  name_required email_required invalid_role no_randomness : UserError
  tenant_not_found create_failed list_failed : DbError → UserError

unfoldable pub create_tenant : Env → String → Exec Db UserError Tenant
unfolding create_tenant_row
create_tenant e name = do
  guard (non_empty name) name_required
  writing (create_tenant_row e name) create_failed

unfoldable pub list_tenants : Env → Db → Result DbError (List Tenant)
unfolding all_tenants
list_tenants e = all_tenants e

-- `hash_key` is sha256 in hexadecimal, and `random` the text of 32 random bytes, if they could be
-- read.
module _ (hash_key : String → String) where
  new_key : Option (String × String) → Exec Db UserError (String × String)
  new_key none = fail no_randomness
  new_key (some k) = pure k

  unfoldable pub create_user :
      Env → Option String → String → String → String → Exec Db UserError (User × String)
  unfolding new_key create_user_row tenant_by_name valid_role generate_api_key
  create_user e random email tenant_name role = do
    guard (non_empty email) email_required
    guard (valid_role role) invalid_role
    t ← reading (tenant_by_name e tenant_name) tenant_not_found
    key ← new_key (generate_api_key hash_key random)
    u ← writing (create_user_row e email t.id role key.1) create_failed
    pure (u, key.0)

  -- EnsureInitialAdmin: the key of the first administrator, "" where there are users already.
  ensure_default_tenant : Env → Result DbError Tenant → Exec Db UserError (Unit {0})
  unfolding create_tenant_row
  ensure_default_tenant e (ok t) = pure tt
  ensure_default_tenant e (err x) = do
    writing (create_tenant_row e "default") create_failed
    pure tt

  first_admin : Env → Option String → List User → Exec Db UserError String
  unfolding create_user ensure_default_tenant tenant_by_name
  first_admin e random (u ∷ us) = pure ""
  first_admin e random [] = λ db.
      (do
        ensure_default_tenant e (tenant_by_name e "default" db)
        made ← create_user e random "admin@opord.local" "default" "admin"
        pure made.1)
        db

  unfoldable pub ensure_initial_admin : Env → Option String → Exec Db UserError String
  unfolding first_admin all_users
  ensure_initial_admin e random = do
    users ← reading (all_users e) list_failed
    first_admin e random users

-- ListUsers pairs each user with the tenant's name, "" for a tenant that is not there.
tenant_name : ℕ → List Tenant → String
tenant_name id ts = elim (find (λ (t : Tenant). t.id =? id) ts) [ none ↦ "" | some t ↦ t.name ]

with_tenants : List Tenant → List User → List (User × String)
unfolding tenant_name
with_tenants ts [] = []
with_tenants ts (u ∷ us) = (u, tenant_name u.tenant_id ts) ∷ with_tenants ts us

unfoldable pub list_users : Env → Exec Db DbError (List (User × String))
unfolding with_tenants all_users all_tenants
list_users e = do
  users ← reading (all_users e) (λ x. x)
  tenants ← reading (all_tenants e) (λ x. x)
  pure (with_tenants tenants users)

pub named : Result DbError Tenant → String
named (ok t) = t.name
named (err x) = ""

identified : Env → Db → Result DbError User → Option Identity
unfolding named tenant_by_id
identified e db (err x) = none
identified e db (ok u) = some (record {
  email = u.email;
  tenant = named (tenant_by_id e u.tenant_id db);
  tenant_id = u.tenant_id;
  role = u.role;
})

-- The auth.Resolver.
unfoldable pub resolve_api_key : Env → Db → String → Option Identity
unfolding identified user_by_hash
resolve_api_key e db hash = if hash == "" then none else identified e db (user_by_hash e hash db)
