-- ===== src/Db/Users.antt =====
-- internal/db/users.sql.go: the queries on `tenants` and `users`, with the unique columns of
-- migrations/00008_tenants_users.sql.
use opord_ai_demo.Base.{ℕ, String, List, ◌∷◌, Result, ok, err, if◌then◌else◌, find, any, ◌==◌, ◌=?◌}
use opord_ai_demo.Db.{
  Env, Db, DbError, violation, query, first_row, write, fresh, create_tenant, get_tenant,
  get_tenant_by_name, list_tenants, create_user, get_user_by_api_key_hash, list_users,
}
use opord_ai_demo.Db.Rows.{Tenant, User}

unfoldable pub create_tenant_row : Env → String → Db → Result DbError Tenant × Db
create_tenant_row e name db = write e create_tenant db (
    if any (λ (t : Tenant). t.name == name) db.tenants
    then (err violation, db)
    else let t : Tenant = record { id = fresh db; name = name } in
      (ok t, record db { next_id = fresh db; tenants = t ∷ db.tenants }))

unfoldable pub tenant_by_id : Env → ℕ → Db → Result DbError Tenant
tenant_by_id e id db = query e get_tenant (first_row (find (λ (t : Tenant). t.id =? id) db.tenants))

unfoldable pub tenant_by_name : Env → String → Db → Result DbError Tenant
tenant_by_name e name db =
    query e get_tenant_by_name (first_row (find (λ (t : Tenant). t.name == name) db.tenants))

unfoldable pub all_tenants : Env → Db → Result DbError (List Tenant)
all_tenants e db = query e list_tenants (ok db.tenants)

unfoldable pub create_user_row : Env → String → ℕ → String → String → Db → Result DbError User × Db
create_user_row e email tenant_id role hash db = write e create_user db (
    if any (λ (u : User). u.email == email) db.users
    then (err violation, db)
    else let u : User = record {
      id = fresh db;
      email = email;
      tenant_id = tenant_id;
      role = role;
      api_key_hash = hash;
    } in
      (ok u, record db { next_id = fresh db; users = u ∷ db.users }))

unfoldable pub user_by_hash : Env → String → Db → Result DbError User
user_by_hash e hash db =
    query e get_user_by_api_key_hash
      (first_row (find (λ (u : User). u.api_key_hash == hash) db.users))

unfoldable pub all_users : Env → Db → Result DbError (List User)
all_users e db = query e list_users (ok db.users)
