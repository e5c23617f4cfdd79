-- ===== src/Auth/Bootstrap.antt =====
-- A new user's key is resolved to that user, and the first administrator is made once.
use opord_ai_demo.Base.{
  ◌≡◌, refl, ◌≢◌, String, true, false, Option, some, ok, arith, eq_iff, eq_refl, find,
}
use opord_ai_demo.Db.Users.{tenant_by_id}
use opord_ai_demo.Db.{Env, Db, Identity, get_user_by_api_key_hash}
use opord_ai_demo.Db.Rows.{User}
use opord_ai_demo.Auth.{valid_role}
use opord_ai_demo.Auth.Users.{named, create_user, ensure_initial_admin, resolve_api_key}

module _ (hash_key : String → String) (e : Env) where
  -- Where CreateUser succeeds, the key does not hash to "" and the look-up does not fail, the key
  -- that it returns resolves to a caller with the new user's address, known role and tenant.
  pub resolve_api_key-create_user :
      (random : Option String) (email tenant role : String) (db db' : Db) (u : User)
      (plain : String)
      → create_user hash_key e random email tenant role db ≡ (ok (u, plain), db')
      → hash_key plain ≢ ""
      → e.fails get_user_by_api_key_hash ≡ false
      → (id : Identity) × (resolve_api_key e db' (hash_key plain) ≡ some id)
        × (id.email ≡ email)
        × (id.role ≡ role)
        × (id.tenant_id ≡ u.tenant_id)
        × (valid_role id.role ≡ true)
  unfolding create_user resolve_api_key find
  resolve_api_key-create_user random email tenant role db db' u plain made hashed up = (
    record {
      email = u.email;
      tenant = named (tenant_by_id e u.tenant_id db');
      tenant_id = u.tenant_id;
      role = u.role;
    },
    ground (arith, eq_iff (hash_key plain) "", eq_refl (hash_key plain)),
    ground arith,
    ground arith,
    refl,
    ground arith,
  )

  -- After a run of EnsureInitialAdmin that succeeds, another returns no key and changes nothing.
  pub ensure_initial_admin_once :
      (random again : Option String) (db db' : Db) (plain : String)
      → ensure_initial_admin hash_key e random db ≡ (ok plain, db')
      → ensure_initial_admin hash_key e again db' ≡ (ok "", db')
  unfolding ensure_initial_admin
  ensure_initial_admin_once random again db db' plain first = ground arith
