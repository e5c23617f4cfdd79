-- ===== src/Providers/Imports.antt =====
-- The import of a provider's catalog services: a second one finds nothing to do.
use opord_ai_demo.Base.{
  ℕ, true, false, List, [], ◌∷◌, ◌≡◌, refl, sym, ap, inl, inr, Result, ok, err, Exec, any, All,
  Bool-cases, eq_refl, =?_iff, arith,
}
use mathlib.Core.Path.{subst}
use opord_ai_demo.Db.{Env, Db, DbError, no_rows, violation, failed, create_service}
use opord_ai_demo.Db.Rows.{AiService}
use opord_ai_demo.Db.Providers.{create_service_row, is_slug_of}
use opord_ai_demo.Providers.Adapter.{Service}
use opord_ai_demo.Providers.{
  ProviderError, import_services, service_row, skip_duplicate, service_failed,
}

-- The provider has a service of that slug.
abbrev Stored : ℕ → Db → Service → Type 0
Stored id db s = any (is_slug_of id s.slug) db.services ≡ true

-- An insert keeps the slugs that are there, and adds its own.
Stored-still :
    (e : Env) (id : ℕ) (row : AiService) (s : Service) (db : Db)
    → Stored id db s
    → Stored id (create_service_row e row db).1 s
unfolding create_service_row any
Stored-still e id row s db there = ground arith

Stored-now :
    (e : Env) (id : ℕ) (s : Service) (db : Db)
    → e.fails create_service ≡ false
    → Stored id (create_service_row e (service_row id s) db).1 s
unfolding create_service_row any is_slug_of service_row
Stored-now e id s db up = ground (arith, eq_refl s.slug, =?_iff id id)

skip_keeps :
    (id : ℕ) (s : Service) (next : Exec Db ProviderError (Unit {0}))
    (out : Result DbError AiService × Db)
    → ((db : Db) → Stored id db s → Stored id (next db).1 s)
    → Stored id out.1 s
    → Stored id (skip_duplicate next out).1 s
skip_keeps id s next (ok row, db) h there = h db there
skip_keeps id s next (err violation, db) h there = h db there
skip_keeps id s next (err no_rows, db) h there = there
skip_keeps id s next (err failed, db) h there = there

import_keeps :
    (e : Env) (id : ℕ) (s : Service) (ss : List Service) (db : Db)
    → Stored id db s
    → Stored id (import_services e id ss db).1 s
unfolding import_services
import_keeps e id s [] db there = there
import_keeps e id s (t ∷ ss) db there =
    skip_keeps id s (import_services e id ss) (create_service_row e (service_row id t) db)
      (import_keeps e id s ss) (Stored-still e id (service_row id t) s db there)

-- Where the database does not fail, an insert succeeds or finds a duplicate.
inserted :
    (e : Env) (row : AiService) (db : Db)
    → e.fails create_service ≡ false
    → (next : Exec Db ProviderError (Unit {0}))
    → skip_duplicate next (create_service_row e row db) ≡ next (create_service_row e row db).1
unfolding create_service_row
inserted e row db up next =
    elim (Bool-cases (any (is_slug_of row.provider_id row.slug) db.services)) [
      | inl duplicate ↦ rw (up, duplicate) refl
      | inr new ↦ rw (up, new) refl
    ]

import-All :
    (e : Env) (id : ℕ) (ss : List Service) (db : Db)
    → e.fails create_service ≡ false
    → All (Stored id (import_services e id ss db).1) ss
unfolding import_services
import-All e id [] db up = tt
import-All e id (s ∷ ss) db up =
    let between = (create_service_row e (service_row id s) db).1 in
    let same = inserted e (service_row id s) db up (import_services e id ss) in
    subst (λ (d : Db). All (Stored id d) (s ∷ ss)) (sym (ap (λ r. r.1) same))
      (import_keeps e id s ss between (Stored-now e id s db up), import-All e id ss between up)

Stored-already :
    (e : Env) (id : ℕ) (s : Service) (db : Db)
    → e.fails create_service ≡ false
    → Stored id db s
    → create_service_row e (service_row id s) db ≡ (err violation, db)
unfolding create_service_row service_row
Stored-already e id s db up there = rw (up, there) refl

nothing_to_do :
    (e : Env) (id : ℕ) (ss : List Service) (db : Db)
    → e.fails create_service ≡ false
    → All (Stored id db) ss
    → import_services e id ss db ≡ (ok tt, db)
unfolding import_services
nothing_to_do e id [] db up all = refl
nothing_to_do e id (s ∷ ss) db up all =
    rw (Stored-already e id s db up all.0) (nothing_to_do e id ss db up all.1)

refused_at_once :
    (e : Env) (id : ℕ) (s : Service) (ss : List Service) (db : Db)
    → e.fails create_service ≡ true
    → (import_services e id (s ∷ ss) db).0 ≡ err (service_failed failed)
unfolding import_services create_service_row
refused_at_once e id s ss db down = rw down refl

nothing_yet : (e : Env) (id : ℕ) (db : Db) → import_services e id [] db ≡ (ok tt, db)
unfolding import_services
nothing_yet e id db = refl

-- SyncAIProviderServices is idempotent: once the import of a list of advertised services has
-- succeeded, importing that list again succeeds and changes nothing.
pub import_services_again :
    (e : Env) (id : ℕ) (ss : List Service) (db db' : Db)
    → import_services e id ss db ≡ (ok tt, db')
    → import_services e id ss db' ≡ (ok tt, db')
import_services_again e id [] db db' done = nothing_yet e id db'
import_services_again e id (s ∷ ss) db db' done = elim (Bool-cases (e.fails create_service)) [
  | inl down ↦ absurd (cc (refused_at_once e id s ss db down, ap (λ r. r.0) done))
  | inr up ↦ nothing_to_do e id (s ∷ ss) db' up (
      subst (λ d. All (Stored id d) (s ∷ ss)) (ap (λ r. r.1) done) (import-All e id (s ∷ ss) db up))
]
