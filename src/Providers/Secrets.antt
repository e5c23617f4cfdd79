-- ===== src/Providers/Secrets.antt =====
-- No secret is stored in a provider's configuration.
use opord_ai_demo.Base.{
  ℕ, String, true, false, Option, none, some, List, [], ◌∷◌, ◌≡◌, inl, inr, Result, ok, err, Exec,
  writing, Bool, ◌=?◌, not, non_empty, trim, Option-cases, arith,
}
use opord_ai_demo.Base.Keeps.{after, after_guard, after_reading}
use opord_ai_demo.Json.{obj}
use opord_ai_demo.Db.{Env, Db, DbError, no_rows, violation, failed}
use opord_ai_demo.Db.Rows.{AiProvider, AiService}
use opord_ai_demo.Db.Providers.{
  provider_by_name, create_provider_row, update_provider_row, delete_provider_row,
  delete_instances_by_provider, create_credential_row, count_active_by_provider,
}
use opord_ai_demo.Tenant.{scope_tenant, tenant_for_create}
use opord_ai_demo.Providers.Config.{has_secret_key, ai_provider_config, merge_config}
use opord_ai_demo.Providers.Adapter.{Service, Provider, Wiring, ai_provider}
use opord_ai_demo.Providers.{
  AiProviderInput, UpdateAiProviderInput, ProviderError, create_failed, not_found, ai_credentials,
  or_no_fields, ai_credentials, create_failed, not_found, valid_ai_provider_type, skip_duplicate,
  import_services, sync_services_of, sync_ai_provider_services, first_credential,
  create_ai_provider, rotate_credential, update_ai_provider, delete_ai_provider, update_failed,
  delete_failed, count_failed, may_use, valid_update_status, new_status,
  sync_ai_provider_services_by_name, check_with, adapter_or_fail, check_ai_provider,
}
use opord_ai_demo.Providers.Clean.{
  merge_config-clean, provider_by_name-Clean, create_provider_row-clean, update_provider_row-clean,
  create_service_row-clean, delete_instances_by_provider-clean, delete_provider_row-clean,
  audited-clean, AllClean,
}

skip_duplicate-clean :
    (next : Exec Db ProviderError (Unit {0})) (out : Result DbError AiService × Db)
    → ((db : Db) → AllClean db → AllClean (next db).1)
    → AllClean out.1
    → AllClean (skip_duplicate next out).1
skip_duplicate-clean next (ok s, db) h all = h db all
skip_duplicate-clean next (err violation, db) h all = h db all
skip_duplicate-clean next (err no_rows, db) h all = all
skip_duplicate-clean next (err failed, db) h all = all

import_services-clean :
    (e : Env) (id : ℕ) (ss : List Service) (db : Db)
    → AllClean db
    → AllClean (import_services e id ss db).1
unfolding import_services
import_services-clean e id [] db all = all
import_services-clean e id (s ∷ ss) db all =
    skip_duplicate-clean _ _ (import_services-clean e id ss) (create_service_row-clean e _ db all)

sync_services_of-clean :
    (e : Env) (w : Wiring) (p : AiProvider) (prov : Option Provider) (db : Db)
    → AllClean db
    → AllClean (sync_services_of e w p prov db).1
unfolding sync_services_of
sync_services_of-clean e w p none db all = all
sync_services_of-clean e w p (some prov) db all =
    elim (Option-cases
      (prov.list_available_services (ai_credentials e w p db) (ai_provider_config p))) [
        | inl down ↦ rw (sync_services_of, down) all
        | inr (ss, listed) ↦ rw (sync_services_of, listed) (import_services-clean e p.id ss db all)
      ]

first_credential-clean :
    (e : Env) (p : AiProvider) (input : AiProviderInput) (db : Db)
    → AllClean db
    → AllClean (first_credential e p input db).1
unfolding first_credential create_credential_row AllClean
first_credential-clean e p input db all = ground arith

rotate_credential-clean :
    (e : Env) (id : ℕ) (ref : Option String) (db : Db)
    → AllClean db
    → AllClean (rotate_credential e id ref db).1
unfolding rotate_credential create_credential_row AllClean
rotate_credential-clean e id none db all = all
rotate_credential-clean e id (some ref) db all = ground arith

-- `not b ≡ true` as a guard gives it.
not-true : (b : Bool) → not b ≡ true → b ≡ false
not-true b h = ground arith

create_ai_provider-clean :
    (e : Env) (w : Wiring) (input : AiProviderInput) (db : Db)
    → AllClean db
    → AllClean (create_ai_provider e w input db).1
unfolding create_ai_provider sync_ai_provider_services
create_ai_provider-clean e w input db all =
    after_guard AllClean (non_empty (trim input.name)) _ _ all (λ _.
      after_guard AllClean (valid_ai_provider_type input.type) _ _ all (λ _.
        after_guard AllClean (not (has_secret_key (or_no_fields input.config))) _ _ all (λ plain.
          after AllClean
            (writing
              (create_provider_row e input.name input.type (some (obj (or_no_fields input.config)))
                (tenant_for_create e))
              create_failed)
            _
            (create_provider_row-clean e input.name input.type (or_no_fields input.config)
              (tenant_for_create e) db (not-true _ plain) all)
            (λ p s stored.
              after AllClean (first_credential e p input) _
                (first_credential-clean e p input s stored)
                (λ _ t credited.
                  after AllClean (sync_services_of e w p (ai_provider w p.type)) _
                    (sync_services_of-clean e w p (ai_provider w p.type) t credited)
                    (λ _ u synced. audited-clean e "ai_provider" p.id "registered" "" u synced))))))

update_ai_provider-clean :
    (e : Env) (name : String) (input : UpdateAiProviderInput) (db : Db)
    → AllClean db
    → AllClean (update_ai_provider e name input db).1
unfolding update_ai_provider
update_ai_provider-clean e name input db all =
    after_reading AllClean (provider_by_name e name) not_found _ all (λ p found.
      after_guard AllClean (may_use (scope_tenant e) p) _ _ all (λ _.
        after_guard AllClean (not (has_secret_key (or_no_fields input.config))) _ _ all (λ plain.
          after_guard AllClean (valid_update_status input.status) _ _ all (λ _.
            let merged = merge_config (ai_provider_config p) (or_no_fields input.config) in
            let status = new_status p.status input.status in
            let clean =
              merge_config-clean (ai_provider_config p) (or_no_fields input.config)
                (provider_by_name-Clean e name db all p found) (not-true _ plain) in
            after AllClean
              (writing (update_provider_row e p.id (some (obj merged)) status) update_failed) _
              (update_provider_row-clean e p.id merged status db clean all)
              (λ q s written.
                after AllClean (rotate_credential e p.id input.secret_ref) _
                  (rotate_credential-clean e p.id input.secret_ref s written)
                  (λ _ t rotated. audited-clean e "ai_provider" p.id "updated" "" t rotated))))))

delete_ai_provider-clean :
    (e : Env) (name : String) (db : Db) → AllClean db → AllClean (delete_ai_provider e name db).1
unfolding delete_ai_provider
delete_ai_provider-clean e name db all =
    after_reading AllClean (provider_by_name e name) not_found _ all (λ p _.
      after_guard AllClean (may_use (scope_tenant e) p) _ _ all (λ _.
        after_reading AllClean (count_active_by_provider e p.id) count_failed _ all (λ n _.
          after_guard AllClean (n =? 0) _ _ all (λ _.
            after AllClean (writing (delete_instances_by_provider e p.id) delete_failed) _
              (delete_instances_by_provider-clean e p.id db all)
              (λ _ s emptied.
                after AllClean (writing (delete_provider_row e p.id) delete_failed) _
                  (delete_provider_row-clean e p.id s emptied)
                  (λ _ t gone. audited-clean e "ai_provider" p.id "deleted" "" t gone))))))

sync_by_name-clean :
    (e : Env) (w : Wiring) (name : String) (db : Db)
    → AllClean db
    → AllClean (sync_ai_provider_services_by_name e w name db).1
unfolding sync_ai_provider_services_by_name sync_ai_provider_services
sync_by_name-clean e w name db all =
    after_reading AllClean (provider_by_name e name) not_found _ all (λ p _.
      after AllClean (sync_services_of e w p (ai_provider w p.type)) _
        (sync_services_of-clean e w p (ai_provider w p.type) db all)
        (λ _ s synced. audited-clean e "ai_provider" p.id "synced" "" s synced))

check_with-clean :
    (e : Env) (p : AiProvider) (fine : Bool) (db : Db)
    → AllClean db
    → AllClean (check_with e p fine db).1
unfolding check_with
check_with-clean e p true db all = audited-clean e "ai_provider" p.id "checked" "" db all
check_with-clean e p false db all = audited-clean e "ai_provider" p.id "check_failed" "" db all

adapter_or_fail-clean :
    (prov : Option Provider) (db : Db) → AllClean db → AllClean (adapter_or_fail prov db).1
adapter_or_fail-clean none db all = all
adapter_or_fail-clean (some prov) db all = all

check_ai_provider-clean :
    (e : Env) (w : Wiring) (name : String) (db : Db)
    → AllClean db
    → AllClean (check_ai_provider e w name db).1
unfolding check_ai_provider
check_ai_provider-clean e w name db all =
    after_reading AllClean (provider_by_name e name) not_found _ all (λ p _.
      after AllClean (adapter_or_fail (ai_provider w p.type)) _
        (adapter_or_fail-clean (ai_provider w p.type) db all)
        (λ prov s kept. check_with-clean e p _ s kept))

pub data ProviderOp : Type 0 where
  create : AiProviderInput → ProviderOp
  update : String → UpdateAiProviderInput → ProviderOp
  delete sync check : String → ProviderOp

-- The database after an operation, whatever it answers.
unfoldable pub run : Env → Wiring → ProviderOp → Db → Db
run e w (create input) db = (create_ai_provider e w input db).1
run e w (update name input) db = (update_ai_provider e name input db).1
run e w (delete name) db = (delete_ai_provider e name db).1
run e w (sync name) db = (sync_ai_provider_services_by_name e w name db).1
run e w (check name) db = (check_ai_provider e w name db).1

-- Operations in turn, each by its own caller.
unfoldable pub run_all : List (Env × Wiring × ProviderOp) → Db → Db
run_all [] db = db
run_all ((e, w, op) ∷ ops) db = run_all ops (run e w op db)

run-AllClean :
    (e : Env) (w : Wiring) (op : ProviderOp) (db : Db) → AllClean db → AllClean (run e w op db)
unfolding run
run-AllClean e w (create input) db all = create_ai_provider-clean e w input db all
run-AllClean e w (update name input) db all = update_ai_provider-clean e name input db all
run-AllClean e w (delete name) db all = delete_ai_provider-clean e name db all
run-AllClean e w (sync name) db all = sync_by_name-clean e w name db all
run-AllClean e w (check name) db all = check_ai_provider-clean e w name db all

-- Where no stored configuration has a key that names a secret, none has one after any operations
-- on providers, by any callers, failing or not.
pub run_all-AllClean :
    (ops : List (Env × Wiring × ProviderOp)) (db : Db) → AllClean db → AllClean (run_all ops db)
unfolding run_all
run_all-AllClean [] db all = all
run_all-AllClean ((e, w, op) ∷ ops) db all =
    run_all-AllClean ops (run e w op db) (run-AllClean e w op db all)
