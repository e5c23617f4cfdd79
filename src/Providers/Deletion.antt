-- ===== src/Providers/Deletion.antt =====
-- What DeleteAIProvider leaves of the granted access.
use opord_ai_demo.Base.{
  ℕ, String, Bool, true, false, List, [], ◌∷◌, ◌≡◌, inl, inr, ok, ◌&&◌, ◌=?◌, =?_iff, writing, In,
  In-select←, not, arith,
}
use opord_ai_demo.Base.Keeps.{after, after_guard, after_reading}
use opord_ai_demo.Db.{Env, Db}
use opord_ai_demo.Db.Rows.{AiServiceInstance}
use opord_ai_demo.Db.Providers.{
  provider_by_name, is_served_by, holds_access, count, count_active_by_provider,
  delete_instances_by_provider, delete_provider_row,
}
use opord_ai_demo.Tenant.{scope_tenant, emit_audit}
use opord_ai_demo.Providers.{not_found, count_failed, delete_failed, may_use, delete_ai_provider}

-- Nothing counted, nothing there.
count_zero :
    (p : AiServiceInstance → Bool) (i : AiServiceInstance) (is : List AiServiceInstance)
    → count p is ≡ 0
    → In i is
    → p i ≡ false
unfolding count
count_zero p i [] none_left m = elim m [ ]
count_zero p i (j ∷ is) none_left (inl here) = ground arith
count_zero p i (j ∷ is) none_left (inr later) = ground (arith, count_zero p i is)

unfoldable Remains : AiServiceInstance → Db → Type 0
Remains i db = In i db.instances

counted_none :
    (e : Env) (id n : ℕ) (i : AiServiceInstance) (db : Db)
    → Remains i db
    → count_active_by_provider e id db ≡ ok n
    → (n =? 0) ≡ true
    → holds_access i ≡ true
    → is_served_by db.services id i ≡ false
unfolding Remains count_active_by_provider
counted_none e id n i db there counted zero live =
    let idle =
      count_zero (λ i. is_served_by db.services id i && holds_access i) i db.instances
        (ground (arith, =?_iff n 0)) there in
    ground arith

emptied-Remains :
    (e : Env) (id : ℕ) (i : AiServiceInstance) (db : Db)
    → is_served_by db.services id i ≡ false
    → Remains i db
    → Remains i (delete_instances_by_provider e id db).1
unfolding Remains delete_instances_by_provider
emptied-Remains e id i db other there =
    let kept =
      In-select← (λ j. not (is_served_by db.services id j)) i db.instances there (ground arith) in
    ground arith

gone-Remains :
    (e : Env) (id : ℕ) (i : AiServiceInstance) (db : Db)
    → Remains i db
    → Remains i (delete_provider_row e id db).1
unfolding Remains delete_provider_row
gone-Remains e id i db there = ground arith

audited-Remains :
    (e : Env) (t : String) (id : ℕ) (action by : String) (i : AiServiceInstance) (db : Db)
    → Remains i db
    → Remains i (emit_audit e t id action by db)
unfolding Remains emit_audit
audited-Remains e t id action by i db there = ground arith

kept_access :
    (e : Env) (name : String) (i : AiServiceInstance) (db : Db)
    → holds_access i ≡ true
    → Remains i db
    → Remains i (delete_ai_provider e name db).1
unfolding delete_ai_provider
kept_access e name i db live there =
    after_reading (Remains i) (provider_by_name e name) not_found _ there (λ p _.
      after_guard (Remains i) (may_use (scope_tenant e) p) _ _ there (λ _.
        after_reading (Remains i) (count_active_by_provider e p.id) count_failed _ there
          (λ n counted. after_guard (Remains i) (n =? 0) _ _ there (λ zero.
            after (Remains i) (writing (delete_instances_by_provider e p.id) delete_failed) _
              (emptied-Remains e p.id i db (counted_none e p.id n i db there counted zero live)
                there)
              (λ _ s emptied.
                after (Remains i) (writing (delete_provider_row e p.id) delete_failed) _
                  (gone-Remains e p.id i s emptied)
                  (λ _ t gone. audited-Remains e "ai_provider" p.id "deleted" "" i t gone))))))

-- DeleteAIProvider, whether it succeeds or fails, removes no instance that is active or suspended.
pub delete_ai_provider-holds_access :
    (e : Env) (name : String) (i : AiServiceInstance) (db : Db)
    → In i db.instances
    → holds_access i ≡ true
    → In i (delete_ai_provider e name db).1.instances
unfolding Remains
delete_ai_provider-holds_access e name i db there live = kept_access e name i db live there
