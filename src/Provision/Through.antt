-- ===== src/Provision/Through.antt =====
-- What holds through ProvisionAIRequest: a predicate on the database that its writes keep, which are
-- audit events, usage records, and one instance without its minted secret.
use opord_ai_demo.Base.{
  ℕ, String, Option, none, some, List, [], ◌∷◌, inl, inr, Result, ok, err, writing, ◌||◌, non_empty,
  Bool-cases, Option-cases,
}
use opord_ai_demo.Base.Keeps.{after, after_guard, after_reading}
use opord_ai_demo.Db.{Env, Db}
use opord_ai_demo.Db.Rows.{Request, AiProvider, AiService, AiUsageRecord}
use opord_ai_demo.Db.Access.{provider_by_id, create_instance_row, create_usage_row}
use opord_ai_demo.Tenant.{emit_audit}
use opord_ai_demo.Policy.Rule.{AiReqContext}
use opord_ai_demo.Enforce.{
  Reason, warn_all, block, hard_reasons, soft_reasons, evaluate_ai_governance,
}
use opord_ai_demo.Providers.Adapter.{Provider, UsageRecord, Wiring, ai_provider}
use opord_ai_demo.Provision.{
  ProvisionError, bad_spec, provider_not_found, no_adapter, instance_failed, lookup_ai_service,
  expiry_or_fail,
}
use opord_ai_demo.Provision.Spec.{AiRequestSpec, ai_request_spec_of, Parsers, ai_expires_at}
use opord_ai_demo.Provision.Minted.{strip_minted_secret}
use opord_ai_demo.Provision.Grant.{
  some_or_fail, usage_of, last_day, store_usage, record_ai_usage, audited_error, new_instance,
  owner_of, workspace_of, gate_again, ask_provider, provision_ai_request, grant_access,
}
use opord_ai_demo.Json.{Fields}

module _ (P : Db → Type 0)
    (audit : (e : Env) (t : String) (id : ℕ) (action by : String) (db : Db)
      → P db
      → P (emit_audit e t id action by db))
    (used : (e : Env) (row : AiUsageRecord) (db : Db) → P db → P (create_usage_row e row db).1)
    (granted : (e : Env) (w : Wiring) (req : Request) (s : AiService) (owner workspace : String)
        (until : Option ℕ) (access_id : String) (observed : Fields) (db : Db)
      → P db
      → P
          (create_instance_row e
            (new_instance req s owner workspace until access_id
              (strip_minted_secret e w req.id observed))
            db).1) where
  warned_keeps :
      (e : Env) (owner : String) (reasons : List Reason) (db : Db)
      → P db
      → P (warn_all e owner reasons db)
  unfolding warn_all
  warned_keeps e owner [] db same = same
  warned_keeps e owner (r ∷ reasons) db same =
      warned_keeps e owner reasons _ (audit e _ _ _ _ db same)

  blocked_keeps :
      (e : Env) (owner : String) (reasons : List Reason) (db : Db)
      → P db
      → P (block e owner reasons db).1
  unfolding block
  blocked_keeps e owner [] db same = same
  blocked_keeps e owner (r ∷ reasons) db same = audit e _ _ _ _ db same

  gate_keeps : (e : Env) (rc : AiReqContext) (db : Db) → P db → P (evaluate_ai_governance e rc db).1
  unfolding evaluate_ai_governance
  gate_keeps e rc db same =
      blocked_keeps e rc.owner (hard_reasons e rc db) _
        (warned_keeps e rc.owner (soft_reasons e rc db) db same)

  module _ {A : Type 0} where
    error_keeps :
        (e : Env) (req : Request) (action : String) (out : Result ProvisionError A × Db)
        → P out.1
        → P (audited_error e req action out).1
    error_keeps e req action (ok a, db) same = same
    error_keeps e req action (err x, db) same = audit e _ _ _ _ db same

    option_keeps : (o : Option A) (x : ProvisionError) (db : Db) → P db → P (some_or_fail o x db).1
    option_keeps none x db same = same
    option_keeps (some a) x db same = same

    expiry_keeps : (r : Result (Unit {0}) A) (db : Db) → P db → P (expiry_or_fail r db).1
    expiry_keeps (ok a) db same = same
    expiry_keeps (err u) db same = same

  lookup_keeps :
      (e : Env) (ps : Parsers) (id slug : String) (db : Db)
      → P db
      → P (lookup_ai_service e ps id slug db).1
  unfolding lookup_ai_service
  lookup_keeps e ps id slug db same = elim (Bool-cases (non_empty id)) [
    | inr by_slug ↦ rw by_slug same
    | inl by_id ↦ elim (Option-cases (ps.parse_uuid id)) [
      | inl bad ↦ rw (by_id, bad) same
      | inr (n, parsed) ↦ rw (by_id, parsed) same
    ]
  ]

  usage_keeps :
      (e : Env) (p i : ℕ) (us : List UsageRecord) (db : Db) → P db → P (store_usage e p i us db)
  unfolding store_usage
  usage_keeps e p i [] db same = same
  usage_keeps e p i (u ∷ us) db same =
      usage_keeps e p i us (create_usage_row e (usage_of e p i u) db).1
        (used e (usage_of e p i u) db same)

  recorded_keeps :
      (e : Env) (prov : Provider) (p i : ℕ) (access_id : String) (db : Db)
      → P db
      → P (record_ai_usage e prov p i access_id db)
  unfolding record_ai_usage
  recorded_keeps e prov p i access_id db same =
      elim (Option-cases (prov.get_usage (last_day e access_id))) [
        | inl nothing ↦ rw (record_ai_usage, nothing) same
        | inr (us, got) ↦ rw (record_ai_usage, got) (usage_keeps e p i us db same)
      ]

  gate_again_keeps :
      (e : Env) (req : Request) (s : AiService) (p : AiProvider) (spec : AiRequestSpec) (db : Db)
      → P db
      → P (gate_again e req s p spec db).1
  unfolding gate_again
  gate_again_keeps e req s p spec db same =
      error_keeps e req "provision_blocked" _ (gate_keeps e _ db same)

  ask_keeps :
      (e : Env) (w : Wiring) (req : Request) (s : AiService) (p : AiProvider) (prov : Provider)
      (spec : AiRequestSpec) (until : Option ℕ) (db : Db)
      → P db
      → P (ask_provider e w req s p prov spec until db).1
  unfolding ask_provider
  ask_keeps e w req s p prov spec until db same =
      error_keeps e req "provision_failed" _ (option_keeps _ _ db same)

  -- From the service that was found on.
  found_service :
      (e : Env) (w : Wiring) (ps : Parsers) (req : Request) (spec : AiRequestSpec)
      (found : AiService × AiProvider) (db : Db)
      → P db
      → P (grant_access e w ps req spec found db).1
  unfolding grant_access
  found_service e w ps req spec (service, joined_with) db same =
      after_reading P (provider_by_id e service.provider_id) provider_not_found _ same
        (λ provider _.
          after P (some_or_fail (ai_provider w provider.type) no_adapter) _
            (option_keeps _ _ db same)
            (λ prov s2 same2.
              after P
                (expiry_or_fail
                  (ai_expires_at ps spec.expires_at req.created_at service.default_expiration_days))
                _ (expiry_keeps _ s2 same2)
                (λ until s3 same3.
                  after P (gate_again e req service provider spec) _
                    (gate_again_keeps e req service provider spec s3 same3)
                    (λ _ s4 same4.
                      after P (ask_provider e w req service provider prov spec until) _
                        (ask_keeps e w req service provider prov spec until s4 same4)
                        (λ res s5 same5.
                          let row =
                            new_instance req service (owner_of spec req) (workspace_of spec req)
                              until res.provider_access_id
                              (strip_minted_secret e w req.id res.observed) in
                          after P (writing (create_instance_row e row) instance_failed) _
                            (granted e w req service (owner_of spec req) (workspace_of spec req)
                              until res.provider_access_id res.observed s5 same5)
                            (λ inst s6 same6.
                              audit e "ai_instance" inst.id "created" req.decided_by _ (
                                recorded_keeps e prov provider.id inst.id res.provider_access_id s6
                                  same6)))))))

  -- ProvisionAIRequest keeps what these writes keep.
  pub provisioned_keeps :
      (e : Env) (w : Wiring) (ps : Parsers) (req : Request) (db : Db)
      → P db
      → P (provision_ai_request e w ps req db).1
  unfolding provision_ai_request
  provisioned_keeps e w ps req db same =
      after P (some_or_fail (ai_request_spec_of req.spec) bad_spec) _ (option_keeps _ _ db same)
        (λ spec s0 same0.
          after_guard P (non_empty spec.service_slug || non_empty spec.service_id) _ _ same0 (λ _.
            after P (lookup_ai_service e ps spec.service_id spec.service_slug) _
              (lookup_keeps e ps spec.service_id spec.service_slug s0 same0)
              (λ found s1 same1. found_service e w ps req spec found s1 same1)))
