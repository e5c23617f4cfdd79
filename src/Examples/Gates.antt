-- ===== src/Examples/Gates.antt =====
-- Runs of the theorems on policies and on the two governance gates.
use opord_ai_demo.Base.{◌≡◌, refl, ◌⊎◌, ◌↔◌, String, true, some, List, [], ◌∷◌, ok, In, All}
use opord_ai_demo.Tenant.{scope_tenant}
use opord_ai_demo.Policy.{list_ai_access_policies}
use opord_ai_demo.Policy.Rule.{match_any}
use opord_ai_demo.Policy.Matching.{Selects, match_any_iff}
use opord_ai_demo.Quota.{list_ai_quotas}
use opord_ai_demo.Budget.Summary.{list_budget_summaries, list_usage_records_again}
use opord_ai_demo.Enforce.{listed, visible_instances, evaluate_ai_governance}
use opord_ai_demo.Enforce.Verdict.{Denies, Blocks, Exhausts, evaluate_ai_governance_ok}
use opord_ai_demo.Enforce.Inert.{with_policy, evaluate_ai_governance_global_policy}
use opord_ai_demo.Enforce.Gateway.{evaluate_gateway_budget}
use opord_ai_demo.Enforce.GatewayVerdict.{GateIsOpen, evaluate_gateway_budget_ok}
use opord_ai_demo.Examples.{env, db, chat_request, no_mock}

match_any_iff_example : (match_any ("OpenAI" ∷ []) ("openai" ∷ []) ≡ true) ↔ (
    (◌≡◌ {A = List String} ("OpenAI" ∷ []) [])
    ⊎ ((p : String) × In p ("OpenAI" ∷ []) × Selects p ("openai" ∷ [])))
match_any_iff_example = match_any_iff ("OpenAI" ∷ []) ("openai" ∷ [])

evaluate_ai_governance_ok_example :
    let blocked = with_policy (record no_mock { tenant_id = some 1 }) db in
    ((evaluate_ai_governance env chat_request blocked).0 ≡ ok tt) ↔ (
      All (λ p. ¬ Denies chat_request p) (listed (list_ai_access_policies env blocked).0)
      × All
          (λ q. ¬ Blocks chat_request (visible_instances env blocked) q)
          (listed (list_ai_quotas env blocked).0)
      × All (λ b. ¬ Exhausts env chat_request b) (listed (list_budget_summaries env blocked).0))
evaluate_ai_governance_ok_example =
    evaluate_ai_governance_ok env chat_request
      (with_policy (record no_mock { tenant_id = some 1 }) db)

evaluate_ai_governance_global_policy_example :
    (evaluate_ai_governance env chat_request (with_policy no_mock db)).0
    ≡ (evaluate_ai_governance env chat_request db).0
evaluate_ai_governance_global_policy_example =
    evaluate_ai_governance_global_policy env chat_request no_mock db 1 (unfold scope_tenant in refl)
      refl

evaluate_gateway_budget_ok_example :
    ((evaluate_gateway_budget env "openai" db).0 ≡ ok tt)
    ↔ GateIsOpen env "openai"
        (list_budget_summaries env db).0
        (list_usage_records_again env db).0
        (listed (list_ai_quotas env db).0)
evaluate_gateway_budget_ok_example = evaluate_gateway_budget_ok env "openai" db
