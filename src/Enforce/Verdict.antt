-- ===== src/Enforce/Verdict.antt =====
-- When EvaluateAIGovernance lets a request through.
use opord_ai_demo.Base.{
  String, true, Option, none, List, [], ◌∷◌, ◌++◌, ◌≡◌, refl, ◌↔◌, inl, inr, ok, All, Option-cases,
  eq_iff, some, trim, lower, ◌⊎◌, arith,
}
use opord_ai_demo.Db.{Env, Db}
use opord_ai_demo.Db.Rows.{AiServiceInstance, AiQuota, AiAccessPolicy}
use opord_ai_demo.Budget.Summary.{AiBudgetSummary, list_budget_summaries}
use opord_ai_demo.Quota.{list_ai_quotas}
use opord_ai_demo.Policy.{list_ai_access_policies}
use opord_ai_demo.Policy.Rule.{
  AiReqContext, AiPolicyRule, decode_rule, is_deny, has_selector, rule_matches,
}
use opord_ai_demo.Base.Int.{pos, ◌≤ℤ◌}
use opord_ai_demo.Enforce.Scope.{budget_applies}
use opord_ai_demo.Enforce.{
  Reason, listed, collect, rule_denies, is_for, is_valid, count_active, policy_reason,
  visible_instances, quota_is_reached, quota_hard, budget_hard, hard_reasons, soft_reasons,
  warn_all, block, evaluate_ai_governance,
}

module _ {A : Type 0} where
  -- A loop over a list appends nothing where it has no reason for any entry.
  collect-none :
      (f : A → Option Reason) (P : A → Type 0) (xs : List A)
      → ((x : A) → (f x ≡ none) ↔ P x)
      → (collect f xs ≡ []) ↔ All P xs
  unfolding collect
  collect-none f P [] h = (λ q. tt, λ q. refl)
  collect-none f P (x ∷ xs) h = elim (Option-cases (f x)) [
    | inl quiet ↦ ground (arith, h x, collect-none f P xs h)
    | inr (r, speaks) ↦ ground (arith, h x)
  ]

-- An active policy whose rule decodes, denies, has a selector and matches the request.
pub Denies : AiReqContext → AiAccessPolicy → Type 0
Denies rc p =
    (p.status ≡ "active")
    × ((rule : AiPolicyRule) × (decode_rule p.rules ≡ some rule)
        × (is_deny rule ≡ true)
        × (has_selector rule ≡ true)
        × (rule_matches rule rc ≡ true))

-- A blocking quota on seats or instances, for every service or the request's, whose limit the
-- active instances that it counts have reached.
pub Blocks : AiReqContext → List AiServiceInstance → AiQuota → Type 0
Blocks rc instances q =
    let metric = lower (trim q.metric) in
    ((metric ≡ "instances") ⊎ (metric ≡ "seats"))
    × (is_for q.service_id rc.service_id ≡ true)
    × (q.limit_quantity ≤ℤ pos (count_active (is_valid q.service_id) rc.service_id instances))
    × (q.enforcement ≡ "block")

-- A budget that the request falls under, at its hard limit.
pub Exhausts : Env → AiReqContext → AiBudgetSummary → Type 0
Exhausts e rc b = (budget_applies e.uuid_string b.budget rc ≡ true) × (b.status ≡ "hard_limit")

policy_reason-none :
    (rc : AiReqContext) (p : AiAccessPolicy) → (policy_reason rc p ≡ none) ↔ (¬ Denies rc p)
unfolding policy_reason rule_denies Denies
policy_reason-none rc p = elim (Option-cases (decode_rule p.rules)) [
  | inl undecoded ↦ (
    λ h (active, (rule, decoded, denies, selects, matches)). cc (undecoded, decoded),
    λ d. ground (arith, undecoded),
  )
  | inr (rule, decoded) ↦ (
    λ h (active, (other, read, denies, selects, matches)).
        let same : other ≡ rule = ground (arith, decoded, read) in
        ground (arith, decoded, same, denies, selects, matches, eq_iff p.status "active"),
    λ d.
        let free : ¬ (
            (p.status ≡ "active")
            × (is_deny rule ≡ true)
            × (has_selector rule ≡ true)
            × (rule_matches rule rc ≡ true)) =
          λ (active, denies, selects, matches).
            d (active, (rule, decoded, denies, selects, matches)) in
        ground (arith, decoded, free, eq_iff p.status "active"),
  )
]

quota_hard-none :
    (rc : AiReqContext) (is : List AiServiceInstance) (q : AiQuota)
    → (quota_hard rc is q ≡ none) ↔ (¬ Blocks rc is q)
unfolding quota_hard quota_is_reached Blocks
quota_hard-none rc is q =
    let metric = lower (trim q.metric) in
    ground (arith, eq_iff metric "instances", eq_iff metric "seats", eq_iff q.enforcement "block")

budget_hard-none :
    (e : Env) (rc : AiReqContext) (b : AiBudgetSummary)
    → (budget_hard e rc b ≡ none) ↔ ¬ Exhausts e rc b
unfolding budget_hard Exhausts
budget_hard-none e rc b = ground (arith, eq_iff b.status "hard_limit")

append_nil : (xs ys : List Reason) → (xs ++ ys ≡ []) ↔ ((xs ≡ []) × (ys ≡ []))
append_nil [] ys = (λ q. (refl, q), λ q. q.1)
append_nil (x ∷ xs) ys = ground arith

block_ok :
    (e : Env) (owner : String) (rs : List Reason) (db : Db)
    → ((block e owner rs db).0 ≡ ok tt) ↔ (rs ≡ [])
unfolding block
block_ok e owner [] db = (λ h. refl, λ h. refl)
block_ok e owner (r ∷ rs) db = ground arith

-- EvaluateAIGovernance lets a request through exactly where, of the rows that the caller may see,
-- no policy denies it (active, with a deny rule that has a selector and matches the request), no
-- blocking quota on seats or instances that it falls under is used up, and no budget that it falls
-- under is at its hard limit. A listing that fails counts as empty.
pub evaluate_ai_governance_ok :
    (e : Env) (rc : AiReqContext) (db : Db)
    → ((evaluate_ai_governance e rc db).0 ≡ ok tt) ↔ (
        All (λ p. ¬ Denies rc p) (listed (list_ai_access_policies e db).0)
        × All (λ q. ¬ Blocks rc (visible_instances e db) q) (listed (list_ai_quotas e db).0)
        × All (λ b. ¬ Exhausts e rc b) (listed (list_budget_summaries e db).0))
unfolding evaluate_ai_governance hard_reasons
evaluate_ai_governance_ok e rc db =
    let policies = listed (list_ai_access_policies e db).0 in
    let quotas = listed (list_ai_quotas e db).0 in
    let budgets = listed (list_budget_summaries e db).0 in
    let instances = visible_instances e db in
    let denied = collect (policy_reason rc) policies in
    let full = collect (quota_hard rc instances) quotas in
    let spent = collect (budget_hard e rc) budgets in
    let written = warn_all e rc.owner (soft_reasons e rc db) db in
    let reasons = block_ok e rc.owner (hard_reasons e rc db) written in
    let p = collect-none (policy_reason rc) (λ p. ¬ Denies rc p) policies (policy_reason-none rc) in
    let q =
      collect-none (quota_hard rc instances) (λ q. ¬ Blocks rc instances q) quotas
        (quota_hard-none rc instances) in
    let b =
      collect-none (budget_hard e rc) (λ b. ¬ Exhausts e rc b) budgets (budget_hard-none e rc) in
    (
      λ h.
          let s = (append_nil denied (full ++ spent)).0 (reasons.0 h) in
          let t = (append_nil full spent).0 s.1 in (p.0 s.0, q.0 t.0, b.0 t.1),
      λ (x, y, z).
          reasons.1 (
            (append_nil denied (full ++ spent)).1
              (p.1 x, (append_nil full spent).1 (q.1 y, b.1 z))),
    )
