-- ===== src/Enforce/GatewayVerdict.antt =====
-- When evaluateGatewayBudget lets a call of the model gateway through.
use opord_ai_demo.Base.{
  String, Bool, true, false, List, [], ◌∷◌, ◌≡◌, refl, ◌↔◌, Result, ok, err, All, any, trim, lower,
  equal_fold, eq_iff, ◌⊎◌, arith,
}
use opord_ai_demo.Db.{Env, Db}
use opord_ai_demo.Db.Rows.{AiQuota}
use opord_ai_demo.Db.Governance.{UsageRow}
use opord_ai_demo.Budget.{GovernanceError}
use opord_ai_demo.Budget.Summary.{AiBudgetSummary, list_budget_summaries, list_usage_records_again}
use opord_ai_demo.Quota.{list_ai_quotas}
use opord_ai_demo.Enforce.{listed}
use opord_ai_demo.Enforce.Scope.{budget_applies}
use opord_ai_demo.Base.Int.{◌≤ℤ◌}
use opord_ai_demo.Enforce.Gateway.{
  ai_quota_usage, gateway_context, budget_closes, quota_closes, evaluate_gateway_budget, closed,
  budget_gate, quota_gate, usage_gate,
}

-- Where a test is passed exactly by what has a property, no entry passes where none has it.
any-false :
    {A : Type 0} (p : A → Bool) (P : A → Type 0) (xs : List A)
    → ((x : A) → (p x ≡ false) ↔ (¬ P x))
    → (any p xs ≡ false) ↔ All (λ x. ¬ P x) xs
unfolding any
any-false p P [] h = (λ q. tt, λ q. refl)
any-false p P (x ∷ xs) h = ground (arith, h x, any-false p P xs h)

-- A blocking quota on tokens or cost, with at least its limit used in its period.
pub UsedUp : Env → List UsageRow → AiQuota → Type 0
UsedUp e usage q =
    let metric = lower (trim q.metric) in
    ((metric ≡ "tokens") ⊎ ((metric ≡ "cost_usd") ⊎ (metric ≡ "cost")))
    × (equal_fold q.enforcement "block" ≡ true)
    × (q.limit_quantity ≤ℤ ai_quota_usage e metric q.period usage)

-- A global or provider budget that covers a call of the provider, at its hard limit.
pub Spent : Env → String → AiBudgetSummary → Type 0
Spent e provider b =
    let scope = lower (trim b.budget.scope) in
    ((scope ≡ "") ⊎ ((scope ≡ "global") ⊎ (scope ≡ "provider")))
    × (b.status ≡ "hard_limit")
    × (budget_applies e.uuid_string b.budget (gateway_context provider) ≡ true)

quota_closes-UsedUp :
    (e : Env) (usage : List UsageRow) (q : AiQuota)
    → (quota_closes e usage q ≡ false) ↔ (¬ UsedUp e usage q)
unfolding quota_closes UsedUp
quota_closes-UsedUp e usage q =
    let metric = lower (trim q.metric) in
    ground (arith, eq_iff metric "tokens", eq_iff metric "cost_usd", eq_iff metric "cost")

budget_closes-Spent :
    (e : Env) (provider : String) (b : AiBudgetSummary)
    → (budget_closes e provider b ≡ false) ↔ (¬ Spent e provider b)
unfolding budget_closes Spent
budget_closes-Spent e provider b =
    let scope = lower (trim b.budget.scope) in
    ground (
      arith,
      eq_iff scope "",
      eq_iff scope "global",
      eq_iff scope "provider",
      eq_iff b.status "hard_limit",
    )

-- No blocking token or cost quota is used up by the usage; where it cannot be read, it does not count.
pub QuotasAreOpen : Env → Result GovernanceError (List UsageRow) → List AiQuota → Type 0
QuotasAreOpen e (err x) quotas = Unit
QuotasAreOpen e (ok usage) quotas = All (λ q. ¬ UsedUp e usage q) quotas

-- No global or provider budget that covers the provider is at its hard limit, and the quotas are
-- open; where the budgets cannot be read, nothing closes the gate.
pub GateIsOpen :
    Env
    → String
    → Result GovernanceError (List AiBudgetSummary)
    → Result GovernanceError (List UsageRow)
    → List AiQuota
    → Type 0
unfolding QuotasAreOpen
GateIsOpen e provider (err x) usage quotas = Unit
GateIsOpen e provider (ok budgets) usage quotas =
    All (λ b. ¬ Spent e provider b) budgets × QuotasAreOpen e usage quotas

usage_gate_ok :
    (e : Env) (quotas : List AiQuota) (r : Result GovernanceError (List UsageRow)) (db : Db)
    → ((usage_gate e quotas r db).0 ≡ ok tt) ↔ QuotasAreOpen e r quotas
unfolding usage_gate closed QuotasAreOpen
usage_gate_ok e quotas (err x) db = (λ h. tt, λ h. refl)
usage_gate_ok e quotas (ok usage) db =
    ground (
      arith,
      any-false (quota_closes e usage) (UsedUp e usage) quotas (quota_closes-UsedUp e usage),
    )

-- No quota is no obstacle, read or not.
no_quota : (e : Env) (r : Result GovernanceError (List UsageRow)) → QuotasAreOpen e r []
unfolding QuotasAreOpen
no_quota e (err x) = tt
no_quota e (ok usage) = tt

quota_gate_ok :
    (e : Env) (r : Result GovernanceError (List AiQuota)) (db : Db)
    → ((quota_gate e r db).0 ≡ ok tt) ↔ QuotasAreOpen e (list_usage_records_again e db).0 (listed r)
unfolding quota_gate
quota_gate_ok e (err x) db = (λ h. no_quota e (list_usage_records_again e db).0, λ h. refl)
quota_gate_ok e (ok quotas) db = usage_gate_ok e quotas (list_usage_records_again e db).0 db

budget_gate_ok :
    (e : Env) (provider : String) (r : Result GovernanceError (List AiBudgetSummary)) (db : Db)
    → ((budget_gate e provider r db).0 ≡ ok tt)
      ↔ GateIsOpen e provider r (list_usage_records_again e db).0 (listed (list_ai_quotas e db).0)
unfolding budget_gate closed GateIsOpen
budget_gate_ok e provider (err x) db = (λ h. tt, λ h. refl)
budget_gate_ok e provider (ok budgets) db = ground (
  arith,
  any-false (budget_closes e provider) (Spent e provider) budgets (budget_closes-Spent e provider),
  quota_gate_ok e (list_ai_quotas e db).0 db,
)

-- The gateway lets a call through exactly where no global or provider budget that covers the
-- provider is at its hard limit, and no blocking quota on tokens or cost is used up by the usage of
-- its period. Where the budgets or the usage for them cannot be read it lets every call through;
-- where the quotas cannot, or the usage cannot a second time, it is the budgets alone that decide.
pub evaluate_gateway_budget_ok :
    (e : Env) (provider : String) (db : Db)
    → ((evaluate_gateway_budget e provider db).0 ≡ ok tt)
      ↔ GateIsOpen e provider
          (list_budget_summaries e db).0
          (list_usage_records_again e db).0
          (listed (list_ai_quotas e db).0)
unfolding evaluate_gateway_budget
evaluate_gateway_budget_ok e provider db =
    budget_gate_ok e provider (list_budget_summaries e db).0 db
