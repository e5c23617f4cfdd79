-- ===== src/Budget/Cost.antt =====
-- aiCostUSD and what it reads, of internal/orchestrator/ai_governance.go.
use opord_ai_demo.Base.{
  ℕ, String, Bool, true, false, Option, none, some, List, [], ◌∷◌, if◌then◌else◌, any, ◌==◌, ◌||◌,
  ◌&&◌, not, ltb, trim, lower, equal_fold,
}
use opord_ai_demo.Base.Int.{ℤ, pos, ◌+ℤ◌}
use opord_ai_demo.Json.{Raw, obj, entry, text_of}
use opord_ai_demo.Db.{Env}
use opord_ai_demo.Db.Rows.{AiBudget}
use opord_ai_demo.Db.Governance.{UsageRow}

-- A text entry of the raw document, trimmed; "" where the document is no object or has no text
-- there.
unfoldable pub usage_raw_field : Raw → String → String
unfolding entry
usage_raw_field none key = ""
usage_raw_field (some (obj fs)) key = trim (text_of (entry key fs))
usage_raw_field (some _) key = ""

unfoldable pub usage_source : Raw → String
usage_source raw = lower (usage_raw_field raw "source")

unfoldable pub is_authoritative : String → Bool
is_authoritative s = s == "openai_costs_api" || s == "anthropic_cost_report" || s == "litellm_spend"

-- The start of the period that a budget or quota counts.
unfoldable pub period_start : Env → String → ℕ
period_start e period =
    let p = lower (trim period) in
    if p == "daily"
    then e.day_start
    else if p == "yearly" || p == "annual"
    then e.year_start
    else e.month_start

-- A row that the sum is about: not before the start, and in scope.
unfoldable pub in_window : ℕ → (UsageRow → Bool) → UsageRow → Bool
in_window start in_scope u = not (ltb u.period_start start) && in_scope u

-- The first loop: the providers with an authoritative row.
unfoldable pub authoritative : ℕ → (UsageRow → Bool) → List UsageRow → List String
authoritative start in_scope [] = []
authoritative start in_scope (u ∷ us) =
    let rest = authoritative start in_scope us in
    if in_window start in_scope u && is_authoritative (usage_source u.raw)
    then lower u.provider_name ∷ rest
    else rest

unfoldable pub has_name : String → List String → Bool
has_name s names = any (λ n. n == s) names

-- A gateway estimate of a provider that has an authoritative row.
unfoldable pub is_superseded : List String → UsageRow → Bool
is_superseded names u =
    usage_source u.raw == "opord_gateway_lite" && has_name (lower u.provider_name) names

-- The second loop.
unfoldable pub sum_cost : ℕ → (UsageRow → Bool) → List String → List UsageRow → ℤ
sum_cost start in_scope names [] = pos 0
sum_cost start in_scope names (u ∷ us) =
    let rest = sum_cost start in_scope names us in
    if not (in_window start in_scope u)
    then rest
    else if is_superseded names u
    then rest
    else u.cost_usd +ℤ rest

unfoldable pub ai_cost_usd : List UsageRow → ℕ → (UsageRow → Bool) → ℤ
ai_cost_usd usage start in_scope =
    sum_cost start in_scope (authoritative start in_scope usage) usage

abbrev fold_matches : Option String → String → Bool
fold_matches none ref = false
fold_matches (some s) ref = equal_fold s ref

tenant_matches : (ℕ → String) → Option ℕ → String → Bool
tenant_matches uuid_string none ref = ref == ""
tenant_matches uuid_string (some t) ref = if ref == "" then false else uuid_string t == ref

-- aiBudgetScopeMatches
unfoldable pub budget_scope_matches : (ℕ → String) → AiBudget → UsageRow → Bool
unfolding tenant_matches
budget_scope_matches uuid_string b u =
    let ref = trim b.scope_ref in
    let scope = lower (trim b.scope) in
    if scope == "" || scope == "global"
    then true
    else if scope == "provider"
    then ref == "" || equal_fold u.provider_name ref || uuid_string u.provider_id == ref
    else if scope == "owner"
    then fold_matches u.owner ref || equal_fold (usage_raw_field u.raw "owner") ref
    else if scope == "workspace"
    then fold_matches u.workspace ref
      || equal_fold (usage_raw_field u.raw "workspace") ref
      || equal_fold (usage_raw_field u.raw "workspace_id") ref
    else if scope == "tenant"
    then tenant_matches uuid_string u.tenant_id ref
    else false

-- aiBudgetActualUSD
unfoldable pub budget_actual_usd : Env → AiBudget → List UsageRow → ℤ
budget_actual_usd e b usage =
    ai_cost_usd usage (period_start e b.period) (budget_scope_matches e.uuid_string b)
