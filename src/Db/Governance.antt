-- ===== src/Db/Governance.antt =====
-- internal/db/ai.sql.go: the queries on budgets, quotas, access policies, usage records and service
-- instances, with the constraints of migrations/00021_ai_governance_domain.sql.
use opord_ai_demo.Base.{
  ℕ, String, Bool, Option, none, some, List, [], ◌∷◌, Result, ok, err, if◌then◌else◌, find, any,
  select, update_where, ◌==◌, ◌=?◌, ◌||◌, not,
}
use opord_ai_demo.Base.Int.{ℤ}
use opord_ai_demo.Json.{Raw}
use opord_ai_demo.Db.{
  Env, Db, DbError, violation, query, first_row, write, fresh, list_budgets, get_budget,
  create_budget, update_budget, delete_budget, list_quotas, get_quota, create_quota, update_quota,
  delete_quota, list_policies, get_policy, create_policy, update_policy, delete_policy, list_usage,
  list_usage_again, list_instances, get_service_by_slug,
}
use opord_ai_demo.Db.Rows.{
  AiProvider, AiService, AiServiceInstance, AiUsageRecord, AiBudget, AiQuota, AiAccessPolicy,
}

-- ListAIUsageRecordsRow: a record with its provider's name and, from its instance if it has one,
-- the owner, the workspace and the tenant.
pub record UsageRow : Type 0 where
  pub provider_id : ℕ
  pub period_start : ℕ
  pub metric : String
  pub quantity : ℤ
  pub cost_usd : ℤ
  pub raw : Raw
  pub provider_name : String
  pub owner : Option String
  pub workspace : Option String
  pub tenant_id : Option ℕ

unfoldable pub instance_of : Option ℕ → List AiServiceInstance → Option AiServiceInstance
instance_of none is = none
instance_of (some id) is = find (λ (i : AiServiceInstance). i.id =? id) is

unfoldable pub usage_row : AiUsageRecord → AiProvider → Option AiServiceInstance → UsageRow
usage_row u p i = record {
  provider_id = u.provider_id;
  period_start = u.period_start;
  metric = u.metric;
  quantity = u.quantity;
  cost_usd = u.cost_usd;
  raw = u.raw;
  provider_name = p.name;
  owner = elim i [ none ↦ none | some s ↦ some s.owner ];
  workspace = elim i [ none ↦ none | some s ↦ some s.workspace ];
  tenant_id = elim i [ none ↦ none | some s ↦ s.tenant_id ];
}

-- The inner join with the providers, and the left join with the instances.
unfoldable pub join_usage :
    List AiProvider → List AiServiceInstance → List AiUsageRecord → List UsageRow
unfolding usage_row instance_of
join_usage ps is [] = []
join_usage ps is (u ∷ us) =
    let rest = join_usage ps is us in
    elim (find (λ (p : AiProvider). p.id =? u.provider_id) ps) [
      | none ↦ rest
      | some p ↦ usage_row u p (instance_of u.instance_id is) ∷ rest
    ]

-- The rows come in another order, which no caller depends on.
unfoldable pub all_usage : Env → Db → Result DbError (List UsageRow)
unfolding join_usage
all_usage e db = query e list_usage (ok (join_usage db.providers db.instances db.usage))

-- The same query, made a second time.
unfoldable pub all_usage_again : Env → Db → Result DbError (List UsageRow)
unfolding join_usage
all_usage_again e db = query e list_usage_again (ok (join_usage db.providers db.instances db.usage))

unfoldable pub all_instances : Env → Db → Result DbError (List AiServiceInstance)
all_instances e db = query e list_instances (ok db.instances)

unfoldable pub service_by_slug : Env → String → Db → Result DbError AiService
service_by_slug e slug db =
    query e get_service_by_slug (first_row (find (λ (s : AiService). s.slug == slug) db.services))

unfoldable pub all_budgets : Env → Db → Result DbError (List AiBudget)
all_budgets e db = query e list_budgets (ok db.budgets)

unfoldable pub budget_by_id : Env → ℕ → Db → Result DbError AiBudget
budget_by_id e id db =
    query e get_budget (first_row (find (λ (b : AiBudget). b.id =? id) db.budgets))

-- The row is given with any id, which the insert replaces.
unfoldable pub create_budget_row : Env → AiBudget → Db → Result DbError AiBudget × Db
create_budget_row e row db =
    let b = record row { id = fresh db } in
    write e create_budget db (ok b, record db { next_id = fresh db; budgets = b ∷ db.budgets })

-- An update keeps the id and the tenant.
unfoldable pub update_budget_row :
    Env → ℕ → (AiBudget → AiBudget) → Db → Result DbError AiBudget × Db
update_budget_row e id change db =
    let row = find (λ (b : AiBudget). b.id =? id) db.budgets in
    write e update_budget db (elim row [
      | none ↦ (first_row none, db)
      | some b ↦ (
        ok (change b),
        record db { budgets = update_where (λ (r : AiBudget). r.id =? id) change db.budgets },
      )
    ])

unfoldable pub delete_budget_row : Env → ℕ → Db → Result DbError (Unit {0}) × Db
delete_budget_row e id db =
    write e delete_budget db
      (ok tt, record db { budgets = select (λ (b : AiBudget). not (b.id =? id)) db.budgets })

unfoldable pub all_quotas : Env → Db → Result DbError (List AiQuota)
all_quotas e db = query e list_quotas (ok db.quotas)

unfoldable pub quota_by_id : Env → ℕ → Db → Result DbError AiQuota
quota_by_id e id db = query e get_quota (first_row (find (λ (q : AiQuota). q.id =? id) db.quotas))

unfoldable pub valid_enforcement : String → Bool
valid_enforcement s = s == "warn" || s == "block"

unfoldable pub create_quota_row : Env → AiQuota → Db → Result DbError AiQuota × Db
unfolding valid_enforcement
create_quota_row e row db =
    let q = record row { id = fresh db } in
    write e create_quota db (
      if valid_enforcement row.enforcement
      then (ok q, record db { next_id = fresh db; quotas = q ∷ db.quotas })
      else (err violation, db))

unfoldable pub update_quota_row : Env → ℕ → ℤ → String → String → Db → Result DbError AiQuota × Db
unfolding valid_enforcement
update_quota_row e id limit period enforcement db =
    let row = find (λ (q : AiQuota). q.id =? id) db.quotas in
    write e update_quota db (elim row [
      | none ↦ (first_row none, db)
      | some q ↦
          if valid_enforcement enforcement
          then (
            ok (record q { limit_quantity = limit; period = period; enforcement = enforcement }),
            record db {
              quotas =
                  update_where (λ (r : AiQuota). r.id =? id)
                    (λ r. record r {
                      limit_quantity = limit;
                      period = period;
                      enforcement = enforcement;
                    })
                    db.quotas;
            },
          )
          else (err violation, db)
    ])

unfoldable pub delete_quota_row : Env → ℕ → Db → Result DbError (Unit {0}) × Db
delete_quota_row e id db =
    write e delete_quota db
      (ok tt, record db { quotas = select (λ (q : AiQuota). not (q.id =? id)) db.quotas })

unfoldable pub all_policies : Env → Db → Result DbError (List AiAccessPolicy)
all_policies e db = query e list_policies (ok db.policies)

unfoldable pub policy_by_id : Env → ℕ → Db → Result DbError AiAccessPolicy
policy_by_id e id db =
    query e get_policy (first_row (find (λ (p : AiAccessPolicy). p.id =? id) db.policies))

unfoldable pub valid_policy_status : String → Bool
valid_policy_status s = s == "active" || s == "disabled"

unfoldable pub create_policy_row :
    Env → String → Option ℕ → Raw → String → Db → Result DbError AiAccessPolicy × Db
unfolding valid_policy_status
create_policy_row e name tenant_id rules status db = write e create_policy db (
    if any (λ (p : AiAccessPolicy). p.name == name) db.policies || not (valid_policy_status status)
    then (err violation, db)
    else let p : AiAccessPolicy = record {
      id = fresh db;
      name = name;
      tenant_id = tenant_id;
      rules = rules;
      status = status;
    } in
      (ok p, record db { next_id = fresh db; policies = p ∷ db.policies }))

unfoldable pub update_policy_row : Env → ℕ → Raw → String → Db → Result DbError AiAccessPolicy × Db
unfolding valid_policy_status
update_policy_row e id rules status db =
    let row = find (λ (p : AiAccessPolicy). p.id =? id) db.policies in
    write e update_policy db (elim row [
      | none ↦ (first_row none, db)
      | some p ↦
          if valid_policy_status status
          then (
            ok (record p { rules = rules; status = status }),
            record db {
              policies =
                  update_where (λ (r : AiAccessPolicy). r.id =? id)
                    (λ r. record r { rules = rules; status = status }) db.policies;
            },
          )
          else (err violation, db)
    ])

unfoldable pub delete_policy_row : Env → ℕ → Db → Result DbError (Unit {0}) × Db
delete_policy_row e id db =
    write e delete_policy db (
      ok tt,
      record db { policies = select (λ (p : AiAccessPolicy). not (p.id =? id)) db.policies },
    )
