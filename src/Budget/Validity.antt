-- ===== src/Budget/Validity.antt =====
-- Every budget in the table is valid, whatever is done through the handlers; and the handlers keep
-- to the caller's tenant.
use opord_ai_demo.Base.{
  ℕ, suc, ◌≡◌, inl, inr, String, true, false, ok, err, arith, ◌=?◌, ◌&&◌, not, All, All-select,
  All-update_where, Result-cases, Bool-cases, List, [], ◌∷◌,
}
use opord_ai_demo.Base.Int.{pos, ◌≤ℤ◌, ltb_ℤ, leb_ℤ}
use opord_ai_demo.Db.{Env, Db, create_budget}
use opord_ai_demo.Db.Rows.{AiBudget}
use opord_ai_demo.Db.Governance.{
  create_budget_row, budget_by_id, update_budget_row, delete_budget_row,
}
use opord_ai_demo.Tenant.{scope_tenant, may_see, emit_audit}
use opord_ai_demo.Budget.{GovernanceError, not_found, limit_not_positive}
use opord_ai_demo.Budget.Bands.{IsValid}
use opord_ai_demo.Budget.Edit.{
  AiBudgetInput, or_default, new_row, edited, create_ai_budget, update_ai_budget, delete_ai_budget,
}

pub record AllValid (db : Db) : Type 0 where
  pub each : All IsValid db.budgets

AllValid-emit_audit :
    (e : Env) (t : String) (id : ℕ) (action by : String) (db : Db)
    → AllValid db
    → AllValid (emit_audit e t id action by db)
unfolding emit_audit
AllValid-emit_audit e t id action by db all = ground arith

AllValid-create_row :
    (e : Env) (row : AiBudget) (db : Db)
    → IsValid row
    → AllValid db
    → AllValid (create_budget_row e row db).1
unfolding create_budget_row
AllValid-create_row e row db v all = elim (Bool-cases (e.fails create_budget)) [
  | inl down ↦ rw down all
  | inr up ↦
      let fresh_row : IsValid (record row { id = suc db.next_id }) = record {
        limited = v.limited;
        soft_positive = v.soft_positive;
        ordered = v.ordered;
      } in
      rw up (record { each = (fresh_row, all.each) })
]

AllValid-update_row :
    (e : Env) (id : ℕ) (change : AiBudget → AiBudget) (db : Db)
    → ((b : AiBudget) → IsValid (change b))
    → AllValid db
    → AllValid (update_budget_row e id change db).1
unfolding update_budget_row
AllValid-update_row e id change db v all = ground (
  arith,
  All-update_where IsValid (λ (r : AiBudget). r.id =? id) change db.budgets (λ b _. v b) all.each,
)

edited-IsValid :
    (input : AiBudgetInput) (existing b : AiBudget)
    → ltb_ℤ (pos 0) input.limit_usd ≡ true
    → ltb_ℤ (pos 0) (or_default input.soft_threshold_pct (pos 80)) ≡ true
    → or_default input.soft_threshold_pct (pos 80) ≤ℤ or_default input.hard_threshold_pct (pos 100)
    → IsValid (edited input existing b)
unfolding edited
edited-IsValid input existing b limited positive ordered = record {
  limited = limited;
  soft_positive = positive;
  ordered = ordered;
}

-- CreateAIBudget keeps every budget valid, whether it succeeds or fails.
pub create_ai_budget-AllValid :
    (e : Env) (input : AiBudgetInput) (db : Db)
    → AllValid db
    → AllValid (create_ai_budget e input db).1
unfolding create_ai_budget
create_ai_budget-AllValid e input db all =
    let soft = or_default input.soft_threshold_pct (pos 80) in
    let hard = or_default input.hard_threshold_pct (pos 100) in
    elim (Bool-cases (ltb_ℤ (pos 0) input.limit_usd)) [
      | inr unlimited ↦ rw unlimited all
      | inl limited ↦ elim (Bool-cases (ltb_ℤ (pos 0) soft && ltb_ℤ (pos 0) hard)) [
        | inr low ↦ rw (limited, low) all
        | inl positive ↦ elim (Bool-cases (leb_ℤ soft hard)) [
          | inr high ↦ rw (limited, positive, high) all
          | inl ordered ↦
              let row = new_row e input in
              let valid : IsValid row = record {
                limited = limited;
                soft_positive = ground arith;
                ordered = ground arith;
              } in
              let stored = AllValid-create_row e row db valid all in
              elim (Result-cases (create_budget_row e row db).0) [
                | inr (x, failed) ↦ rw (limited, positive, ordered, failed) stored
                | inl (b, made) ↦
                    rw (limited, positive, ordered, made) (AllValid-emit_audit e _ _ _ _ _ stored)
              ]
        ]
      ]
    ]

-- UpdateAIBudget keeps every budget valid, whether it succeeds or fails.
pub update_ai_budget-AllValid :
    (e : Env) (id : ℕ) (input : AiBudgetInput) (db : Db)
    → AllValid db
    → AllValid (update_ai_budget e id input db).1
unfolding update_ai_budget
update_ai_budget-AllValid e id input db all =
    let soft = or_default input.soft_threshold_pct (pos 80) in
    let hard = or_default input.hard_threshold_pct (pos 100) in
    elim (Bool-cases (ltb_ℤ (pos 0) input.limit_usd)) [
      | inr unlimited ↦ rw unlimited all
      | inl limited ↦ elim (Result-cases (budget_by_id e id db)) [
        | inr (x, missing) ↦ rw (limited, missing) all
        | inl (existing, found) ↦ elim (Bool-cases (may_see (scope_tenant e) existing.tenant_id)) [
          | inr foreign ↦ rw (limited, found, foreign) all
          | inl own ↦ elim (Bool-cases (ltb_ℤ (pos 0) soft && ltb_ℤ (pos 0) hard)) [
            | inr low ↦ rw (limited, found, own, low) all
            | inl positive ↦ elim (Bool-cases (leb_ℤ soft hard)) [
              | inr high ↦ rw (limited, found, own, positive, high) all
              | inl ordered ↦
                  let stored =
                    AllValid-update_row e id (edited input existing) db
                      (λ b. edited-IsValid input existing b limited (ground arith) (ground arith))
                      all in
                  elim (Result-cases (update_budget_row e id (edited input existing) db).0) [
                    | inr (x, failed) ↦ rw (limited, found, own, positive, ordered, failed) stored
                    | inl (b, made) ↦
                        rw (limited, found, own, positive, ordered, made)
                          (AllValid-emit_audit e _ _ _ _ _ stored)
                  ]
            ]
          ]
        ]
      ]
    ]

-- DeleteAIBudget keeps every budget valid, whether it succeeds or fails.
pub delete_ai_budget-AllValid :
    (e : Env) (id : ℕ) (db : Db) → AllValid db → AllValid (delete_ai_budget e id db).1
unfolding delete_ai_budget delete_budget_row emit_audit
delete_ai_budget-AllValid e id db all =
    ground (arith, All-select IsValid (λ (b : AiBudget). not (b.id =? id)) db.budgets all.each)

-- On a budget of another tenant, a caller who is held to a tenant gets an error from both edits,
-- and the database is as before.
pub edit_foreign_budget :
    (e : Env) (id : ℕ) (input : AiBudgetInput) (db : Db) (b : AiBudget)
    → budget_by_id e id db ≡ ok b
    → may_see (scope_tenant e) b.tenant_id ≡ false
    → ((x : GovernanceError) × (update_ai_budget e id input db ≡ (err x, db)))
      × (delete_ai_budget e id db ≡ (err not_found, db))
unfolding update_ai_budget delete_ai_budget
edit_foreign_budget e id input db b found foreign =
    let no_edit : (x : GovernanceError) × (update_ai_budget e id input db ≡ (err x, db)) =
      elim (Bool-cases (ltb_ℤ (pos 0) input.limit_usd)) [
        | inl limited ↦ (not_found, rw (limited, found, foreign))
        | inr unlimited ↦ (limit_not_positive, rw unlimited)
      ] in
    (no_edit, rw (found, foreign))

pub data BudgetOp : Type 0 where
  create : AiBudgetInput → BudgetOp
  update : ℕ → AiBudgetInput → BudgetOp
  delete : ℕ → BudgetOp

-- The database after an operation, whatever it answers.
unfoldable pub run : Env → BudgetOp → Db → Db
run e (create input) db = (create_ai_budget e input db).1
run e (update id input) db = (update_ai_budget e id input db).1
run e (delete id) db = (delete_ai_budget e id db).1

-- Operations in turn, each by its own caller.
unfoldable pub run_all : List (Env × BudgetOp) → Db → Db
run_all [] db = db
run_all ((e, op) ∷ ops) db = run_all ops (run e op db)

run-AllValid : (e : Env) (op : BudgetOp) (db : Db) → AllValid db → AllValid (run e op db)
unfolding run
run-AllValid e (create input) db all = create_ai_budget-AllValid e input db all
run-AllValid e (update id input) db all = update_ai_budget-AllValid e id input db all
run-AllValid e (delete id) db all = delete_ai_budget-AllValid e id db all

-- Where every budget has a positive limit and thresholds that are positive and in order, every one
-- has after any creations, updates and deletions, by any callers, failing or not.
pub budget_edits-AllValid :
    (ops : List (Env × BudgetOp)) (db : Db) → AllValid db → AllValid (run_all ops db)
unfolding run_all
budget_edits-AllValid [] db all = all
budget_edits-AllValid ((e, op) ∷ ops) db all =
    budget_edits-AllValid ops (run e op db) (run-AllValid e op db all)
