-- ===== src/Budget.antt =====
-- internal/orchestrator/ai_governance.go: what a budget or a quota has been used for. Amounts are
-- whole numbers of 10^-12 dollars; percentages are exact fractions.
pub mod Cost
pub mod Supersession
pub mod Summary
pub mod Bands
pub mod Edit
pub mod Validity
use opord_ai_demo.Base.{String}
use opord_ai_demo.Db.{DbError}

-- The errors of the handlers on budgets, quotas and policies.
pub data GovernanceError : Type 0 where
  limit_not_positive thresholds_not_positive soft_above_hard name_required not_found :
      GovernanceError
  service_not_found create_failed load_failed update_failed delete_failed :
      DbError → GovernanceError
  list_failed : DbError → GovernanceError
