-- ===== src/Admin/Projects.antt =====
-- The controls of a provider's projects, in internal/orchestrator/ai_admin.go.
use opord_ai_demo.Base.{String, Option, List, Exec}
use opord_ai_demo.Db.{Env, Db}
use opord_ai_demo.Providers.Adapter.{Provider, Wiring}
use opord_ai_demo.Admin.{AdminError, admin_read, admin_write}
use opord_ai_demo.Admin.Types.{
  ProjectApiKey, ProjectRateLimit, ProjectRateLimitUpdate, ProjectModelPermissions,
  ProjectHostedToolPermissions, ProjectDataRetention, ProjectSpendAlert, ProjectSpendAlertInput,
  ProjectControlsProvisioner,
}

module _ {Org : Type 0} (e : Env) (w : Wiring)
    (offers : Provider → Option (ProjectControlsProvisioner Org)) where
  unfoldable pub list_ai_project_api_keys :
      String → String → Exec (Db × Org) AdminError (List ProjectApiKey)
  list_ai_project_api_keys name project_id =
      admin_read e w offers name (λ c. c.admin.list_project_api_keys c.context project_id)

  unfoldable pub list_ai_project_rate_limits :
      String → String → Exec (Db × Org) AdminError (List ProjectRateLimit)
  list_ai_project_rate_limits name project_id =
      admin_read e w offers name (λ c. c.admin.list_project_rate_limits c.context project_id)

  unfoldable pub get_ai_project_model_permissions :
      String → String → Exec (Db × Org) AdminError ProjectModelPermissions
  get_ai_project_model_permissions name project_id =
      admin_read e w offers name (λ c. c.admin.get_project_model_permissions c.context project_id)

  unfoldable pub get_ai_project_hosted_tool_permissions :
      String → String → Exec (Db × Org) AdminError ProjectHostedToolPermissions
  get_ai_project_hosted_tool_permissions name project_id =
      admin_read e w offers name
        (λ c. c.admin.get_project_hosted_tool_permissions c.context project_id)

  unfoldable pub get_ai_project_data_retention :
      String → String → Exec (Db × Org) AdminError ProjectDataRetention
  get_ai_project_data_retention name project_id =
      admin_read e w offers name (λ c. c.admin.get_project_data_retention c.context project_id)

  unfoldable pub list_ai_project_spend_alerts :
      String → String → Exec (Db × Org) AdminError (List ProjectSpendAlert)
  list_ai_project_spend_alerts name project_id =
      admin_read e w offers name (λ c. c.admin.list_project_spend_alerts c.context project_id)

  unfoldable pub delete_ai_project_api_key :
      String → String → String → Exec (Db × Org) AdminError (Unit {0})
  delete_ai_project_api_key name project_id key_id =
      admin_write e w offers name "project_api_key_delete_failed" "project_api_key_deleted"
        (λ c. c.admin.delete_project_api_key c.context project_id key_id)

  unfoldable pub update_ai_project_rate_limit :
      String
      → String
      → String
      → ProjectRateLimitUpdate
      → Exec (Db × Org) AdminError ProjectRateLimit
  update_ai_project_rate_limit name project_id limit_id req =
      admin_write e w offers name "project_rate_limit_update_failed" "project_rate_limit_updated"
        (λ c. c.admin.update_project_rate_limit c.context project_id limit_id req)

  unfoldable pub set_ai_project_model_permissions :
      String → String → ProjectModelPermissions → Exec (Db × Org) AdminError ProjectModelPermissions
  set_ai_project_model_permissions name project_id req =
      admin_write e w offers name "project_model_permissions_update_failed"
        "project_model_permissions_updated"
        (λ c. c.admin.set_project_model_permissions c.context project_id req)

  unfoldable pub delete_ai_project_model_permissions :
      String → String → Exec (Db × Org) AdminError (Unit {0})
  delete_ai_project_model_permissions name project_id =
      admin_write e w offers name "project_model_permissions_delete_failed"
        "project_model_permissions_deleted"
        (λ c. c.admin.delete_project_model_permissions c.context project_id)

  unfoldable pub set_ai_project_hosted_tool_permissions :
      String
      → String
      → ProjectHostedToolPermissions
      → Exec (Db × Org) AdminError ProjectHostedToolPermissions
  set_ai_project_hosted_tool_permissions name project_id req =
      admin_write e w offers name "project_tool_permissions_update_failed"
        "project_tool_permissions_updated"
        (λ c. c.admin.set_project_hosted_tool_permissions c.context project_id req)

  unfoldable pub set_ai_project_data_retention :
      String → String → ProjectDataRetention → Exec (Db × Org) AdminError ProjectDataRetention
  set_ai_project_data_retention name project_id req =
      admin_write e w offers name "project_data_retention_update_failed"
        "project_data_retention_updated"
        (λ c. c.admin.set_project_data_retention c.context project_id req)

  unfoldable pub create_ai_project_spend_alert :
      String → String → ProjectSpendAlertInput → Exec (Db × Org) AdminError ProjectSpendAlert
  create_ai_project_spend_alert name project_id req =
      admin_write e w offers name "project_spend_alert_create_failed" "project_spend_alert_created"
        (λ c. c.admin.create_project_spend_alert c.context project_id req)

  unfoldable pub update_ai_project_spend_alert :
      String
      → String
      → String
      → ProjectSpendAlertInput
      → Exec (Db × Org) AdminError ProjectSpendAlert
  update_ai_project_spend_alert name project_id alert_id req =
      admin_write e w offers name "project_spend_alert_update_failed" "project_spend_alert_updated"
        (λ c. c.admin.update_project_spend_alert c.context project_id alert_id req)

  unfoldable pub delete_ai_project_spend_alert :
      String → String → String → Exec (Db × Org) AdminError (Unit {0})
  delete_ai_project_spend_alert name project_id alert_id =
      admin_write e w offers name "project_spend_alert_delete_failed" "project_spend_alert_deleted"
        (λ c. c.admin.delete_project_spend_alert c.context project_id alert_id)
