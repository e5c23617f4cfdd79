-- ===== src/Admin/Types.antt =====
-- internal/aiproviders/admin.go: the administration of a provider's organisation, as two optional
-- interfaces of an adapter, and the rules on roles. `Org` is the state of the organisation, which
-- only these calls reach; `none` is the error of a call. Numbers are exact.
use opord_ai_demo.Base.{String, Bool, true, false, Option, List, if◌then◌else◌, ◌==◌}
use opord_ai_demo.Base.Int.{ℤ}
use opord_ai_demo.Json.{Fields}
use opord_ai_demo.Providers.Adapter.{Credentials}

pub record AdminContext : Type 0 where
  pub credentials : Credentials
  pub config : Fields

pub record OrgUser : Type 0 where
  pub id : String
  pub email : String
  pub name : String
  pub role : String
  pub added_at : String

pub record OrgWorkspace : Type 0 where
  pub id : String
  pub name : String
  pub created_at : String
  pub archived_at : String

-- RoleComboAllowed
unfoldable pub role_combo_allowed : String → String → Bool
role_combo_allowed org ws =
    if ws == "workspace_billing"
    then false
    else if org == "billing"
    then ws == "workspace_admin"
    else true

-- InheritedWorkspaceRole, empty where there is none.
unfoldable pub inherited_workspace_role : String → String
inherited_workspace_role org =
    if org == "admin"
    then "workspace_admin"
    else if org == "billing"
    then "workspace_billing"
    else ""

pub record InviteRequest : Type 0 where
  pub email : String
  pub role : String

pub record InviteResult : Type 0 where
  pub invite_id : String
  pub email : String
  pub role : String
  pub status : String
  pub invited_at : String
  pub expires_at : String

pub record WorkspaceGrantRequest : Type 0 where
  pub workspace_id : String
  pub user_id : String
  pub workspace_role : String

pub record WorkspaceAccess : Type 0 where
  pub user_id : String
  pub email : String
  pub org_role : String
  pub workspace_role : String
  pub inherited : Bool

pub record ProjectApiKey : Type 0 where
  pub id : String
  pub name : String
  pub redacted_value : String
  pub created_at : String
  pub last_used_at : String
  pub owner_type : String
  pub owner_name : String
  pub owner_email : String

pub record ProjectRateLimit : Type 0 where
  pub id : String
  pub model : String
  pub max_requests_per_1_minute : ℤ
  pub max_tokens_per_1_minute : ℤ
  pub max_requests_per_1_day : ℤ
  pub max_images_per_1_minute : ℤ
  pub max_audio_megabytes_per_1_minute : ℤ
  pub batch_1_day_max_input_tokens : ℤ
  pub raw : Option Fields

pub record ProjectRateLimitUpdate : Type 0 where
  pub max_requests_per_1_minute : Option ℤ
  pub max_tokens_per_1_minute : Option ℤ
  pub max_requests_per_1_day : Option ℤ
  pub max_images_per_1_minute : Option ℤ
  pub max_audio_megabytes_per_1_minute : Option ℤ
  pub batch_1_day_max_input_tokens : Option ℤ

pub record ProjectModelPermissions : Type 0 where
  pub mode : String
  pub model_ids : List String

pub record ProjectHostedToolPermissions : Type 0 where
  pub code_interpreter : Bool
  pub file_search : Bool
  pub image_generation : Bool
  pub mcp : Bool
  pub web_search : Bool

pub record ProjectDataRetention : Type 0 where
  pub type : String

pub record ProjectSpendAlert : Type 0 where
  pub id : String
  pub currency : String
  pub interval : String
  pub threshold_cents : ℤ
  pub recipients : List String
  pub subject_prefix : String
  pub created_at : String

pub record ProjectSpendAlertInput : Type 0 where
  pub threshold_cents : ℤ
  pub recipients : List String
  pub subject_prefix : String

-- A read of the organisation, and a write that may change it, failing or not.
abbrev pub Read : Type 0 → Type 0 → Type 0
Read Org R = Org → Option R

abbrev pub Write : Type 0 → Type 0 → Type 0
Write Org R = Org → Option R × Org

pub record AdminProvisioner (Org : Type 0) : Type 0 where
  pub list_org_users : AdminContext → Read Org (List OrgUser)
  pub list_workspaces : AdminContext → Read Org (List OrgWorkspace)
  pub list_invites : AdminContext → Read Org (List InviteResult)
  pub effective_workspace_access : AdminContext → String → Read Org (List WorkspaceAccess)
  pub invite_user : AdminContext → InviteRequest → Write Org InviteResult
  pub create_workspace : AdminContext → String → Write Org OrgWorkspace
  pub archive_workspace : AdminContext → String → Write Org (Unit {0})
  pub grant_workspace_access : AdminContext → WorkspaceGrantRequest → Write Org (Unit {0})
  pub remove_workspace_member : AdminContext → String → String → Write Org (Unit {0})
  pub set_org_role : AdminContext → String → String → Write Org OrgUser
  pub remove_org_user : AdminContext → String → Write Org (Unit {0})

pub record ProjectControlsProvisioner (Org : Type 0) : Type 0 where
  pub list_project_api_keys : AdminContext → String → Read Org (List ProjectApiKey)
  pub delete_project_api_key : AdminContext → String → String → Write Org (Unit {0})
  pub list_project_rate_limits : AdminContext → String → Read Org (List ProjectRateLimit)
  pub update_project_rate_limit :
      AdminContext → String → String → ProjectRateLimitUpdate → Write Org ProjectRateLimit
  pub get_project_model_permissions : AdminContext → String → Read Org ProjectModelPermissions
  pub set_project_model_permissions :
      AdminContext → String → ProjectModelPermissions → Write Org ProjectModelPermissions
  pub delete_project_model_permissions : AdminContext → String → Write Org (Unit {0})
  pub get_project_hosted_tool_permissions :
      AdminContext → String → Read Org ProjectHostedToolPermissions
  pub set_project_hosted_tool_permissions :
      AdminContext → String → ProjectHostedToolPermissions → Write Org ProjectHostedToolPermissions
  pub get_project_data_retention : AdminContext → String → Read Org ProjectDataRetention
  pub set_project_data_retention :
      AdminContext → String → ProjectDataRetention → Write Org ProjectDataRetention
  pub list_project_spend_alerts : AdminContext → String → Read Org (List ProjectSpendAlert)
  pub create_project_spend_alert :
      AdminContext → String → ProjectSpendAlertInput → Write Org ProjectSpendAlert
  pub update_project_spend_alert :
      AdminContext → String → String → ProjectSpendAlertInput → Write Org ProjectSpendAlert
  pub delete_project_spend_alert : AdminContext → String → String → Write Org (Unit {0})
