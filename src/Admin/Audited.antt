-- ===== src/Admin/Audited.antt =====
-- Every write to an organisation is audited.
use opord_ai_demo.Base.{String, Option, ◌≡◌, ◌⊎◌, ok, Bool, false, ◌∷◌}
use opord_ai_demo.Db.{Env, Db, create_audit_event}
use opord_ai_demo.Db.Rows.{AiProvider}
use opord_ai_demo.Db.Providers.{provider_by_name}
use opord_ai_demo.Tenant.{audit_event}
use opord_ai_demo.Providers.Adapter.{Provider, Wiring}
use opord_ai_demo.Admin.{
  admin_for, resolve_user_ref, invite_ai_org_user, set_ai_org_role, remove_ai_org_user,
  create_ai_workspace, archive_ai_workspace, grant_ai_workspace_access, remove_ai_workspace_member,
}
use opord_ai_demo.Admin.Answers.{
  Answer, answer, Audited, either, admin_for-provider, admin_write-Audited, granted-Audited,
  removed-Audited, unchanged-Audited,
}
use opord_ai_demo.Admin.Types.{
  AdminProvisioner, ProjectControlsProvisioner, ProjectRateLimitUpdate, ProjectModelPermissions,
  ProjectHostedToolPermissions, ProjectDataRetention, ProjectSpendAlertInput,
}
use opord_ai_demo.Admin.Projects.{
  delete_ai_project_api_key, update_ai_project_rate_limit, set_ai_project_model_permissions,
  delete_ai_project_model_permissions, set_ai_project_hosted_tool_permissions,
  set_ai_project_data_retention, create_ai_project_spend_alert, update_ai_project_spend_alert,
  delete_ai_project_spend_alert,
}
use opord_ai_demo.Base.Keeps.{reading_outcome}

-- The writes of the organisation of a provider, and of its projects.
pub data AdminOp : Type 0 where
  invite set_role : String → String → AdminOp
  remove_user create_workspace archive_workspace : String → AdminOp
  grant_access : String → String → String → AdminOp
  remove_member delete_key : String → String → AdminOp
  update_limit : String → String → ProjectRateLimitUpdate → AdminOp
  set_models : String → ProjectModelPermissions → AdminOp
  delete_models : String → AdminOp
  set_tools : String → ProjectHostedToolPermissions → AdminOp
  set_retention : String → ProjectDataRetention → AdminOp
  create_alert : String → ProjectSpendAlertInput → AdminOp
  update_alert : String → String → ProjectSpendAlertInput → AdminOp
  delete_alert : String → String → AdminOp

-- The actions of the audit events, of a failing and of a successful call.
unfoldable pub action_of : AdminOp → Bool → String
action_of (invite email role) = either "org_invite_failed" "org_user_invited"
action_of (set_role user role) = either "org_role_change_failed" "org_role_changed"
action_of (remove_user user) = either "org_user_remove_failed" "org_user_removed"
action_of (create_workspace ws) = either "workspace_create_failed" "workspace_created"
action_of (archive_workspace ws) = either "workspace_archive_failed" "workspace_archived"
action_of (grant_access ws user role) = either "workspace_grant_failed" "workspace_access_granted"
action_of (remove_member ws user) =
    either "workspace_member_remove_failed" "workspace_member_removed"
action_of (delete_key pr key) = either "project_api_key_delete_failed" "project_api_key_deleted"
action_of (update_limit pr id req) =
    either "project_rate_limit_update_failed" "project_rate_limit_updated"
action_of (set_models pr req) =
    either "project_model_permissions_update_failed" "project_model_permissions_updated"
action_of (delete_models pr) =
    either "project_model_permissions_delete_failed" "project_model_permissions_deleted"
action_of (set_tools pr req) =
    either "project_tool_permissions_update_failed" "project_tool_permissions_updated"
action_of (set_retention pr req) =
    either "project_data_retention_update_failed" "project_data_retention_updated"
action_of (create_alert pr req) =
    either "project_spend_alert_create_failed" "project_spend_alert_created"
action_of (update_alert pr id req) =
    either "project_spend_alert_update_failed" "project_spend_alert_updated"
action_of (delete_alert pr id) =
    either "project_spend_alert_delete_failed" "project_spend_alert_deleted"

-- The answer of a write.
module _ {Org : Type 0} (e : Env) (w : Wiring) (admin : Provider → Option (AdminProvisioner Org))
    (controls : Provider → Option (ProjectControlsProvisioner Org)) (name : String) where
  unfoldable pub run : AdminOp → Db × Org → Answer Org
  run (invite email role) s = answer (invite_ai_org_user e w admin name email role s)
  run (set_role user role) s = answer (set_ai_org_role e w admin name user role s)
  run (remove_user user) s = answer (remove_ai_org_user e w admin name user s)
  run (create_workspace ws) s = answer (create_ai_workspace e w admin name ws s)
  run (archive_workspace ws) s = answer (archive_ai_workspace e w admin name ws s)
  run (grant_access ws user role) s =
      answer (grant_ai_workspace_access e w admin name ws user role s)
  run (remove_member ws user) s = answer (remove_ai_workspace_member e w admin name ws user s)
  run (delete_key pr key) s = answer (delete_ai_project_api_key e w controls name pr key s)
  run (update_limit pr id req) s =
      answer (update_ai_project_rate_limit e w controls name pr id req s)
  run (set_models pr req) s = answer (set_ai_project_model_permissions e w controls name pr req s)
  run (delete_models pr) s = answer (delete_ai_project_model_permissions e w controls name pr s)
  run (set_tools pr req) s =
      answer (set_ai_project_hosted_tool_permissions e w controls name pr req s)
  run (set_retention pr req) s = answer (set_ai_project_data_retention e w controls name pr req s)
  run (create_alert pr req) s = answer (create_ai_project_spend_alert e w controls name pr req s)
  run (update_alert pr id req) s =
      answer (update_ai_project_spend_alert e w controls name pr id req s)
  run (delete_alert pr id) s = answer (delete_ai_project_spend_alert e w controls name pr id s)

  run-Audited :
      (op : AdminOp) (db : Db) (org : Org)
      → e.fails create_audit_event ≡ false
      → Audited e name (action_of op) (db, org) (run op (db, org))
  unfolding run action_of invite_ai_org_user set_ai_org_role remove_ai_org_user create_ai_workspace
      archive_ai_workspace grant_ai_workspace_access remove_ai_workspace_member
      delete_ai_project_api_key update_ai_project_rate_limit set_ai_project_model_permissions
      delete_ai_project_model_permissions set_ai_project_hosted_tool_permissions
      set_ai_project_data_retention create_ai_project_spend_alert update_ai_project_spend_alert
      delete_ai_project_spend_alert
  run-Audited (invite email role) db org up = admin_write-Audited e up w name db org admin _ _ _
  run-Audited (set_role user role) db org up = admin_write-Audited e up w name db org admin _ _ _
  run-Audited (remove_user user) db org up = admin_write-Audited e up w name db org admin _ _ _
  run-Audited (create_workspace ws) db org up = admin_write-Audited e up w name db org admin _ _ _
  run-Audited (archive_workspace ws) db org up = admin_write-Audited e up w name db org admin _ _ _
  run-Audited (grant_access ws user role) db org up =
      reading_outcome
        (λ out. Audited e name (action_of (grant_access ws user role)) (db, org) (answer out))
        (λ world. admin_for e w admin name world.0) (λ x. x) _ (db, org)
        (λ x. unchanged-Audited e up w name db org _)
        (λ c found.
          granted-Audited e up w name db org c ws role (resolve_user_ref c.admin c.context user org)
            (admin_for-provider e w admin name db c found))
  run-Audited (remove_member ws user) db org up =
      reading_outcome
        (λ out. Audited e name (action_of (remove_member ws user)) (db, org) (answer out))
        (λ world. admin_for e w admin name world.0) (λ x. x) _ (db, org)
        (λ x. unchanged-Audited e up w name db org _)
        (λ c found.
          removed-Audited e up w name db org c ws (resolve_user_ref c.admin c.context user org)
            (admin_for-provider e w admin name db c found))
  run-Audited (delete_key pr key) db org up = admin_write-Audited e up w name db org controls _ _ _
  run-Audited (update_limit pr id req) db org up =
      admin_write-Audited e up w name db org controls _ _ _
  run-Audited (set_models pr req) db org up = admin_write-Audited e up w name db org controls _ _ _
  run-Audited (delete_models pr) db org up = admin_write-Audited e up w name db org controls _ _ _
  run-Audited (set_tools pr req) db org up = admin_write-Audited e up w name db org controls _ _ _
  run-Audited (set_retention pr req) db org up =
      admin_write-Audited e up w name db org controls _ _ _
  run-Audited (create_alert pr req) db org up =
      admin_write-Audited e up w name db org controls _ _ _
  run-Audited (update_alert pr id req) db org up =
      admin_write-Audited e up w name db org controls _ _ _
  run-Audited (delete_alert pr id) db org up = admin_write-Audited e up w name db org controls _ _ _

-- Where the insertion of audit events does not fail, a write to a provider's organisation or to its
-- projects answers an error and leaves the database and the organisation as they were, or adds one
-- audit event about the named provider, and nothing else, to the database: the event's action is the
-- one of the operation's success where it succeeds, and the one of its failure where it fails.
pub admin_write_audited :
    {Org : Type 0} (e : Env) (w : Wiring) (admin : Provider → Option (AdminProvisioner Org))
    (controls : Provider → Option (ProjectControlsProvisioner Org)) (name : String) (op : AdminOp)
    (db : Db) (org : Org)
    → e.fails create_audit_event ≡ false
    → let (okay, (db', org')) = run e w admin controls name op (db, org) in
      ((okay ≡ false) × (db' ≡ db) × (org' ≡ org))
      ⊎ ((p : AiProvider) × (provider_by_name e name db ≡ ok p)
          × (db' ≡ record db {
            audit = audit_event e "ai_provider" p.id (action_of op okay) "" ∷ db.audit;
          }))
unfolding Audited
admin_write_audited e w admin controls name op db org up =
    run-Audited e w admin controls name op db org up
