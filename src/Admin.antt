-- ===== src/Admin.antt =====
-- internal/orchestrator/ai_admin.go: the administration of a provider's organisation. A call works
-- on the database and on the state of the organisation.
pub mod Types
pub mod Projects
pub mod Answers
pub mod Audited
use opord_ai_demo.Base.{
  String, Bool, Option, none, some, List, Result, ok, err, Exec, reading, ◌>>=◌, if◌then◌else◌,
  trim, contains, equal_fold, find,
}
use opord_ai_demo.Db.{Env, Db, DbError}
use opord_ai_demo.Db.Rows.{AiProvider}
use opord_ai_demo.Db.Providers.{provider_by_name}
use opord_ai_demo.Tenant.{emit_audit}
use opord_ai_demo.Providers.Config.{ai_provider_config}
use opord_ai_demo.Providers.Adapter.{Provider, Wiring, ai_provider}
use opord_ai_demo.Providers.{ai_credentials}
use Types.{
  AdminContext, OrgUser, OrgWorkspace, InviteResult, WorkspaceAccess, Read, Write, AdminProvisioner,
}

pub data AdminError : Type 0 where
  not_found : DbError → AdminError
  no_adapter not_supported call_failed users_failed unknown_user : AdminError

-- A provider with its capability and what its calls are given.
pub record Capable (A : Type 0) : Type 0 where
  pub provider : AiProvider
  pub admin : A
  pub context : AdminContext

abbrev pub capable :
    {A : Type 0} → Env → Wiring → Db → AiProvider → Option A → Result AdminError (Capable A)
capable e w db p none = err not_supported
capable e w db p (some a) = ok record {
  provider = p;
  admin = a;
  context = record { credentials = ai_credentials e w p db; config = ai_provider_config p };
}

abbrev pub adapted :
    {A : Type 0}
    → Env
    → Wiring
    → (Provider → Option A)
    → Db
    → AiProvider
    → Option Provider
    → Result AdminError (Capable A)
adapted e w offers db p none = err no_adapter
adapted e w offers db p (some prov) = capable e w db p (offers prov)

abbrev pub looked_up :
    {A : Type 0}
    → Env
    → Wiring
    → (Provider → Option A)
    → Db
    → Result DbError AiProvider
    → Result AdminError (Capable A)
looked_up e w offers db (err x) = err (not_found x)
looked_up e w offers db (ok p) = adapted e w offers db p (ai_provider w p.type)

-- adminFor and projectControlsFor, which differ in the capability: `offers` is the type assertion.
unfoldable pub admin_for :
    {A : Type 0}
    → Env
    → Wiring
    → (Provider → Option A)
    → String
    → Db
    → Result AdminError (Capable A)
admin_for e w offers name db = looked_up e w offers db (provider_by_name e name db)

abbrev pub user_of : String → Option (List OrgUser) → Result AdminError String
user_of ref none = err users_failed
user_of ref (some us) = elim (find (λ (u : OrgUser). equal_fold u.email ref) us) [
  | none ↦ err unknown_user
  | some u ↦ ok u.id
]

module _ {Org : Type 0} where
  -- The read of a capable provider.
  unfoldable pub admin_read :
      {A R : Type 0}
      → Env
      → Wiring
      → (Provider → Option A)
      → String
      → (Capable A → Read Org R)
      → Exec (Db × Org) AdminError R
  admin_read e w offers name call = do
    c ← reading (λ world. admin_for e w offers name world.0) (λ x. x)
    λ world. (elim (call c world.1) [ none ↦ err call_failed | some r ↦ ok r ], world)

  -- The answer of a write, which is audited either way.
  abbrev pub answered :
      {R : Type 0}
      → Env
      → AiProvider
      → String
      → String
      → Db
      → Option R × Org
      → Result AdminError R × (Db × Org)
  answered e p failed done db (none, org) =
      (err call_failed, (emit_audit e "ai_provider" p.id failed "" db, org))
  answered e p failed done db (some r, org) =
      (ok r, (emit_audit e "ai_provider" p.id done "" db, org))

  unfoldable pub admin_write :
      {A R : Type 0}
      → Env
      → Wiring
      → (Provider → Option A)
      → String
      → String
      → String
      → (Capable A → Write Org R)
      → Exec (Db × Org) AdminError R
  admin_write e w offers name failed done call = do
    c ← reading (λ world. admin_for e w offers name world.0) (λ x. x)
    λ world. answered e c.provider failed done world.0 (call c world.1)

  unfoldable pub resolve_user_ref :
      AdminProvisioner Org → AdminContext → String → Org → Result AdminError String
  resolve_user_ref a ac ref org =
      if contains (trim ref) "@"
      then user_of (trim ref) (a.list_org_users ac org)
      else ok (trim ref)

  -- GrantAIWorkspaceAccess audits a reference that is not resolved, RemoveAIWorkspaceMember does not.
  abbrev pub granted :
      Env
      → String
      → String
      → Capable (AdminProvisioner Org)
      → Db × Org
      → Result AdminError String
      → Result AdminError (Unit {0}) × (Db × Org)
  granted e workspace_id role c (db, org) (err x) =
      (err x, (emit_audit e "ai_provider" c.provider.id "workspace_grant_failed" "" db, org))
  granted e workspace_id role c (db, org) (ok user_id) =
      answered e c.provider "workspace_grant_failed" "workspace_access_granted" db (
        c.admin.grant_workspace_access c.context
          (record { workspace_id = workspace_id; user_id = user_id; workspace_role = role }) org)

  abbrev pub removed :
      Env
      → String
      → Capable (AdminProvisioner Org)
      → Db × Org
      → Result AdminError String
      → Result AdminError (Unit {0}) × (Db × Org)
  removed e workspace_id c (db, org) (err x) = (err x, (db, org))
  removed e workspace_id c (db, org) (ok user_id) =
      answered e c.provider "workspace_member_remove_failed" "workspace_member_removed" db
        (c.admin.remove_workspace_member c.context workspace_id user_id org)

module _ {Org : Type 0} (e : Env) (w : Wiring)
    (offers : Provider → Option (AdminProvisioner Org)) where
  unfoldable pub list_ai_org_users : String → Exec (Db × Org) AdminError (List OrgUser)
  list_ai_org_users name = admin_read e w offers name (λ c. c.admin.list_org_users c.context)

  unfoldable pub list_ai_workspaces : String → Exec (Db × Org) AdminError (List OrgWorkspace)
  list_ai_workspaces name = admin_read e w offers name (λ c. c.admin.list_workspaces c.context)

  unfoldable pub list_ai_invites : String → Exec (Db × Org) AdminError (List InviteResult)
  list_ai_invites name = admin_read e w offers name (λ c. c.admin.list_invites c.context)

  unfoldable pub ai_workspace_access :
      String → String → Exec (Db × Org) AdminError (List WorkspaceAccess)
  ai_workspace_access name workspace_id =
      admin_read e w offers name (λ c. c.admin.effective_workspace_access c.context workspace_id)

  unfoldable pub invite_ai_org_user :
      String → String → String → Exec (Db × Org) AdminError InviteResult
  invite_ai_org_user name email role =
      admin_write e w offers name "org_invite_failed" "org_user_invited"
        (λ c. c.admin.invite_user c.context (record { email = email; role = role }))

  unfoldable pub set_ai_org_role : String → String → String → Exec (Db × Org) AdminError OrgUser
  set_ai_org_role name user_id role =
      admin_write e w offers name "org_role_change_failed" "org_role_changed"
        (λ c. c.admin.set_org_role c.context user_id role)

  unfoldable pub remove_ai_org_user : String → String → Exec (Db × Org) AdminError (Unit {0})
  remove_ai_org_user name user_id =
      admin_write e w offers name "org_user_remove_failed" "org_user_removed"
        (λ c. c.admin.remove_org_user c.context user_id)

  unfoldable pub create_ai_workspace : String → String → Exec (Db × Org) AdminError OrgWorkspace
  create_ai_workspace name workspace =
      admin_write e w offers name "workspace_create_failed" "workspace_created"
        (λ c. c.admin.create_workspace c.context workspace)

  unfoldable pub archive_ai_workspace : String → String → Exec (Db × Org) AdminError (Unit {0})
  archive_ai_workspace name workspace_id =
      admin_write e w offers name "workspace_archive_failed" "workspace_archived"
        (λ c. c.admin.archive_workspace c.context workspace_id)

  unfoldable pub grant_ai_workspace_access :
      String → String → String → String → Exec (Db × Org) AdminError (Unit {0})
  unfolding resolve_user_ref
  grant_ai_workspace_access name workspace_id ref role = do
    c ← reading (λ world. admin_for e w offers name world.0) (λ x. x)
    λ world. granted e workspace_id role c world (resolve_user_ref c.admin c.context ref world.1)

  unfoldable pub remove_ai_workspace_member :
      String → String → String → Exec (Db × Org) AdminError (Unit {0})
  unfolding resolve_user_ref
  remove_ai_workspace_member name workspace_id ref = do
    c ← reading (λ world. admin_for e w offers name world.0) (λ x. x)
    λ world. removed e workspace_id c world (resolve_user_ref c.admin c.context ref world.1)
