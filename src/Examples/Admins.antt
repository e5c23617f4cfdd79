-- ===== src/Examples/Admins.antt =====
-- A run of the theorem on the administration of an organisation.
use opord_ai_demo.Base.{String, refl, false, Option, none, some, ok, List, [], ◌∷◌, ◌≡◌, ◌⊎◌}
use opord_ai_demo.Db.Rows.{AiProvider}
use opord_ai_demo.Db.Providers.{provider_by_name}
use opord_ai_demo.Tenant.{audit_event}
use opord_ai_demo.Providers.Adapter.{Provider}
use opord_ai_demo.Admin.Types.{AdminProvisioner, ProjectControlsProvisioner}
use opord_ai_demo.Admin.Audited.{action_of, invite, run, admin_write_audited}
use opord_ai_demo.Examples.{env, db}
use opord_ai_demo.Examples.Providers.{wiring}

-- An organisation is its invited addresses; nothing else works.
abbrev club : AdminProvisioner (List String)
club = record {
  list_org_users = λ c us. none;
  list_workspaces = λ c us. none;
  list_invites = λ c us. none;
  effective_workspace_access = λ c ws us. none;
  invite_user = λ c r us. (
    some record {
      invite_id = "inv-1";
      email = r.email;
      role = r.role;
      status = "pending";
      invited_at = "";
      expires_at = "";
    },
    r.email ∷ us,
  );
  create_workspace = λ c ws us. (none, us);
  archive_workspace = λ c ws us. (none, us);
  grant_workspace_access = λ c r us. (none, us);
  remove_workspace_member = λ c ws user us. (none, us);
  set_org_role = λ c user role us. (none, us);
  remove_org_user = λ c user us. (none, us);
}

abbrev runs_club : Provider → Option (AdminProvisioner (List String))
runs_club p = some club

abbrev no_controls : Provider → Option (ProjectControlsProvisioner (List String))
no_controls p = none

admin_write_audited_example :
    let (okay, (db', org')) =
      run env wiring runs_club no_controls "mock" (invite "eve@acme.io" "user") (db, []) in
    ((okay ≡ false) × (db' ≡ db) × (org' ≡ []))
    ⊎ ((p : AiProvider) × (provider_by_name env "mock" db ≡ ok p)
        × (db' ≡ record db {
          audit =
              audit_event env "ai_provider" p.id (action_of (invite "eve@acme.io" "user") okay) ""
              ∷ db.audit;
        }))
admin_write_audited_example =
    admin_write_audited env wiring runs_club no_controls "mock" (invite "eve@acme.io" "user") db []
      refl
