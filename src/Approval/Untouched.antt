-- ===== src/Approval/Untouched.antt =====
-- Provisioning writes no request, and only takes new numbers.
use opord_ai_demo.Base.{ℕ, ◌≤◌, String, ◌≡◌, inl, inr, writing, ◌==◌, Bool-cases, arith}
use opord_ai_demo.Base.Keeps.{after}
use opord_ai_demo.Db.{Env, Db}
use opord_ai_demo.Db.Rows.{Request, AiServiceInstance, AiUsageRecord}
use opord_ai_demo.Db.Access.{create_instance_row, create_usage_row}
use opord_ai_demo.Tenant.{emit_audit}
use opord_ai_demo.Providers.Adapter.{Wiring}
use opord_ai_demo.Provision.Spec.{Parsers}
use opord_ai_demo.Provision.Grant.{provision_ai_request}
use opord_ai_demo.Provision.Through.{provisioned_keeps}
use opord_ai_demo.Approval.{provision_request, provisioning}

-- The same requests, and no number given back.
unfoldable pub Untouched : Db → Db → Type 0
Untouched before db = (db.requests ≡ before.requests) × (before.next_id ≤ db.next_id)

audited-Untouched :
    (before : Db) (e : Env) (t : String) (id : ℕ) (action by : String) (db : Db)
    → Untouched before db
    → Untouched before (emit_audit e t id action by db)
unfolding Untouched emit_audit
audited-Untouched before e t id action by db same = ground arith

usage-Untouched :
    (before : Db) (e : Env) (row : AiUsageRecord) (db : Db)
    → Untouched before db
    → Untouched before (create_usage_row e row db).1
unfolding Untouched create_usage_row
usage-Untouched before e row db same = ground arith

instance-Untouched :
    (before : Db) (e : Env) (row : AiServiceInstance) (db : Db)
    → Untouched before db
    → Untouched before (create_instance_row e row db).1
unfolding Untouched create_instance_row
instance-Untouched before e row db same = ground arith

pub provision_request-Untouched :
    (e : Env) (w : Wiring) (ps : Parsers) (req : Request) (before db : Db)
    → Untouched before db
    → Untouched before (provision_request e w ps req db).1
unfolding provision_request
provision_request-Untouched e w ps req before db same =
    elim (Bool-cases (req.kind == "ai_service")) [
      | inr other ↦ rw other same
      | inl wanted ↦ rw wanted (
          after (Untouched before) (writing (provision_ai_request e w ps req) provisioning) _
            (provisioned_keeps (Untouched before) (audited-Untouched before)
              (usage-Untouched before)
              (λ e w req s owner workspace until access_id observed db.
                instance-Untouched before e _ db)
              e w ps req db same)
            (λ inst s kept. kept))
    ]
