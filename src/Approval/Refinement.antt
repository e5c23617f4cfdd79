-- ===== src/Approval/Refinement.antt =====
-- The operations on requests refine the workflow: each files a new pending request, or moves the
-- requests that are there along its edges.
use opord_ai_demo.Base.{
  ℕ, ◌≤◌, String, true, Option, ◌≡◌, refl, sym, ap, inl, inr, Result, ok, err, ◌==◌, find, In,
  update_where, or_else, Bool-cases, Option-cases, Result-cases, eq_iff, arith,
}
use mathlib.Core.Path.{subst}
use opord_ai_demo.Db.{Env, Db, set_request_resource}
use opord_ai_demo.Db.Rows.{Request}
use opord_ai_demo.Db.Requests.{
  request_by_name, with_id, decided, set_resource_row, valid_request_status,
}
use opord_ai_demo.Tenant.{scope_tenant, may_see}
use opord_ai_demo.Requests.{CreateRequestInput, create_request, reject_request}
use opord_ai_demo.Requests.Decisions.{decide_request_row-outcome, reject_request_outcome}
use opord_ai_demo.Providers.Adapter.{Wiring}
use opord_ai_demo.Provision.Spec.{Parsers}
use opord_ai_demo.Provision.Grant.{provision_ai_request}
use opord_ai_demo.Approval.{ApprovalError, approve_request, provision_request, settle}
use opord_ai_demo.Approval.Workflow.{
  reject, complete, fail, Distinct, update_where-Moved, request_by_name-In, decided-Moved,
  settled_AllMoved,
}
use opord_ai_demo.Approval.Untouched.{Untouched, provision_request-Untouched}
use opord_ai_demo.Approval.Creation.{create_request-Filed}
use opord_ai_demo.Approval.Filed.{WellNumbered, Filed, Follows, Filed-sound, unchanged-Filed}

set_resource_row-next_id :
    (e : Env) (id : ℕ) (ref status : String) (db : Db)
    → (set_resource_row e id ref status db).1.next_id ≡ db.next_id
unfolding set_resource_row
set_resource_row-next_id e id ref status db = elim (Bool-cases (e.fails set_request_resource)) [
  | inl down ↦ rw down refl
  | inr up ↦ elim (Bool-cases (valid_request_status status)) [
    | inr invalid ↦ rw (up, invalid) refl
    | inl valid ↦ elim (Option-cases (find (with_id id) db.requests)) [
      | inl missing ↦ ground (arith, up, missing, valid)
      | inr (r, found) ↦ ground (arith, up, found, valid)
    ]
  ]
]

-- What comes after a provisioning.
Ends : Result ApprovalError (String × String) → Type 0
Ends (ok (ref, next)) = next ≡ "completed"
Ends (err x) = Unit

settle-Filed :
    (e : Env) (by : String) (r : Request) (before : Db)
    (out : Result ApprovalError (String × String) × Db)
    → Distinct before.requests
    → In r before.requests
    → r.status ≡ "pending_approval"
    → Ends out.0
    → out.1.requests ≡ update_where (with_id r.id) (decided "approved" by "") before.requests
    → before.next_id ≤ out.1.next_id
    → Filed before (settle e r out).1
unfolding Filed Ends
settle-Filed e by r before (err x, db) apart there pending ends written grown =
    let kept = set_resource_row-next_id e r.id r.name "failed" db in
    inl (
      settled_AllMoved e by r.name "failed" r before.requests db apart there pending fail written,
      omega arith,
    )
settle-Filed e by r before (ok (ref, next), db) apart there pending ends written grown =
    let kept = set_resource_row-next_id e r.id (or_else ref r.name) "completed" db in
    rw ends (
      inl (
        settled_AllMoved e by (or_else ref r.name) "completed" r before.requests db apart there
            pending complete written,
        omega arith,
      ))

provision_request-Ends :
    (e : Env) (w : Wiring) (ps : Parsers) (r : Request) (db : Db)
    → Ends (provision_request e w ps r db).0
unfolding provision_request Ends
provision_request-Ends e w ps r db = elim (Bool-cases (r.kind == "ai_service")) [
  | inr other ↦ rw other tt
  | inl wanted ↦ elim (Result-cases (provision_ai_request e w ps r db).0) [
    | inl (i, made) ↦ rw (wanted, made) refl
    | inr (x, failure) ↦ rw (wanted, failure) tt
  ]
]

approved_is_valid : valid_request_status "approved" ≡ true
unfolding valid_request_status
approved_is_valid = refl

-- From the written decision on.
approved-Filed :
    (e : Env) (w : Wiring) (ps : Parsers) (by : String) (r : Request) (db : Db)
    → Distinct db.requests
    → In r db.requests
    → r.status ≡ "pending_approval"
    → Filed db
        (settle e r (
          provision_request e w ps r record db {
            requests = update_where (with_id r.id) (decided "approved" by "") db.requests;
          })).1
unfolding Untouched
approved-Filed e w ps by r db apart there pending =
    let db1 : Db = record db {
      requests = update_where (with_id r.id) (decided "approved" by "") db.requests;
    } in
    let (same, grown) = provision_request-Untouched e w ps r db1 db1 (refl, omega arith) in
    settle-Filed e by r db (provision_request e w ps r db1) apart there pending
      (provision_request-Ends e w ps r db1) same grown

approve_request-Filed :
    (e : Env) (w : Wiring) (ps : Parsers) (name environment by : String) (db : Db)
    → Distinct db.requests
    → Filed db (approve_request e w ps name environment by db).1
unfolding approve_request
approve_request-Filed e w ps name environment by db apart =
    elim (Result-cases (request_by_name e name (or_else environment "dev") db)) [
      | inr (x, missing) ↦ rw missing (unchanged-Filed db)
      | inl (r, found) ↦ elim (Bool-cases (may_see (scope_tenant e) r.tenant_id)) [
        | inr unseen ↦ rw (found, unseen) (unchanged-Filed db)
        | inl seen ↦ elim (Bool-cases (r.status == "pending_approval")) [
          | inr decided_before ↦ rw (found, seen, decided_before) (unchanged-Filed db)
          | inl pending ↦
              elim (decide_request_row-outcome e r.id "approved" by "" db approved_is_valid) [
                | inl (x, down) ↦ rw (found, seen, pending, down) (unchanged-Filed db)
                | inr (row, written) ↦
                    rw (found, seen, pending, written)
                      (approved-Filed e w ps by r db apart
                        (request_by_name-In e name (or_else environment "dev") r db found)
                        ((eq_iff r.status "pending_approval").0 pending))
              ]
        ]
      ]
    ]

rejected-Filed :
    (by reason : String) (r : Request) (db : Db)
    → Distinct db.requests
    → In r db.requests
    → r.status ≡ "pending_approval"
    → Filed db record db {
      requests = update_where (with_id r.id) (decided "rejected" by reason) db.requests;
    }
unfolding Filed
rejected-Filed by reason r db apart there pending = inl (
  update_where-Moved (decided "rejected" by reason) r db.requests apart there
      (decided-Moved "rejected" by reason r reject pending),
  omega arith,
)

reject_request-Filed :
    (e : Env) (name environment by reason : String) (db : Db)
    → Distinct db.requests
    → Filed db (reject_request e name environment by reason db).1
reject_request-Filed e name environment by reason db apart =
    elim (reject_request_outcome e name environment by reason db) [
      | inl (x, failure) ↦ subst (Filed db) (sym (ap (λ o. o.1) failure)) (unchanged-Filed db)
      | inr (r, found, seen, pending, out) ↦ subst (Filed db) (sym (ap (λ o. o.1) out)) (
          rejected-Filed by reason r db apart
            (request_by_name-In e name (or_else environment "dev") r db found) pending)
    ]

pub data RequestOp : Type 0 where
  file : CreateRequestInput → RequestOp
  approve_named : String → String → String → RequestOp
  reject_named : String → String → String → String → RequestOp

-- The database after an operation, whatever it answers.
unfoldable pub run : Env → Wiring → Parsers → (Request → Option String) → RequestOp → Db → Db
run e w ps ticketer (file input) db = (create_request e ticketer input db).1
run e w ps ticketer (approve_named name environment by) db =
    (approve_request e w ps name environment by db).1
run e w ps ticketer (reject_named name environment by reason) db =
    (reject_request e name environment by reason db).1

run-Filed :
    (e : Env) (w : Wiring) (ps : Parsers) (ticketer : Request → Option String) (op : RequestOp)
    (db : Db)
    → Distinct db.requests
    → Filed db (run e w ps ticketer op db)
unfolding run
run-Filed e w ps ticketer (file input) db apart = create_request-Filed e ticketer input db
run-Filed e w ps ticketer (approve_named name environment by) db apart =
    approve_request-Filed e w ps name environment by db apart
run-Filed e w ps ticketer (reject_named name environment by reason) db apart =
    reject_request-Filed e name environment by reason db apart

-- Every operation on requests refines the abstract workflow, in which a request goes from pending
-- to approved or rejected, and from approved to completed or failed: where the ids are distinct and
-- none is above the last number given, CreateRequest, ApproveRequest and RejectRequest, failing or
-- not, add one pending request or move the old ones along these edges, and leave the ids so.
pub run-Follows :
    (e : Env) (w : Wiring) (ps : Parsers) (ticketer : Request → Option String) (op : RequestOp)
    (db : Db)
    → WellNumbered db
    → Follows db.requests (run e w ps ticketer op db).requests
      × WellNumbered (run e w ps ticketer op db)
run-Follows e w ps ticketer op db numbered =
    Filed-sound db (run e w ps ticketer op db) numbered (run-Filed e w ps ticketer op db numbered.0)
