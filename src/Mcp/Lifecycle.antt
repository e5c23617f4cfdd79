-- ===== src/Mcp/Lifecycle.antt =====
-- How the steps of a grant's life change what AuthorizeMCP answers.
use opord_ai_demo.Base.{
  ℕ, ◌≡◌, refl, ◌≢◌, String, true, Option, none, Result, ok, err, arith, ◌==◌, eq_iff, find, ◌||◌,
  inl, inr, Result-cases, trim, Bool-cases,
}
use opord_ai_demo.Db.{Env, Db, DbError}
use opord_ai_demo.Db.Rows.{McpServer, McpGrant}
use opord_ai_demo.Db.Mcp.{
  server_by_name, latest_grant, active_grant, is_active_grant, create_grant_row,
}
use opord_ai_demo.Tenant.{emit_audit}
use opord_ai_demo.Mcp.Authorize.{verdict, authorize_mcp, grant_expired, is_expired}
use opord_ai_demo.Mcp.Grants.{grant_mcp_access, reuse_latest, new_grant, request_mcp_access}

-- Two states that AuthorizeMCP cannot tell apart.
record SameAnswers (e : Env) (db db' : Db) : Type 0 where
  servers : (name : String) → server_by_name e name db' ≡ server_by_name e name db
  grants : (sid : ℕ) (owner : String) → active_grant e sid owner db' ≡ active_grant e sid owner db

verdict_same :
    (e : Env) (name owner tool : String) (db db' : Db)
    → SameAnswers e db db'
    → (r : Result DbError McpServer)
    → (verdict e name owner tool db' r).0 ≡ (verdict e name owner tool db r).0
unfolding verdict
verdict_same e name owner tool db db' same (err x) = refl
verdict_same e name owner tool db db' same (ok srv) = rw (same.grants srv.id (trim owner))

SameAnswers-authorize_mcp :
    (e : Env) (name owner tool : String) (db db' : Db)
    → SameAnswers e db db'
    → (authorize_mcp e name owner tool db').0 ≡ (authorize_mcp e name owner tool db).0
unfolding authorize_mcp
SameAnswers-authorize_mcp e name owner tool db db' same =
    rw (same.servers name) (verdict_same e name owner tool db db' same (server_by_name e name db))

SameAnswers-refl : (e : Env) (db : Db) → SameAnswers e db db
SameAnswers-refl e db = record { servers = λ n. refl; grants = λ s o. refl }

SameAnswers-new_grant :
    (e now : Env) (srv : McpServer) (owner by : String) (until : Option ℕ) (db : Db)
    → SameAnswers now db (new_grant e srv owner until by "requested" "requested" db).1
unfolding new_grant create_grant_row emit_audit server_by_name active_grant find is_active_grant
SameAnswers-new_grant e now srv owner by until db = ground arith

SameAnswers-reuse_latest :
    (e now : Env) (srv : McpServer) (owner by : String) (db : Db) (x : Result DbError McpGrant)
    → SameAnswers now db
        (reuse_latest x (new_grant e srv owner none by "requested" "requested") db).1
unfolding reuse_latest
SameAnswers-reuse_latest e now srv owner by db (err x) =
    SameAnswers-new_grant e now srv owner by none db
SameAnswers-reuse_latest e now srv owner by db (ok g) =
    elim (Bool-cases (g.status == "active" || g.status == "requested")) [
      | inl pending ↦ rw pending (SameAnswers-refl now db)
      | inr closed ↦ rw closed (SameAnswers-new_grant e now srv owner by none db)
    ]

SameAnswers-request :
    (e now : Env) (name owner by : String) (db : Db)
    → SameAnswers now db (request_mcp_access e name owner by db).1
unfolding request_mcp_access
SameAnswers-request e now name owner by db = elim (Bool-cases (trim owner == "")) [
  | inl blank ↦ rw blank (SameAnswers-refl now db)
  | inr given ↦ elim (Result-cases (server_by_name e name db)) [
    | inr (x, missing) ↦ rw (given, missing) (SameAnswers-refl now db)
    | inl (srv, found) ↦
        rw (given, found)
          (SameAnswers-reuse_latest e now srv (trim owner) by db
            (latest_grant e srv.id (trim owner) db))
  ]
]

-- A self-service request, whatever comes of it, changes no answer of AuthorizeMCP.
pub authorize_mcp-request :
    (e now : Env) (name owner requester : String) (asked agent tool : String) (db : Db)
    → (authorize_mcp now asked agent tool (request_mcp_access e name owner requester db).1).0
      ≡ (authorize_mcp now asked agent tool db).0
authorize_mcp-request e now name owner requester asked agent tool db =
    SameAnswers-authorize_mcp now asked agent tool db _
      (SameAnswers-request e now name owner requester db)

-- Re-granting to an owner whose newest active grant has expired does not help: whatever expiry
-- is asked for, the old grant is returned, nothing is written, and the answer stays "expired".
pub grant_mcp_access_expired :
    (e : Env) (name owner tool by : String) (until : Option ℕ) (db : Db) (srv : McpServer)
    (g : McpGrant)
    → trim owner ≢ ""
    → server_by_name e name db ≡ ok srv
    → srv.status ≡ "active"
    → active_grant e srv.id (trim owner) db ≡ ok g
    → is_expired e.now g.expires_at ≡ true
    → (grant_mcp_access e name owner until by db ≡ (ok g, db))
      × ((authorize_mcp e name owner tool (grant_mcp_access e name owner until by db).1).0.reason
          ≡ grant_expired)
unfolding grant_mcp_access authorize_mcp
grant_mcp_access_expired e name owner tool by until db srv g given found active granted late =
    let kept : grant_mcp_access e name owner until by db ≡ (ok g, db) =
      ground (arith, eq_iff (trim owner) "", eq_iff srv.status "active") in
    (kept, rw kept (rw found (ground (arith, eq_iff srv.status "active"))))
