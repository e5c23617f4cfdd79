-- ===== src/Mcp/Revocation.antt =====
-- What revoking a grant, and approving it again, do to what AuthorizeMCP answers.
use opord_ai_demo.Base.{
  ℕ, ◌≡◌, refl, String, true, false, none, some, List, [], ◌∷◌, ok, err, arith, ◌=?◌, find,
  find-update_where, Option-cases, inl, inr, trim, update_where, All, Bool-cases, Bool, =?_iff,
  find-In,
}
use opord_ai_demo.Db.{
  Env, Db, DbError, set_mcp_grant_status, no_rows, failed, find_active_mcp_grant,
}
use opord_ai_demo.Db.Rows.{McpServer, McpGrant}
use opord_ai_demo.Db.Mcp.{
  server_by_name, active_grant, is_active_grant, revoke_grant_row, set_grant_status,
  valid_grant_status,
}
use opord_ai_demo.Tenant.{emit_audit}
use opord_ai_demo.Mcp.Authorize.{verdict, authorize_mcp}
use opord_ai_demo.Mcp.Grants.{approve_mcp_grant, revoke_mcp_grant}

-- What an SQL update to `revoked` makes of a row.
abbrev revoked : ℕ → McpGrant → McpGrant
revoked now g = record g { status = "revoked"; revoked_at = some now }

revoked_row :
    (e : Env) (id : ℕ) (actor : String) (db : Db) (g : McpGrant) (db' : Db)
    → revoke_mcp_grant e id actor db ≡ (ok g, db')
    → (g0 : McpGrant) × (find (λ (g : McpGrant). g.id =? id) db'.mcp_grants
        ≡ some (revoked e.now g0))
unfolding revoke_mcp_grant revoke_grant_row emit_audit
revoked_row e id actor db g db' h =
    elim (Option-cases (find (λ (g : McpGrant). g.id =? id) db.mcp_grants)) [
      | inl missing ↦ absurd (ground arith)
      | inr (g0, there) ↦ (
        g0,
        ground (
          arith,
          find-update_where (λ (g : McpGrant). g.id =? id) (revoked e.now) g0 db.mcp_grants
              (λ x. refl) there,
        ),
      )
    ]

-- A grant that was revoked can be approved again: where its query does not fail, ApproveMCPGrant
-- answers the grant of that id as active, and the stored row of that id is this one.
pub approve_mcp_grant-revoke :
    (e : Env) (id : ℕ) (actor again : String) (db : Db) (g : McpGrant) (db' : Db)
    → revoke_mcp_grant e id actor db ≡ (ok g, db')
    → e.fails set_mcp_grant_status ≡ false
    → let out = approve_mcp_grant e id again db' in
      (g' : McpGrant) × (out.0 ≡ ok g')
      × (g'.id ≡ id)
      × (g'.status ≡ "active")
      × (find (λ (g : McpGrant). g.id =? id) out.1.mcp_grants ≡ some g')
unfolding revoke_mcp_grant approve_mcp_grant emit_audit
approve_mcp_grant-revoke e id actor again db g db' gone up =
    let (g0, row) = revoked_row e id actor db g db' gone in
    let matches : McpGrant → Bool = λ g. g.id =? id in
    let stored =
      find-update_where matches (λ g. record g { status = "active" }) (revoked e.now g0)
        db'.mcp_grants (λ x. refl) row in
    (
      record (revoked e.now g0) { status = "active" },
      unfold set_grant_status valid_grant_status in ground (arith, row),
      (=?_iff g0.id id).0 (find-In matches (revoked e.now g0) db'.mcp_grants row).1,
      refl,
      unfold set_grant_status valid_grant_status in ground (arith, row, stored),
    )

revoked_inactive :
    (sid now : ℕ) (owner : String) (g : McpGrant)
    → is_active_grant sid owner (revoked now g) ≡ false
unfolding is_active_grant
revoked_inactive sid now owner g = ground arith

revoked-none :
    (id sid now : ℕ) (owner : String) (gs : List McpGrant)
    → All (λ (g : McpGrant). is_active_grant sid owner g ≡ true → g.id ≡ id) gs
    → find
        (is_active_grant sid owner)
        (update_where (λ (g : McpGrant). g.id =? id) (revoked now) gs)
      ≡ none
unfolding find update_where
revoked-none id sid now owner [] h = refl
revoked-none id sid now owner (g ∷ gs) h = elim (Bool-cases (g.id =? id)) [
  | inl same ↦ rw (same, revoked_inactive sid now owner g) (revoked-none id sid now owner gs h.1)
  | inr other ↦
      let idle : is_active_grant sid owner g ≡ false = ground (arith, h.0) in
      rw (other, idle) (revoked-none id sid now owner gs h.1)
]

revoke_writes :
    (e : Env) (id : ℕ) (actor : String) (db : Db) (g : McpGrant) (db' : Db)
    → revoke_mcp_grant e id actor db ≡ (ok g, db')
    → (db'.mcp_grants ≡ update_where (λ (g : McpGrant). g.id =? id) (revoked e.now) db.mcp_grants)
      × (db'.mcp_servers ≡ db.mcp_servers)
unfolding revoke_mcp_grant revoke_grant_row emit_audit
revoke_writes e id actor db g db' h = ground arith

no_grant :
    (e : Env) (sid : ℕ) (owner : String) (db : Db)
    → find (is_active_grant sid owner) db.mcp_grants ≡ none
    → (x : DbError) × (active_grant e sid owner db ≡ err x)
unfolding active_grant
no_grant e sid owner db h = elim (Bool-cases (e.fails find_active_mcp_grant)) [
  | inl down ↦ (failed, ground arith)
  | inr up ↦ (no_rows, ground arith)
]

denied :
    (e : Env) (name owner tool : String) (db : Db) (srv : McpServer) (x : DbError)
    → active_grant e srv.id (trim owner) db ≡ err x
    → (verdict e name owner tool db (ok srv)).0.allowed ≡ false
unfolding verdict
denied e name owner tool db srv no_rows h = ground arith
denied e name owner tool db srv _ h = ground arith

-- Once the grants of an owner that are active on a server are the one that is revoked, a check of
-- that owner on that server is denied.
pub revoke_mcp_grant-denies :
    (e : Env) (id : ℕ) (actor name owner tool : String) (db : Db) (g : McpGrant) (db' : Db)
    (srv : McpServer)
    → revoke_mcp_grant e id actor db ≡ (ok g, db')
    → server_by_name e name db ≡ ok srv
    → All (λ (g : McpGrant). is_active_grant srv.id (trim owner) g ≡ true → g.id ≡ id) db.mcp_grants
    → (authorize_mcp e name owner tool db').0.allowed ≡ false
unfolding authorize_mcp
revoke_mcp_grant-denies e id actor name owner tool db g db' srv gone found only =
    let (grants, servers) = revoke_writes e id actor db g db' gone in
    let found' : server_by_name e name db' ≡ ok srv = unfold server_by_name in ground arith in
    let (x, idle) =
      no_grant e srv.id (trim owner) db'
        (rw grants (revoked-none id srv.id e.now (trim owner) db.mcp_grants only)) in
    rw found' (denied e name owner tool db' srv x idle)
