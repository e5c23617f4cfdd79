-- ===== src/Db/Mcp.antt =====
-- internal/db/mcp.sql.go: the queries on `mcp_servers` and `mcp_grants`, with the constraints of
-- migrations/00022_mcp_governance.sql and 00024_mcp_grant_requests.sql. Rows are inserted in
-- front: `order by created_at desc limit 1` is the first row that passes.
use opord_ai_demo.Base.{
  ℕ, String, Bool, none, some, Option, List, ◌∷◌, Result, ok, err, if◌then◌else◌, find, any, select,
  update_where, ◌==◌, ◌=?◌, ◌&&◌, ◌||◌, not, lower,
}
use opord_ai_demo.Db.{
  Env, Db, DbError, violation, query, first_row, write, fresh, get_mcp_server_by_name,
  list_mcp_servers, create_mcp_server, update_mcp_server_status, delete_mcp_server,
  create_mcp_grant, list_mcp_grants, find_active_mcp_grant, find_latest_mcp_grant,
  set_mcp_grant_status, revoke_mcp_grant,
}
use opord_ai_demo.Db.Rows.{McpServer, McpGrant}

unfoldable pub valid_transport : String → Bool
valid_transport t = t == "stdio" || t == "http" || t == "sse"

unfoldable pub valid_risk_tier : String → Bool
valid_risk_tier t = t == "low" || t == "medium" || t == "high" || t == "critical"

unfoldable pub valid_server_status : String → Bool
valid_server_status s = s == "active" || s == "disabled"

unfoldable pub valid_grant_status : String → Bool
valid_grant_status s =
    s == "requested" || s == "active" || s == "revoked" || s == "expired" || s == "rejected"

unfoldable pub server_by_name : Env → String → Db → Result DbError McpServer
server_by_name e name db =
    query e get_mcp_server_by_name
      (first_row (find (λ (s : McpServer). s.name == name) db.mcp_servers))

unfoldable pub all_servers : Env → Db → Result DbError (List McpServer)
all_servers e db = query e list_mcp_servers (ok db.mcp_servers)

-- The status is the column's default.
unfoldable pub create_server_row :
    Env
    → String
    → String
    → String
    → String
    → String
    → List String
    → Option ℕ
    → Db
    → Result DbError McpServer × Db
unfolding valid_transport valid_risk_tier
create_server_row e name transport endpoint description risk_tier tools tenant_id db =
    write e create_mcp_server db (
      if any (λ (s : McpServer). s.name == name) db.mcp_servers
        || not (valid_transport transport && valid_risk_tier risk_tier)
      then (err violation, db)
      else let s : McpServer = record {
        id = fresh db;
        name = name;
        transport = transport;
        endpoint = endpoint;
        description = description;
        risk_tier = risk_tier;
        allowed_tools = tools;
        status = "active";
        tenant_id = tenant_id;
      } in
        (ok s, record db { next_id = fresh db; mcp_servers = s ∷ db.mcp_servers }))

unfoldable pub update_server_status : Env → ℕ → String → Db → Result DbError McpServer × Db
unfolding valid_server_status
update_server_status e id status db =
    let row = find (λ (s : McpServer). s.id =? id) db.mcp_servers in
    write e update_mcp_server_status db (elim row [
      | none ↦ (first_row none, db)
      | some s ↦
          if valid_server_status status
          then (
            ok (record s { status = status }),
            record db {
              mcp_servers =
                  update_where (λ (r : McpServer). r.id =? id) (λ r. record r { status = status })
                    db.mcp_servers;
            },
          )
          else (err violation, db)
    ])

-- The grants of the server go with it.
unfoldable pub delete_server_row : Env → ℕ → Db → Result DbError (Unit {0}) × Db
delete_server_row e id db = write e delete_mcp_server db (
  ok tt,
  record db {
    mcp_servers = select (λ (s : McpServer). not (s.id =? id)) db.mcp_servers;
    mcp_grants = select (λ (g : McpGrant). not (g.server_id =? id)) db.mcp_grants;
  },
)

unfoldable pub create_grant_row :
    Env → ℕ → String → Option ℕ → String → Option ℕ → String → Db → Result DbError McpGrant × Db
unfolding valid_grant_status
create_grant_row e server_id owner expires_at granted_by tenant_id status db =
    write e create_mcp_grant db (
      if any (λ (s : McpServer). s.id =? server_id) db.mcp_servers && valid_grant_status status
      then (let g : McpGrant = record {
        id = fresh db;
        server_id = server_id;
        owner = owner;
        status = status;
        expires_at = expires_at;
        granted_by = granted_by;
        tenant_id = tenant_id;
        revoked_at = none;
      } in
          (ok g, record db { next_id = fresh db; mcp_grants = g ∷ db.mcp_grants }))
      else (err violation, db))

unfoldable pub all_grants : Env → Db → Result DbError (List McpGrant)
all_grants e db = query e list_mcp_grants (ok db.mcp_grants)

-- `server_id = $1 and lower(owner) = lower($2)`
unfoldable pub is_grant_of : ℕ → String → McpGrant → Bool
unfolding lower
is_grant_of server_id owner g = g.server_id =? server_id && lower g.owner == lower owner

unfoldable pub latest_grant : Env → ℕ → String → Db → Result DbError McpGrant
unfolding is_grant_of
latest_grant e server_id owner db =
    query e find_latest_mcp_grant (first_row (find (is_grant_of server_id owner) db.mcp_grants))

unfoldable pub is_active_grant : ℕ → String → McpGrant → Bool
unfolding is_grant_of
is_active_grant server_id owner g = is_grant_of server_id owner g && g.status == "active"

unfoldable pub active_grant : Env → ℕ → String → Db → Result DbError McpGrant
unfolding is_active_grant
active_grant e server_id owner db =
    query e find_active_mcp_grant (first_row (find (is_active_grant server_id owner) db.mcp_grants))

unfoldable pub set_grant_status : Env → ℕ → String → Db → Result DbError McpGrant × Db
unfolding valid_grant_status
set_grant_status e id status db =
    let row = find (λ (g : McpGrant). g.id =? id) db.mcp_grants in
    write e set_mcp_grant_status db (elim row [
      | none ↦ (first_row none, db)
      | some g ↦
          if valid_grant_status status
          then (
            ok (record g { status = status }),
            record db {
              mcp_grants =
                  update_where (λ (r : McpGrant). r.id =? id) (λ r. record r { status = status })
                    db.mcp_grants;
            },
          )
          else (err violation, db)
    ])

unfoldable pub revoke_grant_row : Env → ℕ → Db → Result DbError McpGrant × Db
revoke_grant_row e id db =
    let row = find (λ (g : McpGrant). g.id =? id) db.mcp_grants in
    write e revoke_mcp_grant db (elim row [
      | none ↦ (first_row none, db)
      | some g ↦ (
        ok (record g { status = "revoked"; revoked_at = some e.now }),
        record db {
          mcp_grants =
              update_where (λ (r : McpGrant). r.id =? id)
                (λ r. record r { status = "revoked"; revoked_at = some e.now }) db.mcp_grants;
        },
      )
    ])
