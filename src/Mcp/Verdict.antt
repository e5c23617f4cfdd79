-- ===== src/Mcp/Verdict.antt =====
-- When AuthorizeMCP allows a connection, and what it leaves behind.
use opord_ai_demo.Base.{
  ℕ, ◌≤◌, ◌≡◌, refl, ◌⊎◌, inl, inr, String, true, false, Option, none, some, List, [], ◌∷◌, Result,
  ok, err, arith, ◌==◌, eq_iff, In, find-In, trim, lower, equal_fold, Bool-cases, All, All-In, ap,
  ◌∙◌, Bool, find_some,
}
use opord_ai_demo.Db.{
  Env, Db, DbError, no_rows, violation, failed, get_mcp_server_by_name, find_active_mcp_grant,
}
use opord_ai_demo.Db.Rows.{McpServer, McpGrant}
use opord_ai_demo.Db.Mcp.{server_by_name, active_grant, is_active_grant, is_grant_of}
use opord_ai_demo.Mcp.Authorize.{
  authorized, authorize_mcp, contains_fold, is_expired, tool_refused, verdict, grant_reason,
  is_empty,
}

server_by_name-In :
    (e : Env) (name : String) (db : Db) (srv : McpServer)
    → server_by_name e name db ≡ ok srv
    → In srv db.mcp_servers × (srv.name ≡ name)
unfolding server_by_name
server_by_name-In e name db srv h =
    ground
      (arith, find-In (λ (s : McpServer). s.name == name) srv db.mcp_servers, eq_iff srv.name name)

active_grant-In :
    (e : Env) (sid : ℕ) (owner : String) (db : Db) (g : McpGrant)
    → active_grant e sid owner db ≡ ok g
    → In g db.mcp_grants × (is_active_grant sid owner g ≡ true)
unfolding active_grant
active_grant-In e sid owner db g h =
    ground (arith, find-In (is_active_grant sid owner) g db.mcp_grants)

is_active_grant_parts :
    (sid : ℕ) (owner : String) (g : McpGrant)
    → is_active_grant sid owner g ≡ true
    → (g.server_id ≡ sid) × (lower g.owner ≡ lower owner) × (g.status ≡ "active")
unfolding is_active_grant is_grant_of
is_active_grant_parts sid owner g h =
    ground (arith, eq_iff (lower g.owner) (lower owner), eq_iff g.status "active")

grant_reason-authorized :
    (e : Env) (srv : McpServer) (tool : String) (r : Result DbError McpGrant)
    → grant_reason e srv tool r ≡ authorized
    → (g : McpGrant) × (r ≡ ok g)
      × (is_expired e.now g.expires_at ≡ false)
      × (tool_refused srv tool ≡ false)
unfolding grant_reason
grant_reason-authorized e srv tool (ok g) h = (g, refl, ground arith, ground arith)
grant_reason-authorized e srv tool (err no_rows) h = cc
grant_reason-authorized e srv tool (err violation) h = cc
grant_reason-authorized e srv tool (err failed) h = cc

allowed_reason :
    (e : Env) (name owner tool : String) (db : Db) (r : Result DbError McpServer)
    → (verdict e name owner tool db r).0.allowed ≡ true
    → (srv : McpServer) × (r ≡ ok srv)
      × (srv.status ≡ "active")
      × (grant_reason e srv tool (active_grant e srv.id (trim owner) db) ≡ authorized)
unfolding verdict
allowed_reason e name owner tool db (ok srv) h =
    (srv, refl, ground (arith, eq_iff srv.status "active"), ground arith)
allowed_reason e name owner tool db (err x) h = cc

-- A grant with this expiry still holds: none is set, or it is not past.
abbrev pub Unexpired : ℕ → Option ℕ → Type 0
Unexpired now none = Unit
Unexpired now (some t) = now ≤ t

is_expired-Unexpired :
    (now : ℕ) (until : Option ℕ) → is_expired now until ≡ false → Unexpired now until
unfolding is_expired
is_expired-Unexpired now none h = tt
is_expired-Unexpired now (some t) h = ground arith

-- A tool is fine where none is named, no list is kept, or the list has it up to case and space.
abbrev pub MayUse : McpServer → String → Type 0
MayUse srv tool =
    (trim tool ≡ "")
    ⊎ ((srv.allowed_tools ≡ [])
        ⊎ ((item : String) × In item srv.allowed_tools
            × (equal_fold (trim item) (trim tool) ≡ true)))

contains_fold-In :
    (list : List String) (v : String)
    → contains_fold list v ≡ true
    → (item : String) × In item list × (equal_fold (trim item) (trim v) ≡ true)
unfolding contains_fold
contains_fold-In [] v h = cc
contains_fold-In (item ∷ list) v h = elim (Bool-cases (equal_fold (trim item) (trim v))) [
  | inl same ↦ (item, inl refl, same)
  | inr other ↦
      let (found, place, same) = contains_fold-In list v (ground arith) in (found, inr place, same)
]

is_empty-nil : (list : List String) → is_empty list ≡ true → list ≡ []
is_empty-nil [] h = refl
is_empty-nil (t ∷ ts) h = cc

tool_refused-MayUse :
    (srv : McpServer) (tool : String) → tool_refused srv tool ≡ false → MayUse srv tool
unfolding tool_refused
tool_refused-MayUse srv tool h = elim (Bool-cases (trim tool == "")) [
  | inl blank ↦ inl ((eq_iff (trim tool) "").0 blank)
  | inr given ↦ elim (Bool-cases (contains_fold srv.allowed_tools tool)) [
    | inl listed ↦ inr (inr (contains_fold-In srv.allowed_tools tool listed))
    | inr missing ↦ inr (inl (is_empty-nil srv.allowed_tools (ground arith)))
  ]
]

-- A connection is allowed only to an active registered server whose owner holds an active
-- grant that has not expired, and for a tool that the server's list admits.
pub authorize_mcp_sound :
    (e : Env) (name owner tool : String) (db : Db)
    → (authorize_mcp e name owner tool db).0.allowed ≡ true
    → (srv : McpServer) × In srv db.mcp_servers
      × (srv.name ≡ name)
      × (srv.status ≡ "active")
      × MayUse srv tool
      × ((g : McpGrant) × In g db.mcp_grants
          × (g.server_id ≡ srv.id)
          × (lower g.owner ≡ lower (trim owner))
          × (g.status ≡ "active")
          × Unexpired e.now g.expires_at)
unfolding authorize_mcp
authorize_mcp_sound e name owner tool db h =
    let (srv, found, active, reason) =
      allowed_reason e name owner tool db (server_by_name e name db) h in
    let (g, granted, live, usable) =
      grant_reason-authorized e srv tool (active_grant e srv.id (trim owner) db) reason in
    let (here, named) = server_by_name-In e name db srv found in
    let (place, matches) = active_grant-In e srv.id (trim owner) db g granted in
    let (server, same, status) = is_active_grant_parts srv.id (trim owner) g matches in
    (
      srv,
      here,
      named,
      active,
      tool_refused-MayUse srv tool usable,
      (g, place, server, same, status, is_expired-Unexpired e.now g.expires_at live),
    )

Unexpired-is_expired :
    (now : ℕ) (until : Option ℕ) → Unexpired now until → is_expired now until ≡ false
unfolding is_expired
Unexpired-is_expired now none h = refl
Unexpired-is_expired now (some t) h = ground arith

In-contains_fold :
    (item v : String) (list : List String)
    → In item list
    → equal_fold (trim item) (trim v) ≡ true
    → contains_fold list v ≡ true
unfolding contains_fold
In-contains_fold item v [] m same = elim m [ ]
In-contains_fold item v (i ∷ list) (inl here) same =
    let hit : equal_fold (trim i) (trim v) ≡ true = cc (here, same) in rw hit refl
In-contains_fold item v (i ∷ list) (inr later) same =
    let rest = In-contains_fold item v list later same in ground (arith, rest)

MayUse-tool_refused :
    (srv : McpServer) (tool : String) → MayUse srv tool → tool_refused srv tool ≡ false
unfolding tool_refused
MayUse-tool_refused srv tool (inl blank) = ground (arith, (eq_iff (trim tool) "").1 blank)
MayUse-tool_refused srv tool (inr (inl empty)) = rw empty (ground arith)
MayUse-tool_refused srv tool (inr (inr (item, m, same))) =
    ground (arith, In-contains_fold item tool srv.allowed_tools m same)

-- An active grant of the owner on a server.
abbrev pub Grants : ℕ → String → McpGrant → Type 0
Grants sid owner g =
    (g.server_id ≡ sid) × (lower g.owner ≡ lower (trim owner)) × (g.status ≡ "active")

Grants-is_active_grant :
    (sid : ℕ) (owner : String) (g : McpGrant)
    → Grants sid owner g
    → is_active_grant sid (trim owner) g ≡ true
unfolding is_active_grant is_grant_of
Grants-is_active_grant sid owner g (server, same, status) =
    ground (arith, eq_iff (lower g.owner) (lower (trim owner)), eq_iff g.status "active")

In-server_by_name :
    (e : Env) (name : String) (db : Db) (srv : McpServer)
    → e.fails get_mcp_server_by_name ≡ false
    → In srv db.mcp_servers
    → srv.name ≡ name
    → All (λ (s : McpServer). s.name ≡ name → s ≡ srv) db.mcp_servers
    → server_by_name e name db ≡ ok srv
unfolding server_by_name
In-server_by_name e name db srv up here named only =
    let p : McpServer → Bool = λ s. s.name == name in
    let (s, found) = find_some p srv db.mcp_servers here ((eq_iff srv.name name).1 named) in
    let (place, hit) = find-In p s db.mcp_servers found in
    let same : s ≡ srv =
      All-In (λ (s : McpServer). s.name ≡ name → s ≡ srv) s db.mcp_servers only place
        ((eq_iff s.name name).0 hit) in
    ground (arith, up, found ∙ ap some same)

In-active_grant :
    (e : Env) (sid : ℕ) (owner : String) (db : Db) (g : McpGrant)
    → e.fails find_active_mcp_grant ≡ false
    → In g db.mcp_grants
    → Grants sid owner g
    → (g' : McpGrant) × (active_grant e sid (trim owner) db ≡ ok g')
unfolding active_grant
In-active_grant e sid owner db g up here grants =
    let (g', found) =
      find_some (is_active_grant sid (trim owner)) g db.mcp_grants here
        (Grants-is_active_grant sid owner g grants) in
    (g', ground (arith, up, found))

-- A connection is allowed where the two look-ups of AuthorizeMCP do not fail, the one server of the
-- name is active, its list admits the tool, the owner has an active grant on it, and no active grant
-- of that owner on it is past its expiry.
pub authorize_mcp_complete :
    (e : Env) (name owner tool : String) (db : Db) (srv : McpServer) (g : McpGrant)
    → e.fails get_mcp_server_by_name ≡ false
    → e.fails find_active_mcp_grant ≡ false
    → In srv db.mcp_servers
    → srv.name ≡ name
    → All (λ (s : McpServer). s.name ≡ name → s ≡ srv) db.mcp_servers
    → srv.status ≡ "active"
    → MayUse srv tool
    → In g db.mcp_grants
    → Grants srv.id owner g
    → All (λ (h : McpGrant). Grants srv.id owner h → Unexpired e.now h.expires_at) db.mcp_grants
    → (authorize_mcp e name owner tool db).0.allowed ≡ true
unfolding authorize_mcp
authorize_mcp_complete e name owner tool db srv g up_s up_g here named only active may place grants
      live =
    let found = In-server_by_name e name db srv up_s here named only in
    let (h, granted) = In-active_grant e srv.id owner db g up_g place grants in
    let (held, matches) = active_grant-In e srv.id (trim owner) db h granted in
    let unexpired = Unexpired-is_expired e.now h.expires_at (
      All-In (λ (h : McpGrant). Grants srv.id owner h → Unexpired e.now h.expires_at) h
        db.mcp_grants live held (is_active_grant_parts srv.id (trim owner) h matches)) in
    let usable = MayUse-tool_refused srv tool may in
    rw found (ground (arith, eq_iff srv.status "active", granted, unexpired, usable))
