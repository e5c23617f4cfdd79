-- ===== src/Db/Requests.antt =====
-- internal/db/requests.sql.go: the queries on `requests`, with the constraints of
-- migrations/00007_requests.sql and 00021_ai_governance_domain.sql.
use opord_ai_demo.Base.{
  ℕ, String, Bool, none, some, List, ◌∷◌, Result, ok, err, if◌then◌else◌, find, any, update_where,
  ◌==◌, ◌=?◌, ◌&&◌, ◌||◌, not,
}
use opord_ai_demo.Db.{
  Env, Db, DbError, violation, query, first_row, write, fresh, create_request, get_request_by_name,
  list_requests, set_request_ticket, decide_request, set_request_resource,
}
use opord_ai_demo.Db.Rows.{Request}

unfoldable pub is_called : String → String → Request → Bool
is_called name environment r = r.name == name && r.environment == environment

unfoldable pub request_by_name : Env → String → String → Db → Result DbError Request
request_by_name e name environment db =
    query e get_request_by_name (first_row (find (is_called name environment) db.requests))

unfoldable pub all_requests : Env → Db → Result DbError (List Request)
all_requests e db = query e list_requests (ok db.requests)

unfoldable pub valid_kind : String → Bool
valid_kind k =
    k == "vm"
    || k == "cluster"
    || k == "database"
    || k == "stack"
    || k == "environment"
    || k == "project"
    || k == "account"
    || k == "ai_service"

-- The row is given with any id and creation time, which the insert replaces.
unfoldable pub create_request_row : Env → Request → Db → Result DbError Request × Db
unfolding is_called valid_kind
create_request_row e row db =
    let r = record row { id = fresh db; created_at = e.now } in
    write e create_request db (
      if any (is_called row.name row.environment) db.requests || not (valid_kind row.kind)
      then (err violation, db)
      else (ok r, record db { next_id = fresh db; requests = r ∷ db.requests }))

abbrev pub with_id : ℕ → Request → Bool
with_id id r = r.id =? id

update_request : (Request → Request) → ℕ → Db → Result DbError Request × Db
update_request change id db = elim (find (with_id id) db.requests) [
  | none ↦ (first_row none, db)
  | some r ↦ (ok (change r), record db { requests = update_where (with_id id) change db.requests })
]

unfoldable pub set_ticket_row : Env → ℕ → String → Db → Result DbError Request × Db
unfolding update_request
set_ticket_row e id ticket db =
    write e set_request_ticket db (update_request (λ r. record r { ticket_ref = ticket }) id db)

abbrev pub decided : String → String → String → Request → Request
decided status by reason r = record r { status = status; decided_by = by; reason = reason }

unfoldable pub valid_request_status : String → Bool
valid_request_status s =
    s == "pending_approval"
    || s == "approved"
    || s == "rejected"
    || s == "provisioning"
    || s == "completed"
    || s == "failed"

unfoldable pub decide_request_row :
    Env → ℕ → String → String → String → Db → Result DbError Request × Db
unfolding update_request valid_request_status
decide_request_row e id status by reason db = write e decide_request db (
    if valid_request_status status
    then update_request (decided status by reason) id db
    else (err violation, db))

abbrev pub with_resource : String → String → Request → Request
with_resource ref status r = record r { resource_ref = ref; status = status }

unfoldable pub set_resource_row : Env → ℕ → String → String → Db → Result DbError Request × Db
unfolding update_request valid_request_status
set_resource_row e id ref status db = write e set_request_resource db (
    if valid_request_status status
    then update_request (with_resource ref status) id db
    else (err violation, db))
