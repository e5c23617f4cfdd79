-- ===== src/Requests/Creation.antt =====
-- What RequestStatus shows of a request that CreateRequest made.
use opord_ai_demo.Base.{
  String, true, false, Option, none, some, List, ◌∷◌, ◌≡◌, refl, ap, ◌∙◌, ◌⊎◌, inl, inr, ok, err,
  ◌==◌, find, update_where, or_else, Bool-cases, Result-cases, eq_refl, arith,
}
use mathlib.Core.Path.{subst}
use opord_ai_demo.Db.{Env, Db, failed, get_request_by_name, set_request_ticket}
use opord_ai_demo.Db.Rows.{Request}
use opord_ai_demo.Db.Requests.{
  request_by_name, is_called, with_id, create_request_row, set_ticket_row,
}
use opord_ai_demo.Tenant.{scope_tenant, tenant_for_create, may_see}
use opord_ai_demo.Requests.{
  CreateRequestInput, create_request, request_status, new_request, attach_ticket,
}

-- The row is the one that was to be written, but for its id, its time and its ticket.
record SameRequest (r row : Request) : Type 0 where
  name : r.name ≡ row.name
  environment : r.environment ≡ row.environment
  kind : r.kind ≡ row.kind
  status : r.status ≡ row.status
  tenant_id : r.tenant_id ≡ row.tenant_id

abbrev OnTop : Request → Request → Db → Type 0
OnTop row r db = SameRequest r row × ((rest : List Request) × (db.requests ≡ r ∷ rest))

create_request_row-OnTop :
    (e : Env) (row r : Request) (db db' : Db)
    → create_request_row e row db ≡ (ok r, db')
    → OnTop row r db'
unfolding create_request_row
create_request_row-OnTop e row r db db' made = (
  record {
    name = ground arith;
    environment = ground arith;
    kind = ground arith;
    status = ground arith;
    tenant_id = ground arith;
  },
  (db.requests, ground arith),
)

abbrev ticketed : String → Request → Request
ticketed ticket r = record r { ticket_ref = ticket }

set_ticket_row-outcome :
    (e : Env) (ticket : String) (req : Request) (rest : List Request) (db : Db)
    → db.requests ≡ req ∷ rest
    → (set_ticket_row e req.id ticket db ≡ (err failed, db))
      ⊎ (set_ticket_row e req.id ticket db ≡ (
        ok (ticketed ticket req),
        record db {
          requests = ticketed ticket req ∷ update_where (with_id req.id) (ticketed ticket) rest;
        },
      ))
unfolding set_ticket_row find update_where
set_ticket_row-outcome e ticket req rest db stored =
    elim (Bool-cases (e.fails set_request_ticket)) [
      | inl down ↦ inl (rw down refl)
      | inr up ↦ inr (rw (up, stored) (ground arith))
    ]

OnTop-same :
    (row req r : Request) (db db' : Db) → OnTop row req db → req ≡ r → db ≡ db' → OnTop row r db'
OnTop-same row req r db db' top same stored =
    subst (λ s. OnTop row s db') same (subst (OnTop row req) stored top)

attach_ticket-OnTop :
    (e : Env) (ticket : Option String) (row req r : Request) (db db' : Db)
    → OnTop row req db
    → attach_ticket e ticket req db ≡ (ok r, db')
    → OnTop row r db'
unfolding attach_ticket
attach_ticket-OnTop e none row req r db db' top done =
    OnTop-same row req r db db' top (ground arith) (ap (λ o. o.1) done)
attach_ticket-OnTop e (some ticket) row req r db db' (same, (rest, stored)) done =
    elim (Bool-cases (ticket == "")) [
      | inl blank ↦ OnTop-same row req r db db' (same, (rest, stored)) (ground arith) (ground arith)
      | inr given ↦ elim (set_ticket_row-outcome e ticket req rest db stored) [
        | inl down ↦
            OnTop-same row req r db db' (same, (rest, stored)) (ground (arith, down))
              (ground (arith, down))
        | inr written ↦
            OnTop-same row (ticketed ticket req) r
              (record db {
                requests =
                    ticketed ticket req ∷ update_where (with_id req.id) (ticketed ticket) rest;
              })
              db'
              (
                record {
                  name = same.name;
                  environment = same.environment;
                  kind = same.kind;
                  status = same.status;
                  tenant_id = same.tenant_id;
                },
                (update_where (with_id req.id) (ticketed ticket) rest, refl),
              )
              (ground (arith, written)) (ground (arith, written))
      ]
    ]

request_by_name-OnTop :
    (e : Env) (row r : Request) (db : Db)
    → OnTop row r db
    → e.fails get_request_by_name ≡ false
    → request_by_name e row.name row.environment db ≡ ok r
unfolding request_by_name is_called find
request_by_name-OnTop e row r db (same, (rest, stored)) up =
    rw (up, stored, same.name, same.environment, eq_refl row.name, eq_refl row.environment) refl

-- A caller sees the rows that carry the tenant it writes.
own_row_visible : (e : Env) → may_see (scope_tenant e) (tenant_for_create e) ≡ true
unfolding may_see scope_tenant tenant_for_create
own_row_visible e = ground arith

created_parts :
    (e : Env) (ticketer : Request → Option String) (input : CreateRequestInput) (db db' : Db)
    (r : Request)
    → create_request e ticketer input db ≡ (ok r, db')
    → (req : Request) × (between : Db) × (create_request_row e (new_request e input) db
        ≡ (ok req, between))
      × (attach_ticket e (ticketer req) req between ≡ (ok r, db'))
unfolding create_request
created_parts e ticketer input db db' r made =
    elim (Result-cases (create_request_row e (new_request e input) db).0) [
      | inl (req, stored) ↦
          (req, (create_request_row e (new_request e input) db).1, ground arith, ground arith)
      | inr (x, failure) ↦ absurd (ground arith)
    ]

status_of_visible :
    (e : Env) (name environment : String) (db : Db) (r : Request)
    → request_by_name e name (or_else environment "dev") db ≡ ok r
    → may_see (scope_tenant e) r.tenant_id ≡ true
    → request_status e name environment db ≡ (ok r, db)
unfolding request_status
status_of_visible e name environment db r found seen = rw (found, seen) refl

-- Where CreateRequest succeeds and the look-up does not fail, RequestStatus shows the request to
-- its author: pending, of the kind that was asked for, with the author's tenant.
pub request_status-create_request :
    (e : Env) (ticketer : Request → Option String) (input : CreateRequestInput) (db db' : Db)
    (r : Request)
    → create_request e ticketer input db ≡ (ok r, db')
    → e.fails get_request_by_name ≡ false
    → (request_status e input.name input.environment db' ≡ (ok r, db'))
      × (r.status ≡ "pending_approval")
      × (r.kind ≡ input.kind)
      × (r.tenant_id ≡ tenant_for_create e)
unfolding new_request
request_status-create_request e ticketer input db db' r made up =
    let (req, between, stored, attached) = created_parts e ticketer input db db' r made in
    let row = new_request e input in
    let top =
      attach_ticket-OnTop e (ticketer req) row req r between db'
        (create_request_row-OnTop e row req db between stored) attached in
    (
      status_of_visible e input.name input.environment db' r
          (request_by_name-OnTop e row r db' top up)
          (ap (may_see (scope_tenant e)) top.0.tenant_id ∙ own_row_visible e),
      top.0.status,
      top.0.kind,
      top.0.tenant_id,
    )
