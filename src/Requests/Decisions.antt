-- ===== src/Requests/Decisions.antt =====
-- A request is created pending, seen by its author, and decided once.
use opord_ai_demo.Base.{
  ℕ, String, true, some, ◌≡◌, refl, sym, ap, ◌∙◌, ◌⊎◌, inl, inr, Result, ok, err, ◌==◌, find,
  find-update_where_hit, update_where, or_else, Bool-cases, Option-cases, Result-cases, eq_iff,
  arith,
}
use opord_ai_demo.Db.{Env, Db, DbError, no_rows, failed, decide_request}
use opord_ai_demo.Db.Rows.{Request}
use opord_ai_demo.Db.Requests.{
  request_by_name, is_called, with_id, decided, decide_request_row, valid_request_status,
}
use opord_ai_demo.Tenant.{scope_tenant, tenant_for_create, may_see}
use opord_ai_demo.Requests.{RequestError, not_pending, reject_request}

-- Deciding a row fails and writes nothing, or writes the decision on the rows of that id.
pub decide_request_row-outcome :
    (e : Env) (id : ℕ) (status by reason : String) (db : Db)
    → valid_request_status status ≡ true
    → ((x : DbError) × (decide_request_row e id status by reason db ≡ (err x, db)))
      ⊎ ((r : Request) × (decide_request_row e id status by reason db ≡ (
        ok r,
        record db { requests = update_where (with_id id) (decided status by reason) db.requests },
      )))
unfolding decide_request_row
decide_request_row-outcome e id status by reason db valid =
    elim (Bool-cases (e.fails decide_request)) [
      | inl down ↦ inl (failed, rw down refl)
      | inr up ↦ elim (Option-cases (find (with_id id) db.requests)) [
        | inl missing ↦ inl (no_rows, ground (arith, up, missing, valid))
        | inr (r, found) ↦ inr (decided status by reason r, ground (arith, up, found, valid))
      ]
    ]

pub rejected_is_valid : valid_request_status "rejected" ≡ true
unfolding valid_request_status
rejected_is_valid = refl

abbrev pub Rejected :
    Env → String → String → String → String → Db → Result RequestError (Unit {0}) × Db → Type 0
Rejected e name environment by reason db out =
    ((x : RequestError) × (out ≡ (err x, db)))
    ⊎ ((r : Request) × (request_by_name e name (or_else environment "dev") db ≡ ok r)
        × (may_see (scope_tenant e) r.tenant_id ≡ true)
        × (r.status ≡ "pending_approval")
        × (out ≡ (
          ok tt,
          record db {
            requests = update_where (with_id r.id) (decided "rejected" by reason) db.requests;
          },
        )))

-- RejectRequest either fails and changes nothing, or the request of that name was pending and the
-- caller's to see, and the decision is written on it alone.
pub reject_request_outcome :
    (e : Env) (name environment by reason : String) (db : Db)
    → Rejected e name environment by reason db (reject_request e name environment by reason db)
unfolding reject_request
reject_request_outcome e name environment by reason db =
    elim (Result-cases (request_by_name e name (or_else environment "dev") db)) [
      | inr (x, missing) ↦ rw missing (inl (_, refl))
      | inl (r, found) ↦ elim (Bool-cases (may_see (scope_tenant e) r.tenant_id)) [
        | inr unseen ↦ rw (found, unseen) (inl (_, refl))
        | inl seen ↦ elim (Bool-cases (r.status == "pending_approval")) [
          | inr decided_before ↦ rw (found, seen, decided_before) (inl (_, refl))
          | inl pending ↦
              elim (decide_request_row-outcome e r.id "rejected" by reason db rejected_is_valid) [
                | inl (x, down) ↦ rw (found, seen, pending, down) (inl (_, refl))
                | inr (row, written) ↦
                    rw (found, seen, pending, written)
                      (inr (r, refl, seen, (eq_iff r.status "pending_approval").0 pending, refl))
              ]
        ]
      ]
    ]

-- The name and the row that a look-up by name gives, after a decision on that row.
found_decided :
    (e : Env) (name environment by reason : String) (db db' : Db) (r : Request)
    → request_by_name e name environment db ≡ ok r
    → db'.requests ≡ update_where (with_id r.id) (decided "rejected" by reason) db.requests
    → request_by_name e name environment db' ≡ ok (decided "rejected" by reason r)
unfolding request_by_name is_called
found_decided e name environment by reason db db' r found written =
    let change = decided "rejected" by reason in
    let before : find (is_called name environment) db.requests ≡ some r = ground arith in
    let after : find (is_called name environment) db'.requests ≡ some (change r) =
      ap (find (is_called name environment)) written
      ∙ find-update_where_hit (with_id r.id) (is_called name environment) change r db.requests
          (λ x. refl) (ground arith) before in
    ground (arith, after)

refused_again :
    (e : Env) (name environment by reason again why : String) (db : Db) (r : Request)
    → request_by_name e name (or_else environment "dev") db ≡ ok (decided "rejected" by reason r)
    → may_see (scope_tenant e) r.tenant_id ≡ true
    → reject_request e name environment again why db ≡ (err (not_pending "rejected"), db)
unfolding reject_request
refused_again e name environment by reason again why db r found seen = rw (found, seen) refl

-- A request is decided once: after RejectRequest succeeds, a second rejection of that name is
-- refused because the request is rejected, and changes nothing.
pub reject_request_once :
    (e : Env) (name environment by reason again why : String) (db db' : Db)
    → reject_request e name environment by reason db ≡ (ok tt, db')
    → reject_request e name environment again why db' ≡ (err (not_pending "rejected"), db')
reject_request_once e name environment by reason again why db db' done =
    elim (reject_request_outcome e name environment by reason db) [
      | inl (x, failure) ↦ absurd (cc (ap (λ o. o.0) failure, ap (λ o. o.0) done))
      | inr (r, found, seen, pending, out) ↦
          refused_again e name environment by reason again why db' r
            (found_decided e name (or_else environment "dev") by reason db db' r found
              (ap (λ o. o.1.requests) (sym done ∙ out)))
            seen
    ]

-- A caller sees the rows that carry the tenant it writes.
own_row_visible : (e : Env) → may_see (scope_tenant e) (tenant_for_create e) ≡ true
unfolding may_see scope_tenant tenant_for_create
own_row_visible e = ground arith
