-- ===== src/Approval/Creation.antt =====
-- What CreateRequest does to the table of requests: a new pending request, with a new number.
use opord_ai_demo.Base.{
  ℕ, suc, String, Bool, Option, none, some, ◌∷◌, ◌≡◌, refl, sym, ap, ◌∙◌, ◌⊎◌, inl, inr, Result, ok,
  err, writing, if◌then◌else◌, ◌==◌, find, any, update_where, not, non_empty, ◌&&◌, Bool-cases,
  Option-cases, arith, ◌||◌,
}
use opord_ai_demo.Base.Keeps.{after, after_guard}
use mathlib.Core.Path.{subst}
use opord_ai_demo.Db.{Env, Db, DbError, set_request_ticket, Query}
use opord_ai_demo.Db.Rows.{Request}
use opord_ai_demo.Db.Requests.{with_id, create_request_row, set_ticket_row, is_called, valid_kind}
use opord_ai_demo.Requests.{
  CreateRequestInput, create_failed, create_request, new_request, attach_ticket, or_old,
}
use opord_ai_demo.Approval.Workflow.{◌⟶*◌, here, Moved, AllMoved, AllMoved-refl}
use opord_ai_demo.Approval.Filed.{AllMoved-trans}
use opord_ai_demo.Approval.Filed.{update-Moved}
use opord_ai_demo.Approval.Filed.{Filed, unchanged-Filed}

-- A change of other columns.
abbrev Kept : Request → Request → Type 0
Kept r s = (s.id ≡ r.id) × (s.name ≡ r.name) × (s.kind ≡ r.kind) × (s.status ≡ r.status)

Kept-Moved : (r s : Request) → Kept r s → Moved r s
Kept-Moved r s k = (k.0, k.1, k.2, subst (λ t. r.status ⟶* t) (sym k.3) here)

-- The row at the top, changed or not.
top-Kept :
    (p : Request → Bool) (f : Request → Request) (r : Request)
    → ((r : Request) → Kept r (f r))
    → Kept r (if p r then f r else r)
top-Kept p f r h = elim (Bool-cases (p r)) [
  | inl hit ↦ rw hit (h r)
  | inr miss ↦ rw miss (refl, refl, refl, refl)
]

updated-Filed :
    (p : Request → Bool) (f : Request → Request) (before db next : Db)
    → ((r : Request) → Kept r (f r))
    → Filed before db
    → next.requests ≡ update_where p f db.requests
    → next.next_id ≡ db.next_id
    → Filed before next
unfolding Filed update_where
updated-Filed p f before db next keep (inl (moved, grown)) same id =
    let more = update-Moved p f db.requests (λ r. Kept-Moved r (f r) (keep r)) in
    inl (
      AllMoved-trans before.requests db.requests next.requests moved
          (subst (λ ss. AllMoved db.requests ss) (sym same) more),
      omega arith,
    )
updated-Filed p f before db next keep (inr (r, rest, stored, pending, id, grown, moved)) same
      fixed =
    let top = top-Kept p f r keep in
    inr (
      if p r then f r else r,
      update_where p f rest,
      same ∙ ap (update_where p f) stored,
      top.3 ∙ pending,
      top.0 ∙ id,
      omega arith,
      AllMoved-trans before.requests rest (update_where p f rest) moved
          (update-Moved p f rest (λ s. Kept-Moved s (f s) (keep s))),
    )

abbrev ticketed : String → Request → Request
ticketed ticket s = record s { ticket_ref = ticket }

set_ticket_row-cases :
    (e : Env) (id : ℕ) (ticket : String) (db : Db)
    → ((set_ticket_row e id ticket db).1 ≡ db)
      ⊎ (((set_ticket_row e id ticket db).1.requests
            ≡ update_where (with_id id) (ticketed ticket) db.requests)
          × ((set_ticket_row e id ticket db).1.next_id ≡ db.next_id))
unfolding set_ticket_row
set_ticket_row-cases e id ticket db = elim (Bool-cases (e.fails set_request_ticket)) [
  | inl down ↦ inl (rw down refl)
  | inr up ↦ elim (Option-cases (find (with_id id) db.requests)) [
    | inl missing ↦ inl (ground (arith, up, missing))
    | inr (r, found) ↦ inr (ground (arith, up, found), ground (arith, up, found))
  ]
]

ticket-Filed :
    (e : Env) (id : ℕ) (ticket : String) (before db : Db)
    → Filed before db
    → Filed before (set_ticket_row e id ticket db).1
ticket-Filed e id ticket before db filed = elim (set_ticket_row-cases e id ticket db) [
  | inl same ↦ subst (Filed before) (sym same) filed
  | inr (updated, fixed) ↦
      updated-Filed (with_id id) (ticketed ticket) before db _ (λ s. (refl, refl, refl, refl)) filed
        updated fixed
]

or_old-Filed :
    (req : Request) (before : Db) (out : Result DbError Request × Db)
    → Filed before out.1
    → Filed before (or_old req out).1
or_old-Filed req before (ok r, db) filed = filed
or_old-Filed req before (err x, db) filed = filed

attach-Filed :
    (e : Env) (ticket : Option String) (req : Request) (before db : Db)
    → Filed before db
    → Filed before (attach_ticket e ticket req db).1
unfolding attach_ticket
attach-Filed e none req before db filed = filed
attach-Filed e (some ticket) req before db filed = elim (Bool-cases (ticket == "")) [
  | inl blank ↦ rw blank filed
  | inr given ↦ rw given (or_old-Filed req before _ (ticket-Filed e req.id ticket before db filed))
]

new_row-Filed :
    (e : Env) (row : Request) (db : Db)
    → row.status ≡ "pending_approval"
    → Filed db record db {
      next_id = suc db.next_id;
      requests = record row { id = suc db.next_id; created_at = e.now } ∷ db.requests;
    }
unfolding Filed
new_row-Filed e row db pending = inr (
  record row { id = suc db.next_id; created_at = e.now },
  db.requests,
  refl,
  pending,
  refl,
  omega arith,
  AllMoved-refl db.requests,
)

new_pending :
    (e : Env) (input : CreateRequestInput) → (new_request e input).status ≡ "pending_approval"
unfolding new_request
new_pending e input = refl

inserted-Filed :
    (e : Env) (row : Request) (db : Db)
    → row.status ≡ "pending_approval"
    → Filed db (create_request_row e row db).1
unfolding create_request_row
inserted-Filed e row db pending = elim (Bool-cases (e.fails Query.create_request)) [
  | inl down ↦ rw down (unchanged-Filed db)
  | inr up ↦
      elim (Bool-cases
        (any (is_called row.name row.environment) db.requests || not (valid_kind row.kind))) [
          | inl refused ↦ rw (up, refused) (unchanged-Filed db)
          | inr accepted ↦ rw (up, accepted) (new_row-Filed e row db pending)
        ]
]

pub create_request-Filed :
    (e : Env) (ticketer : Request → Option String) (input : CreateRequestInput) (db : Db)
    → Filed db (create_request e ticketer input db).1
unfolding create_request
create_request-Filed e ticketer input db =
    after_guard (Filed db)
      (non_empty input.name && non_empty input.provider && non_empty input.kind) _ _
      (unchanged-Filed db)
      (λ _. after_guard (Filed db) (input.kind == "ai_service") _ _ (unchanged-Filed db) (λ _.
        after (Filed db) (writing (create_request_row e (new_request e input)) create_failed) _
          (inserted-Filed e (new_request e input) db (new_pending e input))
          (λ req s filed. attach-Filed e (ticketer req) req db s filed)))
