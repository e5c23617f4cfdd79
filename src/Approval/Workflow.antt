-- ===== src/Approval/Workflow.antt =====
-- The workflow of a request as a state machine, which every operation on requests follows.
use opord_ai_demo.Base.{
  ℕ, String, false, List, [], ◌∷◌, ◌≡◌, refl, sym, ap, ◌∙◌, ◌⊎◌, inl, inr, ◌≢◌, ok, ◌=?◌, =?_iff,
  find, find-In, In, All, update_where, Bool-cases, Option-cases, arith, All-In,
}
use opord_ai_demo.Db.{Env, Db, set_request_resource}
use opord_ai_demo.Db.Rows.{Request}
use opord_ai_demo.Db.Requests.{
  with_id, decided, with_resource, request_by_name, is_called, set_resource_row,
  valid_request_status,
}
use mathlib.Core.Path.{subst}

-- The statuses of a request, and the edges between them.
infix 40 ◌⟶◌ ◌⟶*◌
pub data ◌⟶◌ : String → String → Type 0 where
  approve : "pending_approval" ⟶ "approved"
  reject : "pending_approval" ⟶ "rejected"
  complete : "approved" ⟶ "completed"
  fail : "approved" ⟶ "failed"

pub data ◌⟶*◌ : String → String → Type 0 where
  here : {s : String} → s ⟶* s
  step : {s t u : String} → s ⟶ t → t ⟶* u → s ⟶* u

-- No two rows have one id.
abbrev pub Distinct : List Request → Type 0
Distinct [] = Unit
Distinct (r ∷ rs) = All (λ (s : Request). s.id ≢ r.id) rs × Distinct rs

-- Row by row: the same request, moved along the edges.
abbrev pub Moved : Request → Request → Type 0
Moved r s = (s.id ≡ r.id) × (s.name ≡ r.name) × (s.kind ≡ r.kind) × (r.status ⟶* s.status)

abbrev pub AllMoved : List Request → List Request → Type 0
AllMoved [] [] = Unit
AllMoved [] (s ∷ ss) = ⊥
AllMoved (r ∷ rs) [] = ⊥
AllMoved (r ∷ rs) (s ∷ ss) = Moved r s × AllMoved rs ss

pub Moved-refl : (r : Request) → Moved r r
Moved-refl r = (refl, refl, refl, here)

pub AllMoved-refl : (rs : List Request) → AllMoved rs rs
AllMoved-refl [] = tt
AllMoved-refl (r ∷ rs) = (Moved-refl r, AllMoved-refl rs)

update_where-elsewhere :
    (id : ℕ) (f : Request → Request) (rs : List Request)
    → All (λ (s : Request). s.id ≢ id) rs
    → update_where (with_id id) f rs ≡ rs
unfolding update_where
update_where-elsewhere id f [] all = refl
update_where-elsewhere id f (r ∷ rs) all =
    ground (arith, all.0, =?_iff r.id id, update_where-elsewhere id f rs all.1)

-- The one row of an id is moved by an update of that id.
pub update_where-Moved :
    (f : Request → Request) (r : Request) (rs : List Request)
    → Distinct rs
    → In r rs
    → Moved r (f r)
    → AllMoved rs (update_where (with_id r.id) f rs)
unfolding update_where
update_where-Moved f r [] apart m h = elim m [ ]
update_where-Moved f r (x ∷ rs) apart (inl same) h =
    subst (λ (y : Request). AllMoved (x ∷ rs) (update_where (with_id y.id) f (x ∷ rs))) same
      (rw ((=?_iff x.id x.id).1 refl, update_where-elsewhere x.id f rs apart.0)
        (subst (λ y. Moved y (f y)) (sym same) h, AllMoved-refl rs))
update_where-Moved f r (x ∷ rs) apart (inr later) h =
    let other : (x.id =? r.id) ≡ false =
      ground (arith, =?_iff x.id r.id, All-In (λ (s : Request). s.id ≢ x.id) r rs apart.0 later) in
    rw other (Moved-refl x, update_where-Moved f r rs apart.1 later h)

-- Two updates of one id are an update by both.
update_where-twice :
    (id : ℕ) (f g : Request → Request) (rs : List Request)
    → ((r : Request) → (g r).id ≡ r.id)
    → update_where (with_id id) f (update_where (with_id id) g rs)
      ≡ update_where (with_id id) (λ r. f (g r)) rs
unfolding update_where
update_where-twice id f g [] keep = refl
update_where-twice id f g (r ∷ rs) keep = ground (arith, keep r, update_where-twice id f g rs keep)

-- A look-up by name gives a row of the table.
pub request_by_name-In :
    (e : Env) (name environment : String) (r : Request) (db : Db)
    → request_by_name e name environment db ≡ ok r
    → In r db.requests
unfolding request_by_name
request_by_name-In e name environment r db found =
    (find-In (is_called name environment) r db.requests (ground arith)).0

pub decided-Moved :
    (status by reason : String) (r : Request)
    → "pending_approval" ⟶ status
    → r.status ≡ "pending_approval"
    → Moved r (decided status by reason r)
decided-Moved status by reason r edge pending =
    (refl, refl, refl, subst (λ s. s ⟶* status) (sym pending) (step edge here))

settled-Moved :
    (by ref status : String) (r : Request)
    → "approved" ⟶ status
    → r.status ≡ "pending_approval"
    → Moved r (with_resource ref status (decided "approved" by "" r))
settled-Moved by ref status r edge pending =
    (refl, refl, refl, subst (λ s. s ⟶* status) (sym pending) (step approve (step edge here)))

set_resource_row-outcome :
    (e : Env) (id : ℕ) (ref status : String) (db : Db)
    → ((set_resource_row e id ref status db).1.requests ≡ db.requests)
      ⊎ ((set_resource_row e id ref status db).1.requests
          ≡ update_where (with_id id) (with_resource ref status) db.requests)
unfolding set_resource_row
set_resource_row-outcome e id ref status db = elim (Bool-cases (e.fails set_request_resource)) [
  | inl down ↦ inl (rw down refl)
  | inr up ↦ elim (Bool-cases (valid_request_status status)) [
    | inr invalid ↦ inl (rw (up, invalid) refl)
    | inl valid ↦ elim (Option-cases (find (with_id id) db.requests)) [
      | inl missing ↦ inl (ground (arith, up, missing, valid))
      | inr (r, found) ↦ inr (ground (arith, up, found, valid))
    ]
  ]
]

-- The last write of an approval, on a table where the decision is written.
pub settled_AllMoved :
    (e : Env) (by ref status : String) (r : Request) (rs : List Request) (db : Db)
    → Distinct rs
    → In r rs
    → r.status ≡ "pending_approval"
    → "approved" ⟶ status
    → db.requests ≡ update_where (with_id r.id) (decided "approved" by "") rs
    → AllMoved rs (set_resource_row e r.id ref status db).1.requests
settled_AllMoved e by ref status r rs db apart there pending edge written =
    elim (set_resource_row-outcome e r.id ref status db) [
      | inl same ↦
          subst (λ ss. AllMoved rs ss) (sym (same ∙ written))
            (update_where-Moved (decided "approved" by "") r rs apart there
              (decided-Moved "approved" by "" r approve pending))
      | inr set ↦
          subst (λ ss. AllMoved rs ss)
            (sym (
              set
              ∙ (ap (update_where (with_id r.id) (with_resource ref status)) written
                  ∙ update_where-twice r.id (with_resource ref status) (decided "approved" by "") rs
                      (λ s. refl))))
            (update_where-Moved (λ s. with_resource ref status (decided "approved" by "" s)) r rs
              apart there (settled-Moved by ref status r edge pending))
    ]
