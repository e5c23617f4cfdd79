-- ===== src/Approval/Filed.antt =====
-- The table of requests after an operation, against the abstract step of the workflow.
use opord_ai_demo.Base.{
  ℕ, suc, ◌≤◌, String, Bool, List, [], ◌∷◌, ◌≡◌, sym, ◌∙◌, ◌⊎◌, inl, inr, ◌≢◌, All, update_where,
  Bool-cases, arith,
}
use mathlib.Core.Path.{subst}
use opord_ai_demo.Db.{Db}
use opord_ai_demo.Db.Rows.{Request}
use opord_ai_demo.Approval.Workflow.{
  ◌⟶*◌, here, step, Distinct, Moved, AllMoved, AllMoved-refl, Moved-refl,
}

path_trans : (s t u : String) → s ⟶* t → t ⟶* u → s ⟶* u
path_trans s t u here q = q
path_trans s t u (step e p) q = step e (path_trans _ t u p q)

Moved-trans : (r s t : Request) → Moved r s → Moved s t → Moved r t
Moved-trans r s t p q =
    (q.0 ∙ p.0, q.1 ∙ p.1, q.2 ∙ p.2, path_trans r.status s.status t.status p.3 q.3)

pub AllMoved-trans : (rs ss ts : List Request) → AllMoved rs ss → AllMoved ss ts → AllMoved rs ts
AllMoved-trans [] [] ts p q = q
AllMoved-trans [] (s ∷ ss) ts p q = elim p [ ]
AllMoved-trans (r ∷ rs) [] ts p q = elim p [ ]
AllMoved-trans (r ∷ rs) (s ∷ ss) [] p q = q
AllMoved-trans (r ∷ rs) (s ∷ ss) (t ∷ ts) p q =
    (Moved-trans r s t p.0 q.0, AllMoved-trans rs ss ts p.1 q.1)

-- What holds of the ids goes on to hold.
AllMoved-ids :
    (P : ℕ → Type 0) (rs ss : List Request)
    → AllMoved rs ss
    → All (λ (r : Request). P r.id) rs
    → All (λ (s : Request). P s.id) ss
AllMoved-ids P [] [] m all = all
AllMoved-ids P [] (s ∷ ss) m all = elim m [ ]
AllMoved-ids P (r ∷ rs) [] m all = elim m [ ]
AllMoved-ids P (r ∷ rs) (s ∷ ss) m all = (subst P (sym m.0.0) all.0, AllMoved-ids P rs ss m.1 all.1)

AllMoved-Distinct : (rs ss : List Request) → AllMoved rs ss → Distinct rs → Distinct ss
AllMoved-Distinct [] [] m d = d
AllMoved-Distinct [] (s ∷ ss) m d = elim m [ ]
AllMoved-Distinct (r ∷ rs) [] m d = elim m [ ]
AllMoved-Distinct (r ∷ rs) (s ∷ ss) m d = (
  subst (λ n. All (λ (t : Request). t.id ≢ n) ss) (sym m.0.0)
      (AllMoved-ids (λ n. n ≢ r.id) rs ss m.1 d.0),
  AllMoved-Distinct rs ss m.1 d.1,
)

-- The ids are distinct, and none is above the last number given.
abbrev pub WellNumbered : Db → Type 0
WellNumbered db = Distinct db.requests × All (λ (r : Request). r.id ≤ db.next_id) db.requests

-- The table after an operation: moved row by row, or with one new row.
unfoldable pub Filed : Db → Db → Type 0
Filed before db =
    (AllMoved before.requests db.requests × (before.next_id ≤ db.next_id))
    ⊎ ((r : Request) × (rest : List Request) × (db.requests ≡ r ∷ rest)
        × (r.status ≡ "pending_approval")
        × (r.id ≡ suc before.next_id)
        × (suc before.next_id ≤ db.next_id)
        × AllMoved before.requests rest)

-- The abstract step: one pending request more, or the old ones moved along the workflow.
abbrev pub Follows : List Request → List Request → Type 0
Follows rs ss =
    AllMoved rs ss
    ⊎ ((r : Request) × (rest : List Request) × (ss ≡ r ∷ rest)
        × (r.status ≡ "pending_approval")
        × AllMoved rs rest)

weaken_bound :
    (n m : ℕ) (rs : List Request)
    → n ≤ m
    → All (λ (r : Request). r.id ≤ n) rs
    → All (λ (r : Request). r.id ≤ m) rs
weaken_bound n m [] h all = tt
weaken_bound n m (r ∷ rs) h all = (omega arith, weaken_bound n m rs h all.1)

above-All :
    (n : ℕ) (rs : List Request)
    → All (λ (r : Request). r.id ≤ n) rs
    → All (λ (r : Request). r.id ≢ suc n) rs
above-All n [] all = tt
above-All n (r ∷ rs) all = (ground (arith, all.0), above-All n rs all.1)

pub Filed-sound :
    (before db : Db)
    → WellNumbered before
    → Filed before db
    → Follows before.requests db.requests × WellNumbered db
unfolding Filed
Filed-sound before db (apart, bound) (inl (moved, grown)) =
    let ids = AllMoved-ids (λ n. n ≤ before.next_id) before.requests db.requests moved bound in
    (
      inl moved,
      (
        AllMoved-Distinct before.requests db.requests moved apart,
        weaken_bound before.next_id db.next_id db.requests grown ids,
      ),
    )
Filed-sound before db (apart, bound) (inr (r, rest, stored, pending, id, grown, moved)) =
    let old = AllMoved-ids (λ n. n ≤ before.next_id) before.requests rest moved bound in
    let others =
      subst (λ n. All (λ (t : Request). t.id ≢ n) rest) (sym id)
        (above-All before.next_id rest old) in
    (
      inr (r, rest, stored, pending, moved),
      (
        subst Distinct (sym stored) (others, AllMoved-Distinct before.requests rest moved apart),
        subst (λ ss. All (λ (s : Request). s.id ≤ db.next_id) ss) (sym stored)
            (omega arith, weaken_bound before.next_id db.next_id rest (omega arith) old),
      ),
    )

-- An update that keeps ids, names, kinds and statuses moves nothing.
pub update-Moved :
    (p : Request → Bool) (f : Request → Request) (rs : List Request)
    → ((r : Request) → Moved r (f r))
    → AllMoved rs (update_where p f rs)
unfolding update_where
update-Moved p f [] h = tt
update-Moved p f (r ∷ rs) h = elim (Bool-cases (p r)) [
  | inl hit ↦ rw hit (h r, update-Moved p f rs h)
  | inr miss ↦ rw miss (Moved-refl r, update-Moved p f rs h)
]

pub unchanged-Filed : (db : Db) → Filed db db
unfolding Filed
unchanged-Filed db = inl (AllMoved-refl db.requests, omega arith)
