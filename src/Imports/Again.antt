-- ===== src/Imports/Again.antt =====
-- An import that is run again finds every line item, and its loop reads every page.
use opord_ai_demo.Base.{
  ℕ, suc, ◌+◌, Bool, true, false, some, List, [], ◌∷◌, ◌≡◌, refl, sym, ap, ◌∙◌, ◌⊎◌, inl, inr, ok,
  err, =?_iff, find, All, length, eq_refl, Bool-cases, Option-cases, Result-cases, arith,
}
use mathlib.Core.Path.{subst}
use opord_ai_demo.Db.{Env, Db, DbError, no_rows, failed, find_usage_by_key, create_usage}
use opord_ai_demo.Db.Rows.{AiUsageRecord}
use opord_ai_demo.Db.Access.{usage_by_import_key, create_usage_row, is_import_of, raw_text}
use opord_ai_demo.Imports.Rows.{
  check_failed, create_failed, Counts, CostRow, usage_row_of, import_rows,
}

-- The document of a line item carries its import key.
abbrev pub Keyed : CostRow → Type 0
Keyed r = raw_text "import_key" (some r.raw) ≡ some r.import_key

abbrev is_stored : ℕ → CostRow → AiUsageRecord → Bool
is_stored id r = is_import_of id r.start r.until "cost_usd" r.import_key

-- The line item is found.
unfoldable Stored : ℕ → Db → CostRow → Type 0
Stored id db r = (u : AiUsageRecord) × (find (is_stored id r) db.usage ≡ some u)

own_key :
    (id n : ℕ) (r : CostRow)
    → Keyed r
    → is_stored id r (record (usage_row_of id r) { id = n }) ≡ true
unfolding is_import_of
own_key id n r keyed = rw keyed (
    ground
      (arith, =?_iff id id, =?_iff r.start r.start, =?_iff r.until r.until, eq_refl r.import_key))

-- An insert keeps what is found, and the row that it writes is found.
Stored-still :
    (e : Env) (id : ℕ) (row : AiUsageRecord) (r : CostRow) (db : Db)
    → Stored id db r
    → Stored id (create_usage_row e row db).1 r
unfolding Stored create_usage_row find
Stored-still e id row r db (u, there) = elim (Bool-cases (e.fails create_usage)) [
  | inl down ↦ rw down (u, there)
  | inr up ↦ elim (Bool-cases (is_stored id r (record row { id = suc db.next_id }))) [
    | inl hit ↦ rw (up, hit) (_, refl)
    | inr miss ↦ rw (up, miss) (u, there)
  ]
]

hit_first :
    (id : ℕ) (r : CostRow) (u : AiUsageRecord) (us : List AiUsageRecord)
    → is_stored id r u ≡ true
    → find (is_stored id r) (u ∷ us) ≡ some u
unfolding find
hit_first id r u us hit = rw hit refl

Stored-now :
    (e : Env) (id : ℕ) (r : CostRow) (v : AiUsageRecord) (db db' : Db)
    → Keyed r
    → create_usage_row e (usage_row_of id r) db ≡ (ok v, db')
    → Stored id db' r
unfolding Stored create_usage_row find
Stored-now e id r v db db' keyed made = elim (Bool-cases (e.fails create_usage)) [
  | inl down ↦ absurd (ground (arith, down))
  | inr up ↦
      let row : AiUsageRecord = record (usage_row_of id r) { id = suc db.next_id } in
      let top : row ∷ db.usage ≡ db'.usage = ground (arith, up) in
      (
        row,
        subst (λ us. find (is_stored id r) us ≡ some row) top
            (hit_first id r row db.usage (own_key id (suc db.next_id) r keyed)),
      )
]

-- The look-up of the import key: found, not there, or failing.
looked_up :
    (e : Env) (id : ℕ) (r : CostRow) (db : Db)
    → (Stored id db r
        × ((u : AiUsageRecord) × (usage_by_import_key e id r.start r.until "cost_usd" r.import_key
                db
              ≡ ok u)))
      ⊎ ((usage_by_import_key e id r.start r.until "cost_usd" r.import_key db ≡ err no_rows)
          ⊎ (usage_by_import_key e id r.start r.until "cost_usd" r.import_key db ≡ err failed))
unfolding usage_by_import_key Stored
looked_up e id r db = elim (Bool-cases (e.fails find_usage_by_key)) [
  | inl down ↦ inr (inr (rw down refl))
  | inr up ↦ elim (Option-cases (find (is_stored id r) db.usage)) [
    | inl missing ↦ inr (inl (ground (arith, up, missing)))
    | inr (u, found) ↦ inl ((u, found), (u, ground (arith, up, found)))
  ]
]

-- The four ways that a line item goes.
skips :
    (e : Env) (id : ℕ) (r : CostRow) (rs : List CostRow) (c : Counts) (u : AiUsageRecord) (db : Db)
    → usage_by_import_key e id r.start r.until "cost_usd" r.import_key db ≡ ok u
    → import_rows e id (r ∷ rs) c db ≡ import_rows e id rs (record c { skipped = suc c.skipped }) db
unfolding import_rows
skips e id r rs c u db found = rw found refl

writes :
    (e : Env) (id : ℕ) (r : CostRow) (rs : List CostRow) (c : Counts) (u : AiUsageRecord) (db : Db)
    → usage_by_import_key e id r.start r.until "cost_usd" r.import_key db ≡ err no_rows
    → (create_usage_row e (usage_row_of id r) db).0 ≡ ok u
    → import_rows e id (r ∷ rs) c db
      ≡ import_rows e id rs
          (record c { imported = suc c.imported })
          (create_usage_row e (usage_row_of id r) db).1
unfolding import_rows
writes e id r rs c u db new made = rw (new, made) refl

fails_look_up :
    (e : Env) (id : ℕ) (r : CostRow) (rs : List CostRow) (c : Counts) (db : Db)
    → usage_by_import_key e id r.start r.until "cost_usd" r.import_key db ≡ err failed
    → (import_rows e id (r ∷ rs) c db).0 ≡ err (check_failed failed)
unfolding import_rows
fails_look_up e id r rs c db down = rw down refl

fails_write :
    (e : Env) (id : ℕ) (r : CostRow) (rs : List CostRow) (c : Counts) (x : DbError) (db : Db)
    → usage_by_import_key e id r.start r.until "cost_usd" r.import_key db ≡ err no_rows
    → (create_usage_row e (usage_row_of id r) db).0 ≡ err x
    → (import_rows e id (r ∷ rs) c db).0 ≡ err (create_failed x)
unfolding import_rows
fails_write e id r rs c x db new down = rw (new, down) refl

no_rows_left :
    (e : Env) (id : ℕ) (c : Counts) (db : Db)
    → import_rows e id [] c db ≡ (ok (record c { skipped = c.skipped + 0 }), db)
unfolding import_rows
no_rows_left e id c db = ap (λ n. (ok (record c { skipped = n }), db)) (omega arith)

no_look_up :
    (e : Env) (id : ℕ) (r : CostRow) (db : Db)
    → e.fails find_usage_by_key ≡ true
    → usage_by_import_key e id r.start r.until "cost_usd" r.import_key db ≡ err failed
unfolding usage_by_import_key
no_look_up e id r db down = rw down refl

found_key :
    (e : Env) (id : ℕ) (r : CostRow) (db : Db)
    → e.fails find_usage_by_key ≡ false
    → Stored id db r
    → (u : AiUsageRecord) × (usage_by_import_key e id r.start r.until "cost_usd" r.import_key db
        ≡ ok u)
unfolding usage_by_import_key Stored
found_key e id r db up (u, there) = (u, ground (arith, up, there))

import_keeps :
    (e : Env) (id : ℕ) (r : CostRow) (rs : List CostRow) (c : Counts) (db : Db)
    → Stored id db r
    → Stored id (import_rows e id rs c db).1 r
unfolding import_rows
import_keeps e id r [] c db there = there
import_keeps e id r (s ∷ rs) c db there = elim (looked_up e id s db) [
  | inl (old, (u, found)) ↦ rw found (import_keeps e id r rs _ db there)
  | inr (inr down) ↦ rw down there
  | inr (inl new) ↦
      let next = create_usage_row e (usage_row_of id s) db in
      elim (Result-cases next.0) [
        | inl (u, made) ↦
            rw (new, made) (import_keeps e id r rs _ next.1 (Stored-still e id _ r db there))
        | inr (x, down) ↦ rw (new, down) (Stored-still e id _ r db there)
      ]
]

-- One line item is stored; the rest is imported from there.
import_first :
    (e : Env) (id : ℕ) (r : CostRow) (rs : List CostRow) (c d c' : Counts) (db between : Db)
    → Stored id between r
    → import_rows e id (r ∷ rs) c db ≡ import_rows e id rs d between
    → ((import_rows e id rs d between).0 ≡ ok c'
        → All (Stored id (import_rows e id rs d between).1) rs)
    → (import_rows e id (r ∷ rs) c db).0 ≡ ok c'
    → All (Stored id (import_rows e id (r ∷ rs) c db).1) (r ∷ rs)
import_first e id r rs c d c' db between stored same rest done =
    subst (λ (t : Db). All (Stored id t) (r ∷ rs)) (sym (ap (λ o. o.1) same))
      (import_keeps e id r rs d between stored, rest (sym (ap (λ o. o.0) same) ∙ done))

import-All :
    (e : Env) (id : ℕ) (rs : List CostRow) (c c' : Counts) (db : Db)
    → All Keyed rs
    → (import_rows e id rs c db).0 ≡ ok c'
    → All (Stored id (import_rows e id rs c db).1) rs
import-All e id [] c c' db keyed done = tt
import-All e id (r ∷ rs) c c' db keyed done = elim (looked_up e id r db) [
  | inl (old, (u, found)) ↦
      let d = record c { skipped = suc c.skipped } in
      import_first e id r rs c d c' db db old (skips e id r rs c u db found)
        (import-All e id rs d c' db keyed.1) done
  | inr (inr down) ↦ absurd (cc (fails_look_up e id r rs c db down, done))
  | inr (inl new) ↦
      let next = create_usage_row e (usage_row_of id r) db in
      elim (Result-cases next.0) [
        | inl (u, made) ↦
            let d = record c { imported = suc c.imported } in
            import_first e id r rs c d c' db next.1
              (Stored-now e id r u db next.1 keyed.0 (ap (λ o. (o, next.1)) made))
              (writes e id r rs c u db new made) (import-All e id rs d c' next.1 keyed.1) done
        | inr (x, down) ↦ absurd (cc (fails_write e id r rs c x db new down, done))
      ]
]

-- Stored line items are skipped, each counted.
All-skipped :
    (e : Env) (id : ℕ) (rs : List CostRow) (c : Counts) (db : Db)
    → e.fails find_usage_by_key ≡ false
    → All (Stored id db) rs
    → import_rows e id rs c db ≡ (ok (record c { skipped = c.skipped + length rs }), db)
All-skipped e id [] c db up all = no_rows_left e id c db
All-skipped e id (r ∷ rs) c db up all =
    let (u, found) = found_key e id r db up all.0 in
    skips e id r rs c u db found
    ∙ (All-skipped e id rs (record c { skipped = suc c.skipped }) db up all.1
        ∙ ap (λ n. (ok (record c { skipped = n }), db)) (omega arith))

-- A cost import is idempotent: where importing the line items of a response, which carry their
-- import keys, has succeeded, importing them again succeeds, imports nothing, skips every one of
-- them, and changes nothing.
pub import_rows_again :
    (e : Env) (id : ℕ) (rs : List CostRow) (c c' d : Counts) (db db' : Db)
    → All Keyed rs
    → import_rows e id rs c db ≡ (ok c', db')
    → import_rows e id rs d db' ≡ (ok (record d { skipped = d.skipped + length rs }), db')
import_rows_again e id [] c c' d db db' keyed done = no_rows_left e id d db'
import_rows_again e id (r ∷ rs) c c' d db db' keyed done =
    elim (Bool-cases (e.fails find_usage_by_key)) [
      | inl down ↦
          absurd (cc (fails_look_up e id r rs c db (no_look_up e id r db down), ap (λ o. o.0) done))
      | inr up ↦ All-skipped e id (r ∷ rs) d db' up (
          subst (λ (t : Db). All (Stored id t) (r ∷ rs)) (ap (λ o. o.1) done)
            (import-All e id (r ∷ rs) c c' db keyed (ap (λ o. o.0) done)))
    ]
