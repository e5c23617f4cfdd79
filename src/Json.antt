-- ===== src/Json.antt =====
-- JSON documents as they are written, with whole numbers: an object may have one key twice. A stored
-- `raw` column is the document that it holds: `none` stands for bytes that are not JSON.
use opord_ai_demo.Base.{Bool, String, Option, none, some, ◌==◌, if◌then◌else◌}
use opord_ai_demo.Base.Int.{ℤ}

mutual
  pub data Json : Type 0 where
    null : Json
    bool : Bool → Json
    num : ℤ → Json
    text : String → Json
    arr : Items → Json
    obj : Fields → Json

  pub data Items : Type 0 where
    nil : Items
    cons : Json → Items → Items

  pub data Fields : Type 0 where
    end : Fields
    field : String → Json → Fields → Fields

abbrev pub Raw : Type 0
Raw = Option Json

-- `m[key]` of a decoded map: a later entry of one key overwrites an earlier one.
unfoldable pub entry : String → Fields → Option Json
entry k end = none
entry k (field j v fs) = elim (entry k fs) [
  | some w ↦ some w
  | none ↦ if j == k then some v else none
]

abbrev pub text_of : Option Json → String
text_of none = ""
text_of (some j) = elim j [
  | null ↦ ""
  | bool b ↦ ""
  | num n ↦ ""
  | text s ↦ s
  | arr xs ↦ ""
  | obj fs ↦ ""
]

-- `encoding/json` into a string field: `null` leaves it, another kind is an error.
abbrev pub decode_text : String → Json → Option String
decode_text old null = some old
decode_text old (text s) = some s
decode_text old (bool b) = none
decode_text old (num n) = none
decode_text old (arr xs) = none
decode_text old (obj fs) = none

abbrev pub map_some : {A B : Type 0} → (A → B) → Option A → Option B
map_some f none = none
map_some f (some a) = some (f a)

-- Into a map: `null` makes it nil.
abbrev pub decode_map : Json → Option (Option Fields)
decode_map null = some none
decode_map (obj fs) = some (some fs)
decode_map (bool b) = none
decode_map (num n) = none
decode_map (text s) = none
decode_map (arr xs) = none
