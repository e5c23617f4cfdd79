-- ===== src/Dlp/Redact.antt =====
-- redactDLPString, redactDLP, walkRedact and dlpEnabled of internal/orchestrator/ai_dlp.go. The
-- counts of the hits are the list of the hits' names; the order in which Go walks a map changes
-- only the order of this list.
use opord_ai_demo.Base.{
  String, Bool, false, Option, none, some, List, [], ◌∷◌, ◌++◌, if◌then◌else◌, ◌||◌, trim,
  equal_fold, glue,
}
use opord_ai_demo.Json.{
  Json, Items, Fields, Raw, null, bool, num, text, arr, obj, nil, cons, end, field, entry,
}
use opord_ai_demo.Base.Int.{ℤ}
use opord_ai_demo.Dlp.{luhn_valid}
use opord_ai_demo.Dlp.Decode.{decode}

-- How a regular expression parts a text: each match with the text before it, and the rest.
pub record Pieces : Type 0 where
  pub parts : List (String × String)
  pub rest : String

-- The compiled patterns (package regexp), by the names of the code, the float64 of a number, `none`
-- where there is none in range, and whether json.Marshal succeeds.
pub record Engine : Type 0 where
  pub find : String → String → Pieces
  pub float64 : ℤ → Option ℤ
  pub marshals : Json → Bool

-- ReplaceAllStringFunc, with a function that answers `none` to leave a match as it is.
unfoldable pub replace_parts : (String → Option String) → List (String × String) → String → String
replace_parts f [] rest = rest
replace_parts f ((before, m) ∷ ps) rest =
    let tail = replace_parts f ps rest in
    glue before (glue (elim (f m) [ none ↦ m | some r ↦ r ]) tail)

unfoldable pub replaced : (String → Option String) → List (String × String) → List String
replaced f [] = []
replaced f ((before, m) ∷ ps) =
    let tail = replaced f ps in elim (f m) [ none ↦ tail | some r ↦ m ∷ tail ]

abbrev pub repeat : String → List String → List String
repeat name [] = []
repeat name (m ∷ ms) = name ∷ repeat name ms

abbrev pub token : String → String
token name = glue "[REDACTED:" (glue name "]")

-- One pattern: the new text, and a hit for each match that was replaced.
unfoldable pub apply_pattern :
    Engine → String → (String → Option String) → String → String × List String
unfolding replace_parts replaced
apply_pattern g name f s =
    let p = g.find name s in (replace_parts f p.parts p.rest, repeat name (replaced f p.parts))

-- dlpPatterns, in the order of the code.
abbrev pub dlp_patterns : List String
dlp_patterns =
    "aws_access_key" ∷ "private_key" ∷ "anthropic_key" ∷ "openai_key" ∷ "github_token" ∷ "jwt"
    ∷ "ssn" ∷ "email" ∷ []

unfoldable pub apply_patterns : Engine → List String → String → String × List String
unfolding apply_pattern
apply_patterns g [] s = (s, [])
apply_patterns g (name ∷ names) s =
    let (t, hits) = apply_pattern g name (λ m. some (token name)) s in
    let (u, more) = apply_patterns g names t in (u, hits ++ more)

-- A card-shaped run is replaced only where its checksum is right.
abbrev pub card_token : String → Option String
card_token m = if luhn_valid m then some (token "credit_card") else none

unfoldable pub redact_dlp_string : Engine → String → String × List String
unfolding apply_pattern
redact_dlp_string g s =
    let (t, hits) = apply_patterns g dlp_patterns s in
    let (u, more) = apply_pattern g "credit_card" card_token t in (u, hits ++ more)

unfoldable mutual
  unfolding redact_dlp_string

  pub walk_redact : Engine → Json → Json × List String
  walk_redact g null = (null, [])
  walk_redact g (bool b) = (bool b, [])
  walk_redact g (num n) = (num n, [])
  walk_redact g (text s) = let (t, hits) = redact_dlp_string g s in (text t, hits)
  walk_redact g (arr xs) = let (ys, hits) = walk_items g xs in (arr ys, hits)
  walk_redact g (obj fs) = let (gs, hits) = walk_fields g fs in (obj gs, hits)

  pub walk_items : Engine → Items → Items × List String
  walk_items g nil = (nil, [])
  walk_items g (cons j js) =
      let (k, hits) = walk_redact g j in
      let (ks, more) = walk_items g js in (cons k ks, hits ++ more)

  pub walk_fields : Engine → Fields → Fields × List String
  walk_fields g end = (end, [])
  walk_fields g (field k j fs) =
      let (v, hits) = walk_redact g j in
      let (gs, more) = walk_fields g fs in (field k v gs, hits ++ more)

-- The payload to send and the hits; `none` where the caller must not send it. A payload is the
-- document as its bytes have it, `none` where they are not JSON.
abbrev pub redacted : Engine → Raw → Json × List String → Option (Raw × List String)
redacted g payload (j, []) = some (payload, [])
redacted g payload (j, h ∷ hits) = if g.marshals j then some (some j, h ∷ hits) else none

-- What does not decode is handed on as it is.
abbrev pub redact_decoded : Engine → Raw → Option Json → Option (Raw × List String)
redact_decoded g payload none = some (payload, [])
redact_decoded g payload (some tree) = redacted g payload (walk_redact g tree)

unfoldable pub redact_dlp : Engine → Raw → Option (Raw × List String)
unfolding decode
redact_dlp g none = some (none, [])
redact_dlp g (some j) = redact_decoded g (some j) (decode g.float64 j)

abbrev pub is_on : Option Json → Bool
is_on none = false
is_on (some (bool b)) = b
is_on (some (text s)) = equal_fold (trim s) "true"
is_on (some null) = false
is_on (some (num n)) = false
is_on (some (arr xs)) = false
is_on (some (obj fs)) = false

unfoldable pub dlp_enabled : Fields → Bool
dlp_enabled cfg = is_on (entry "dlp" cfg) || is_on (entry "dlp_redaction" cfg)
