-- ===== src/Provision/Spec.antt =====
-- AIRequestSpec of internal/orchestrator/ai.go, as it is written to and read from requests.spec,
-- and the expiry that it asks for.
use opord_ai_demo.Base.{
  ℕ, zero, suc, ◌+◌, ◌*◌, ◌-◌, ◌%◌, String, Option, none, some, Result, ok, err, if◌then◌else◌,
  ◌==◌, ltb, non_empty, trim, equal_fold,
}
use opord_ai_demo.Base.Int.{ℤ, pos, negsuc}
use opord_ai_demo.Json.{
  Json, Fields, Raw, null, text, obj, end, field, decode_text, decode_map, map_some,
}

pub record AiRequestSpec : Type 0 where
  pub service_id : String
  pub service_slug : String
  pub owner : String
  pub workspace : String
  pub justification : String
  pub expires_at : String
  pub metadata : Option Fields

abbrev pub empty_spec : AiRequestSpec
empty_spec = record {
  service_id = "";
  service_slug = "";
  owner = "";
  workspace = "";
  justification = "";
  expires_at = "";
  metadata = none;
}

-- A text with `omitempty`.
unfoldable pub text_field : String → String → Fields → Fields
text_field key value rest = if value == "" then rest else field key (text value) rest

-- A map with `omitempty`.
abbrev pub map_field : String → Option Fields → Fields → Fields
map_field key none rest = rest
map_field key (some end) rest = rest
map_field key (some (field k v fs)) rest = field key (obj (field k v fs)) rest

-- json.Marshal(spec)
unfoldable pub encode_spec : AiRequestSpec → Json
encode_spec s = obj (
    text_field "service_id" s.service_id (
      text_field "service_slug" s.service_slug (
        text_field "owner" s.owner (
          text_field "workspace" s.workspace (
            text_field "justification" s.justification
              (text_field "expires_at" s.expires_at (map_field "metadata" s.metadata end)))))))

-- One key of the document: a field's name up to case, or ignored.
unfoldable pub spec_field : String → Json → AiRequestSpec → Option AiRequestSpec
spec_field k v s =
    if equal_fold k "service_id"
    then map_some (λ x. record s { service_id = x }) (decode_text s.service_id v)
    else if equal_fold k "service_slug"
    then map_some (λ x. record s { service_slug = x }) (decode_text s.service_slug v)
    else if equal_fold k "owner"
    then map_some (λ x. record s { owner = x }) (decode_text s.owner v)
    else if equal_fold k "workspace"
    then map_some (λ x. record s { workspace = x }) (decode_text s.workspace v)
    else if equal_fold k "justification"
    then map_some (λ x. record s { justification = x }) (decode_text s.justification v)
    else if equal_fold k "expires_at"
    then map_some (λ x. record s { expires_at = x }) (decode_text s.expires_at v)
    else if equal_fold k "metadata"
    then map_some (λ x. record s { metadata = x }) (decode_map v)
    else some s

unfoldable pub spec_fields : Fields → AiRequestSpec → Option AiRequestSpec
unfolding spec_field
spec_fields end s = some s
spec_fields (field k v fs) s =
    let rest = λ (t : AiRequestSpec). spec_fields fs t in
    elim (spec_field k v s) [ none ↦ none | some t ↦ rest t ]

-- aiRequestSpecOf; `none` is an error.
unfoldable pub ai_request_spec_of : Raw → Option AiRequestSpec
ai_request_spec_of none = none
ai_request_spec_of (some null) = some empty_spec
ai_request_spec_of (some (obj fs)) = spec_fields fs empty_spec
ai_request_spec_of (some _) = none

-- What is used of other packages to read a text: time.Parse by its layout, and uuid.Parse.
pub record Parsers : Type 0 where
  pub parse_time : String → String → Option ℕ
  pub parse_uuid : String → Option ℕ

abbrev pub rfc3339 : String
rfc3339 = "2006-01-02T15:04:05Z07:00"

-- The first layout that fits.
unfoldable pub parse_expiry : Parsers → String → Option ℕ
parse_expiry ps raw = elim (ps.parse_time rfc3339 raw) [
  | some t ↦ some t
  | none ↦ ps.parse_time "2006-01-02" raw
]

-- `created.Add(time.Duration(days) * 24 * time.Hour)` for a positive number of days: a duration is
-- an int64 number of nanoseconds, which wraps. A time before 1970 is put at 1970.
unfoldable pub days_after : ℕ → ℕ → ℕ
days_after created days =
    let d = (days * 86400000000000) % 18446744073709551616 in
    if ltb d 9223372036854775808 then created + d else created - (18446744073709551616 - d)

-- aiExpiresAt; an error is `err`, no expiry is `ok none`.
unfoldable pub default_expiry : ℕ → ℤ → Option ℕ
default_expiry created (pos zero) = none
default_expiry created (pos (suc n)) = some (days_after created (suc n))
default_expiry created (negsuc n) = none

abbrev pub given_expiry : Option ℕ → Result (Unit {0}) (Option ℕ)
given_expiry none = err tt
given_expiry (some t) = ok (some t)

unfoldable pub ai_expires_at : Parsers → String → ℕ → ℤ → Result (Unit {0}) (Option ℕ)
ai_expires_at ps raw created days =
    if non_empty (trim raw)
    then given_expiry (parse_expiry ps (trim raw))
    else ok (default_expiry created days)
