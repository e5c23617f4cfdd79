-- ===== src/Policy/Rule.antt =====
-- aiPolicyRule of internal/orchestrator/ai_enforce.go: decoding a rule, and the requests that it
-- selects.
use opord_ai_demo.Base.{
  ℕ, String, Bool, true, false, Option, none, some, List, [], ◌∷◌, if◌then◌else◌, any, ◌==◌, ◌||◌,
  ◌&&◌, not, non_empty, trim, lower, equal_fold, after_last_at,
}
use opord_ai_demo.Json.{
  decode_text, map_some, Json, Items, Fields, Raw, null, arr, obj, nil, cons, end, field,
}

-- aiReqContext.
pub record AiReqContext : Type 0 where
  pub service_id : ℕ
  pub service_slug : String
  pub service_category : String
  pub provider_name : String
  pub provider_type : String
  pub owner : String
  pub workspace : String
  pub tenant : Option ℕ

pub record AiPolicyRule : Type 0 where
  pub effect : String
  pub providers : List String
  pub categories : List String
  pub services : List String
  pub owner_domains : List String

abbrev pub empty_rule : AiPolicyRule
empty_rule = record {
  effect = "";
  providers = [];
  categories = [];
  services = [];
  owner_domains = [];
}

-- Into a slice of strings: a `null` element is "".
decode_items : Items → Option (List String)
decode_items nil = some []
decode_items (cons j js) = elim (decode_items js) [
  | none ↦ none
  | some rest ↦ elim (decode_text "" j) [ none ↦ none | some s ↦ some (s ∷ rest) ]
]

-- `null` makes the slice nil.
decode_texts : Json → Option (List String)
unfolding decode_items
decode_texts null = some []
decode_texts (arr js) = decode_items js
decode_texts _ = none

-- One key of the document: a field's name up to case, or ignored.
decode_field : String → Json → AiPolicyRule → Option AiPolicyRule
unfolding decode_texts
decode_field k v r =
    if equal_fold k "effect"
    then map_some (λ s. record r { effect = s }) (decode_text r.effect v)
    else if equal_fold k "providers"
    then map_some (λ l. record r { providers = l }) (decode_texts v)
    else if equal_fold k "categories"
    then map_some (λ l. record r { categories = l }) (decode_texts v)
    else if equal_fold k "services"
    then map_some (λ l. record r { services = l }) (decode_texts v)
    else if equal_fold k "owner_domains"
    then map_some (λ l. record r { owner_domains = l }) (decode_texts v)
    else some r

decode_fields : Fields → AiPolicyRule → Option AiPolicyRule
unfolding decode_field
decode_fields end r = some r
decode_fields (field k v fs) r =
    let rest = λ (s : AiPolicyRule). decode_fields fs s in
    elim (decode_field k v r) [ none ↦ none | some s ↦ rest s ]

-- json.Unmarshal(p.Rules, &rule); `none` is an error.
unfoldable pub decode_rule : Raw → Option AiPolicyRule
unfolding decode_fields
decode_rule none = none
decode_rule (some null) = some empty_rule
decode_rule (some (obj fs)) = decode_fields fs empty_rule
decode_rule (some _) = none

unfoldable pub is_deny : AiPolicyRule → Bool
is_deny r = not (equal_fold (trim r.effect) "allow")

unfoldable pub has_text : List String → Bool
has_text sel = any (λ v. non_empty (trim v)) sel

unfoldable pub has_selector : AiPolicyRule → Bool
unfolding has_text
has_selector r =
    has_text r.providers || has_text r.categories || has_text r.services || has_text r.owner_domains

-- The loop over the patterns: a blank one matches everything.
unfoldable pub match_loop : List String → List String → Bool
match_loop [] candidates = false
match_loop (p ∷ ps) candidates =
    if trim p == ""
    then true
    else if any (λ c. equal_fold (trim p) (trim c)) candidates
    then true
    else match_loop ps candidates

unfoldable pub match_any : List String → List String → Bool
unfolding match_loop
match_any [] candidates = true
match_any (p ∷ ps) candidates = match_loop (p ∷ ps) candidates

unfoldable pub email_domain : String → String
email_domain owner = elim (after_last_at owner) [
  | none ↦ ""
  | some rest ↦ if rest == "" then "" else lower (trim rest)
]

unfoldable pub rule_matches : AiPolicyRule → AiReqContext → Bool
rule_matches r rc =
    match_any r.providers (rc.provider_name ∷ rc.provider_type ∷ [])
    && match_any r.categories (rc.service_category ∷ [])
    && match_any r.services (rc.service_slug ∷ [])
    && match_any r.owner_domains (email_domain rc.owner ∷ [])
