-- ===== src/Examples/Gateways.antt =====
-- Runs of the theorems on the redaction, the model gateway and the router.
use opord_ai_demo.Base.{
  String, equal_fold, select, or_else, sym, inl, inr, Bool-cases, eq_iff, glue, any, lower, Bool,
  true, false, Option, none, some, [], ◌∷◌, ◌≡◌, refl, ok, err, ◌==◌, find, trim, ◌≢◌, ◌⊎◌,
}
use opord_ai_demo.Base.Int.{pos}
use opord_ai_demo.Json.{Json, obj, field, text, bool, arr, cons, nil, end, entry}
use opord_ai_demo.Db.{Db, Identity, Query, Env, list_usage_again}
use opord_ai_demo.Db.Rows.{AiProvider, AiQuota}
use opord_ai_demo.Db.Providers.{provider_by_name}
use opord_ai_demo.Auth.{Response, Handler}
use opord_ai_demo.Auth.Gate.{Outcome}
use opord_ai_demo.Enforce.Gateway.{
  quota_exhausted, evaluate_gateway_budget, quota_closes, ai_quota_usage, sum_quantity, closed,
}
use opord_ai_demo.Budget.Summary.{
  list_budget_summaries, list_usage_records, list_usage_records_again,
}
use opord_ai_demo.Db.Governance.{all_budgets, all_quotas, all_usage, all_usage_again}
use opord_ai_demo.Quota.{list_ai_quotas}
use opord_ai_demo.Tenant.{visible_rows, scope_tenant}
use opord_ai_demo.Providers.Config.{ai_provider_config}
use opord_ai_demo.Dlp.Redact.{
  Pieces, Engine, walk_redact, redact_dlp, apply_patterns, dlp_enabled, replace_parts,
}
use opord_ai_demo.Dlp.Structure.{Whole, SameShape, walk_redact-SameShape, redact_dlp-walk_redact}
use opord_ai_demo.Gateway.{Http, GatewayError, gateway, openai}
use opord_ai_demo.Gateway.Guarded.{gateway_blocked, gateway-walk_redact}
use opord_ai_demo.Api.{ApiRequest, GatedRoute, gated, find_route, routes, serve}
use opord_ai_demo.Api.Table.{delete, route}
use opord_ai_demo.Api.Gated.{is_open, serve-operator}
use opord_ai_demo.Examples.{env, db, mock, acme_quota}
use opord_ai_demo.Examples.Providers.{wiring}
use opord_ai_demo.Dlp.Decode.{decode, put_entry}

-- One text is an address, and every other has none.
abbrev pieces_of : Bool → String → Pieces
pieces_of true s = record { parts = ("", "eve@acme.io") ∷ []; rest = "" }
pieces_of false s = record { parts = []; rest = s }

abbrev engine : Engine
engine = record {
  find = λ name s. pieces_of (s == "eve@acme.io") s;
  float64 = λ n. some n;
  marshals = λ j. true;
}

engine-Whole : Whole engine
unfolding replace_parts glue
engine-Whole name s = elim (Bool-cases (s == "eve@acme.io")) [
  | inl address ↦ rw address (sym ((eq_iff s "eve@acme.io").0 address))
  | inr other ↦ rw other refl
]

abbrev prompt : Json
prompt = obj (field "input" (arr (cons (text "eve@acme.io") (cons (bool true) nil))) end)

walk_redact-SameShape_example : SameShape prompt (walk_redact engine prompt).0
walk_redact-SameShape_example = walk_redact-SameShape engine prompt

abbrev hit : Json
hit = (walk_redact engine prompt).0

hit_found : redact_dlp engine (some prompt) ≡ some (some hit, (walk_redact engine prompt).1)
unfolding redact_dlp walk_redact apply_patterns decode put_entry entry
hit_found = refl

prompt_plain : decode engine.float64 prompt ≡ some prompt
unfolding decode put_entry entry
prompt_plain = refl

-- A key twice, the first time with an address: the address is gone once the document is decoded, and
-- the document is handed on as it came.
abbrev shadowed : Json
shadowed = obj (field "input" (text "eve@acme.io") (field "input" (text "x") end))

shadowed_sent : redact_dlp engine (some shadowed) ≡ some (some shadowed, [])
unfolding redact_dlp walk_redact apply_patterns decode put_entry entry
shadowed_sent = refl

redact_dlp-walk_redact_example :
    ((walk_redact engine prompt).1 ≡ (walk_redact engine prompt).1)
    × ((((walk_redact engine prompt).1 ≢ []) × (some hit ≡ some (walk_redact engine prompt).0))
        ⊎ (((walk_redact engine prompt).1 ≡ [])
            × (some hit ≡ some prompt)
            × ((walk_redact engine prompt).0 ≡ prompt)))
redact_dlp-walk_redact_example =
    redact_dlp-walk_redact engine prompt prompt (some hit) (walk_redact engine prompt).1
      engine-Whole prompt_plain hit_found

abbrev guarded : AiProvider
guarded = record mock {
  name = "openai-main";
  type = "openai";
  config = some (obj (field "dlp" (bool true) end));
}

-- A quota that is used up from the start.
abbrev none_left : AiQuota
none_left = record acme_quota { limit_quantity = pos 0 }

abbrev with_guarded : Db
with_guarded = record db { providers = guarded ∷ [] }

abbrev spent : Db
spent = record with_guarded { budgets = []; quotas = none_left ∷ [] }

guarded_found :
    provider_by_name env (or_else (trim "openai-main") openai.default_name) spent ≡ ok guarded
unfolding provider_by_name find trim
guarded_found = refl

abbrev http : Http
http = record {
  can_request = λ url. true;
  post = λ url headers payload.
      some record { status_code = 200; content_type = "application/json"; body = some payload };
}

abbrev silent : Http
silent = record { can_request = λ url. true; post = λ url headers payload. none }

gate_closed : (evaluate_gateway_budget env "openai-main" spent).0 ≡ err quota_exhausted
unfolding evaluate_gateway_budget list_budget_summaries all_budgets list_usage_records all_usage
    list_usage_records_again all_usage_again list_ai_quotas all_quotas visible_rows scope_tenant any
    quota_closes ai_quota_usage sum_quantity equal_fold lower trim closed select
gate_closed = refl

-- The usage can be read for the budgets and not a second time: the quota that is used up is no
-- obstacle then.
abbrev second_only : Query → Bool
second_only list_usage_again = true
second_only _ = false

abbrev flaky : Env
flaky = record env { fails = second_only }

gate_opened : (evaluate_gateway_budget flaky "openai-main" spent).0 ≡ ok tt
unfolding evaluate_gateway_budget list_budget_summaries all_budgets list_usage_records all_usage
    list_usage_records_again all_usage_again list_ai_quotas all_quotas visible_rows scope_tenant any
    quota_closes ai_quota_usage sum_quantity equal_fold lower trim closed select
gate_opened = refl

gateway_blocked_example :
    ((x : GatewayError) × ((gateway env wiring engine http openai "openai-main"
          (some prompt)
          spent).0
        ≡ err x))
    × (gateway env wiring engine http openai "openai-main" (some prompt) spent
        ≡ gateway env wiring engine silent openai "openai-main" (some prompt) spent)
gateway_blocked_example =
    gateway_blocked env wiring engine http silent openai "openai-main" (some prompt) spent guarded
      quota_exhausted guarded_found gate_closed

guarded_named :
    provider_by_name env (or_else (trim "openai-main") openai.default_name) with_guarded
    ≡ ok guarded
unfolding provider_by_name find trim
guarded_named = refl

guarded_dlp : dlp_enabled (ai_provider_config guarded) ≡ true
unfolding dlp_enabled ai_provider_config entry
guarded_dlp = refl

-- A client that answers the redacted document only.
abbrev picky : Http
picky = record {
  can_request = λ url. true;
  post = λ url headers payload. http.post url headers (some hit);
}

gateway-walk_redact_example :
    gateway env wiring engine http openai "openai-main" (some prompt) with_guarded
    ≡ gateway env wiring engine picky openai "openai-main" (some prompt) with_guarded
gateway-walk_redact_example =
    gateway-walk_redact env wiring engine http picky openai "openai-main" prompt with_guarded
      guarded engine-Whole prompt_plain guarded_named guarded_dlp (λ url. refl)
      (λ url headers. refl)

abbrev same_path : String → String → Bool
same_path pattern path = pattern == path

abbrev same_key : String → String
same_key s = s

abbrev nobody : String → Option Identity
nobody hash = none

abbrev fine : String → Handler
fine name r = record { status = 200; body = name }

abbrev absent : ApiRequest → Response
absent q = record { status = 404; body = "" }

abbrev removal : ApiRequest
removal = record {
  method = delete;
  path = "/ai/providers/{name}";
  http = record { authorization = ""; identity = none };
}

abbrev removal_route : GatedRoute
removal_route = gated "operator" (route delete "/ai/providers/{name}" "deleteAIProvider")

removal_found : find_route same_path removal ≡ some removal_route
unfolding find_route routes find
removal_found = refl

removal_closed : is_open removal_route ≡ false
unfolding is_open
removal_closed = refl

serve-operator_example :
    Outcome same_key nobody true "operator"
      (fine "deleteAIProvider")
      removal.http
      (serve same_path same_key nobody true fine absent removal)
serve-operator_example =
    serve-operator same_path same_key nobody true fine absent removal removal_route removal_found
      removal_closed refl
