-- ===== src/Gateway/Guarded.antt =====
-- What the gateway hands to the HTTP client. The client is an argument of the handler: a call that
-- ends alike with any client has sent nothing, and one that ends alike with clients that agree on a
-- payload has sent nothing else.
use opord_ai_demo.Base.{
  String, true, some, List, [], ◌∷◌, ◌≡◌, refl, sym, ap, ◌∙◌, inl, inr, ok, err, ◌==◌, non_empty,
  or_else, trim, Bool-cases, Option-cases, Result-cases, arith,
}
use opord_ai_demo.Json.{Json, Fields, Raw}
use opord_ai_demo.Db.{Env, Db}
use opord_ai_demo.Db.Rows.{AiProvider}
use opord_ai_demo.Db.Providers.{provider_by_name}
use opord_ai_demo.Enforce.Gateway.{GatewayBlock, evaluate_gateway_budget}
use opord_ai_demo.Providers.Config.{ai_provider_config}
use opord_ai_demo.Providers.Adapter.{Wiring}
use opord_ai_demo.Providers.{ai_credentials}
use opord_ai_demo.Dlp.Redact.{Engine, walk_redact, redact_dlp, dlp_enabled}
use opord_ai_demo.Dlp.Decode.{decode}
use opord_ai_demo.Dlp.Structure.{Whole, redact_dlp-walk_redact}
use opord_ai_demo.Gateway.{
  Http, Upstream, GatewayError, first_secret, upstream_url, apply_gateway_dlp, dlp_answer, gateway,
  forward,
}

-- Where the spend gate is closed for the provider of the call, the gateway fails, and ends the same
-- with every HTTP client: nothing is sent.
pub gateway_blocked :
    (e : Env) (w : Wiring) (g : Engine) (http other : Http) (up : Upstream) (name : String)
    (payload : Raw) (db : Db) (p : AiProvider) (b : GatewayBlock)
    → provider_by_name e (or_else (trim name) up.default_name) db ≡ ok p
    → (evaluate_gateway_budget e p.name db).0 ≡ err b
    → ((x : GatewayError) × ((gateway e w g http up name payload db).0 ≡ err x))
      × (gateway e w g http up name payload db ≡ gateway e w g other up name payload db)
unfolding gateway
gateway_blocked e w g http other up name payload db p b found closed =
    elim (Bool-cases (p.type == up.type)) [
      | inr wrong ↦ rw (found, wrong) ((_, refl), refl)
      | inl fits ↦ elim (Bool-cases (non_empty (first_secret (ai_credentials e w p db) up.keys))) [
        | inr missing ↦ rw (found, fits, missing) ((_, refl), refl)
        | inl keyed ↦ rw (found, fits, keyed, closed) ((_, refl), refl)
      ]
    ]

-- Of a document that decodes to itself, the redacted one is handed on.
sent_redacted :
    (g : Engine) (j : Json) (sent : Raw) (hits : List String)
    → Whole g
    → decode g.float64 j ≡ some j
    → redact_dlp g (some j) ≡ some (sent, hits)
    → sent ≡ some (walk_redact g j).0
sent_redacted g j sent hits whole plain made =
    elim (redact_dlp-walk_redact g j j sent hits whole plain made).1 [
      | inl (some_hit, same) ↦ same
      | inr (no_hit, same, kept) ↦ same ∙ ap some (sym kept)
    ]

dlp_answer_sent :
    (e : Env) (g : Engine) (j : Json) (sent : Raw) (out : Raw × List String) (db : Db)
    → Whole g
    → decode g.float64 j ≡ some j
    → redact_dlp g (some j) ≡ some out
    → (dlp_answer e (some out) db).0 ≡ ok sent
    → sent ≡ some (walk_redact g j).0
dlp_answer_sent e g j sent (payload, []) db whole plain made done =
    cc (sent_redacted g j payload [] whole plain made, done)
dlp_answer_sent e g j sent (payload, h ∷ hits) db whole plain made done =
    cc (sent_redacted g j payload (h ∷ hits) whole plain made, done)

-- The payload that is handed on with DLP is the redacted one.
dlp_sends :
    (e : Env) (g : Engine) (cfg : Fields) (j : Json) (sent : Raw) (db : Db)
    → Whole g
    → decode g.float64 j ≡ some j
    → dlp_enabled cfg ≡ true
    → (apply_gateway_dlp e g cfg (some j) db).0 ≡ ok sent
    → sent ≡ some (walk_redact g j).0
unfolding apply_gateway_dlp
dlp_sends e g cfg j sent db whole plain on done = elim (Option-cases (redact_dlp g (some j))) [
  | inl failed ↦ absurd (ground (arith, on, failed))
  | inr (out, made) ↦ dlp_answer_sent e g j sent out db whole plain made (ground (arith, on, made))
]

-- From the spend gate on, in any state.
same_after_gate :
    (e : Env) (g : Engine) (http other : Http) (up : Upstream) (p : AiProvider) (key : String)
    (j : Json) (db : Db)
    → Whole g
    → decode g.float64 j ≡ some j
    → dlp_enabled (ai_provider_config p) ≡ true
    → ((url : String) → http.can_request url ≡ other.can_request url)
    → ((url : String) (headers : List (String × String))
        → http.post url headers (some (walk_redact g j).0)
          ≡ other.post url headers (some (walk_redact g j).0))
    → forward e g http up p key (some j) db ≡ forward e g other up p key (some j) db
unfolding forward
same_after_gate e g http other up p key j db whole plain on can post =
    let cfg = ai_provider_config p in
    elim (Result-cases (apply_gateway_dlp e g cfg (some j) db).0) [
      | inr (x, failure) ↦ rw failure refl
      | inl (sent, done) ↦
          let agree =
            ap (λ s. http.post (upstream_url up cfg) (up.headers key cfg) s)
              (dlp_sends e g cfg j sent db whole plain on done)
            ∙ (post (upstream_url up cfg) (up.headers key cfg)
                ∙ sym (
                    ap (λ s. other.post (upstream_url up cfg) (up.headers key cfg) s)
                      (dlp_sends e g cfg j sent db whole plain on done))) in
          rw (done, can (upstream_url up cfg), agree) refl
    ]

-- Where DLP is on for the provider of the call, and the payload is a JSON document that decodes to
-- itself (no object of it has a key twice, and its numbers are float64s), the gateway ends the same
-- with any two clients that agree on which URLs they take and on the answers to the redacted
-- document: nothing else of the payload is sent. The pieces of a text that the regular expressions
-- give are the whole text.
pub gateway-walk_redact :
    (e : Env) (w : Wiring) (g : Engine) (http other : Http) (up : Upstream) (name : String)
    (j : Json) (db : Db) (p : AiProvider)
    → Whole g
    → decode g.float64 j ≡ some j
    → provider_by_name e (or_else (trim name) up.default_name) db ≡ ok p
    → dlp_enabled (ai_provider_config p) ≡ true
    → ((url : String) → http.can_request url ≡ other.can_request url)
    → ((url : String) (headers : List (String × String))
        → http.post url headers (some (walk_redact g j).0)
          ≡ other.post url headers (some (walk_redact g j).0))
    → gateway e w g http up name (some j) db ≡ gateway e w g other up name (some j) db
unfolding gateway
gateway-walk_redact e w g http other up name j db p whole plain found on can post =
    elim (Bool-cases (p.type == up.type)) [
      | inr wrong ↦ rw (found, wrong) refl
      | inl fits ↦ elim (Bool-cases (non_empty (first_secret (ai_credentials e w p db) up.keys))) [
        | inr missing ↦ rw (found, fits, missing) refl
        | inl keyed ↦ elim (Result-cases (evaluate_gateway_budget e p.name db).0) [
          | inr (b, closed) ↦ rw (found, fits, keyed, closed) refl
          | inl (u, opened) ↦
              rw (found, fits, keyed, opened)
                (same_after_gate e g http other up p
                  (first_secret (ai_credentials e w p db) up.keys) j
                  (evaluate_gateway_budget e p.name db).1 whole plain on can post)
        ]
      ]
    ]
