-- ===== src/Api/Gated.antt =====
-- What the route table asks of a caller.
use opord_ai_demo.Base.{
  String, Bool, true, false, Option, some, List, [], ◌∷◌, ◌≡◌, refl, inl, inr, ◌==◌, ◌||◌, ◌&&◌,
  not, find-In, In, eq_iff, arith,
}
use mathlib.Core.Path.{subst}
use opord_ai_demo.Db.{Identity}
use opord_ai_demo.Auth.{Response, Handler}
use opord_ai_demo.Auth.Gate.{Outcome, middleware-require_role}
use opord_ai_demo.Api.Table.{get, options}
use opord_ai_demo.Api.{
  ApiRequest, GatedRoute, same_method, method_of, path_of, min_role_of, handler_of, routes,
  find_route, serve,
}

-- What a viewer may ask for: a GET, but not of a secret, and the request for MCP access.
unfoldable pub is_open : GatedRoute → Bool
is_open g =
    (same_method (method_of g) get && not (path_of g == "/ai/instances/{id}/secret"))
    || path_of g == "/ai/mcp/requests"

unfoldable all_closed : List GatedRoute → Bool
unfolding is_open
all_closed [] = true
all_closed (g ∷ gs) = let rest = all_closed gs in (is_open g || min_role_of g == "operator") && rest

table_is_closed : all_closed routes ≡ true
unfolding all_closed routes
table_is_closed = refl

closed_of_table :
    (g : GatedRoute) (gs : List GatedRoute)
    → all_closed gs ≡ true
    → In g gs
    → is_open g ≡ false
    → min_role_of g ≡ "operator"
unfolding all_closed
closed_of_table g [] h m shut = elim m [ ]
closed_of_table g (x ∷ gs) h (inl here) shut =
    subst (λ y. is_open y ≡ false → min_role_of y ≡ "operator") here
      (λ s. (eq_iff (min_role_of x) "operator").0 (ground (arith, s))) shut
closed_of_table g (x ∷ gs) h (inr later) shut = closed_of_table g gs (ground arith) later shut

-- Every route but a GET and the request for MCP access, and the GET of an instance's secret too,
-- is behind the gate for operators: such a request is answered 401 without a caller, 403 to a
-- caller that ranks below an operator, and otherwise reaches the handler of the route.
pub serve-operator :
    (matches : String → String → Bool) (hash_key : String → String)
    (resolve : String → Option Identity) (enabled : Bool) (handlers : String → Handler)
    (not_found : ApiRequest → Response) (q : ApiRequest) (g : GatedRoute)
    → find_route matches q ≡ some g
    → is_open g ≡ false
    → same_method q.method options ≡ false
    → Outcome hash_key resolve enabled "operator"
        (handlers (handler_of g))
        q.http
        (serve matches hash_key resolve enabled handlers not_found q)
unfolding serve find_route
serve-operator matches hash_key resolve enabled handlers not_found q g found shut plain =
    let role = closed_of_table g routes table_is_closed (find-In _ g routes found).0 shut in
    rw (plain, found, role)
      (middleware-require_role hash_key resolve enabled "operator" (handlers (handler_of g)) q.http)
