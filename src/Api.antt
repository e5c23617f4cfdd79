-- ===== src/Api.antt =====
-- internal/api: the router with its role gates, the status of an error, and the redaction of a
-- provider's configuration. The handlers are arguments by their names.
pub mod Table
pub mod Redact
pub mod Gated
use opord_ai_demo.Base.{
  ℕ, String, Bool, true, false, Option, none, some, List, [], ◌∷◌, ◌++◌, map, if◌then◌else◌, find,
  ◌&&◌,
}
use opord_ai_demo.Db.{Identity}
use opord_ai_demo.Auth.{HttpRequest, Response, Handler, middleware, require_role}
use Table.{Method, get, post, patch, delete, options, Route, route, read_routes, write_routes}

abbrev pub same_method : Method → Method → Bool
same_method get get = true
same_method post post = true
same_method patch patch = true
same_method delete delete = true
same_method options options = true
same_method _ _ = false

-- A request as the router sees it: the path is the one below /api/v1.
pub record ApiRequest : Type 0 where
  pub method : Method
  pub path : String
  pub http : HttpRequest

-- The role of a group, with a route of it.
pub data GatedRoute : Type 0 where
  gated : String → Route → GatedRoute

unfoldable pub routes : List GatedRoute
routes = map (gated "viewer") read_routes ++ map (gated "operator") write_routes

abbrev pub min_role_of : GatedRoute → String
min_role_of (gated min_role r) = min_role

abbrev pub path_of : GatedRoute → String
path_of (gated min_role (route m p h)) = p

abbrev pub method_of : GatedRoute → Method
method_of (gated min_role (route m p h)) = m

abbrev pub handler_of : GatedRoute → String
handler_of (gated min_role (route m p h)) = h

-- `matches` is how chi fits a path to a pattern.
module _ (matches : String → String → Bool) where
  unfoldable pub find_route : ApiRequest → Option GatedRoute
  find_route q = find (λ g. same_method (method_of g) q.method && matches (path_of g) q.path) routes

-- `handlers` are the server's methods, and `not_found` is chi's answer where no route fits.
module _ (matches : String → String → Bool) (hash_key : String → String)
    (resolve : String → Option Identity) (enabled : Bool) (handlers : String → Handler)
    (not_found : ApiRequest → Response) where
  abbrev pub serve_route : ApiRequest → Option GatedRoute → Response
  serve_route q none = not_found q
  serve_route q (some g) =
      middleware hash_key resolve enabled (require_role (min_role_of g) (handlers (handler_of g)))
        q.http

  -- cors answers every OPTIONS request itself.
  unfoldable pub serve : ApiRequest → Response
  serve q =
      if same_method q.method options
      then record { status = 204; body = "" }
      else serve_route q (find_route matches q)

-- The status that writeErr gives: 403 for a governance block, 409 for a unique violation.
unfoldable pub error_status : ℕ → Bool → Bool → ℕ
error_status status is_enforcement is_unique =
    if is_unique then 409 else if is_enforcement then 403 else status
