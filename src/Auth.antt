-- ===== src/Auth.antt =====
-- internal/auth/auth.go: roles, API keys and the two HTTP middlewares.
pub mod Gate
pub mod Users
pub mod Bootstrap
use Prim.Native.String.{◌++◌}
use opord_ai_demo.Base.{
  ℕ, zero, suc, String, Bool, true, false, Option, none, some, if◌then◌else◌, ◌==◌, leb, trim,
  has_prefix,
}
use opord_ai_demo.Db.{Identity}

-- Role.rank
unfoldable pub rank : String → ℕ
rank r = if r == "admin" then 3 else if r == "operator" then 2 else if r == "viewer" then 1 else 0

-- Role.AtLeast
unfoldable pub at_least : String → String → Bool
unfolding rank
at_least r min_role = leb (rank min_role) (rank r)

unfoldable pub valid_role : String → Bool
valid_role s = if s == "viewer" then true else if s == "operator" then true else s == "admin"

-- `plain` is built from the hexadecimal text of 32 random bytes; reading them may fail.
unfoldable pub generate_api_key : (String → String) → Option String → Option (String × String)
generate_api_key hash_key none = none
generate_api_key hash_key (some hex) = some ("opd_" ++ hex, hash_key ("opd_" ++ hex))

-- The two prefixes that `bearer` takes off have seven and six bytes.
drop_chars : ℕ → String → String
drop_chars zero s = s
drop_chars (suc n) String.[] = ""
drop_chars (suc n) (String.◌∷◌ c s) = drop_chars n s

unfoldable pub bearer : String → String
unfolding drop_chars
bearer h =
    if h == ""
    then ""
    else if has_prefix h "Bearer "
    then trim (drop_chars 7 h)
    else if has_prefix h "Token "
    then trim (drop_chars 6 h)
    else trim h

-- What the middlewares read of a request: the header and the identity in the context.
pub record HttpRequest : Type 0 where
  pub authorization : String
  pub identity : Option Identity

pub record Response : Type 0 where
  pub status : ℕ
  pub body : String

abbrev pub Handler : Type 0
Handler = HttpRequest → Response

unfoldable pub unauthorized : ℕ → String → Response
unauthorized code msg = record { status = code; body = "{\"error\":\"" ++ (msg ++ "\"}") }

unfoldable pub with_identity : HttpRequest → Identity → HttpRequest
with_identity r id = record r { identity = some id }

abbrev pub dev : Identity
dev = record { email = "dev"; tenant = "default"; tenant_id = 0; role = "admin" }

-- `resolve` maps the hash of a key to the caller.
admit : Option Identity → Handler → Handler
unfolding unauthorized with_identity
admit none next r = unauthorized 401 "invalid API key"
admit (some id) next r = next (with_identity r id)

unfoldable pub middleware :
    (String → String) → (String → Option Identity) → Bool → Handler → Handler
unfolding admit bearer unauthorized with_identity
middleware hash_key resolve enabled next r =
    if enabled
    then (if bearer r.authorization == ""
        then unauthorized 401 "missing API key"
        else admit (resolve (hash_key (bearer r.authorization))) next r)
    else next (with_identity r dev)

gate : Option Identity → String → Handler → Handler
unfolding at_least unauthorized
gate none min_role next r = unauthorized 403 "insufficient role"
gate (some id) min_role next r =
    if at_least id.role min_role then next r else unauthorized 403 "insufficient role"

unfoldable pub require_role : String → Handler → Handler
unfolding gate
require_role min_role next r = gate r.identity min_role next r
