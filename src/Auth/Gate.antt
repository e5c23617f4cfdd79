-- ===== src/Auth/Gate.antt =====
-- What the role gates of internal/auth/auth.go let through.
use opord_ai_demo.Base.{
  ◌≤◌, ◌<◌, ◌≡◌, refl, ◌≢◌, ◌⊎◌, inl, inr, leb, Option-cases, String, Bool, true, false, Option,
  some, arith, ◌==◌, eq_iff, Bool-cases,
}
use opord_ai_demo.Db.{Identity}
use opord_ai_demo.Auth.{
  rank, bearer, Handler, HttpRequest, Response, with_identity, dev, middleware, require_role,
}

-- Who the request comes from: the token's owner, or the development identity when
-- authentication is off.
abbrev pub Caller :
    (String → String) → (String → Option Identity) → Bool → String → Identity → Type 0
Caller hash_key resolve true header id =
    (bearer header ≢ "") × (resolve (hash_key (bearer header)) ≡ some id)
Caller hash_key resolve false header id = id ≡ dev

abbrev pub Outcome :
    (String → String)
    → (String → Option Identity)
    → Bool
    → String
    → Handler
    → HttpRequest
    → Response
    → Type 0
Outcome hash_key resolve enabled min_role next r answer =
    ((¬ ((id : Identity) × Caller hash_key resolve enabled r.authorization id))
      × (answer.status ≡ 401))
    ⊎ ((id : Identity) × Caller hash_key resolve enabled r.authorization id
        × (((rank id.role < rank min_role) × (answer.status ≡ 403))
            ⊎ ((rank min_role ≤ rank id.role) × (answer ≡ next (with_identity r id)))))

gate_cases :
    (min_role : String) (next : Handler) (r : HttpRequest) (id : Identity)
    → ((rank id.role < rank min_role)
        × ((require_role min_role next (with_identity r id)).status ≡ 403))
      ⊎ ((rank min_role ≤ rank id.role)
          × (require_role min_role next (with_identity r id) ≡ next (with_identity r id)))
unfolding require_role with_identity
gate_cases min_role next r id = elim (Bool-cases (leb (rank min_role) (rank id.role))) [
  | inl high ↦ inr (ground arith, ground arith)
  | inr low ↦ inl (ground arith, ground arith)
]

-- Behind both middlewares a request with no caller is answered 401; one whose caller ranks
-- below the gate is answered 403; any other reaches the handler with its caller as identity.
pub middleware-require_role :
    (hash_key : String → String) (resolve : String → Option Identity) (enabled : Bool)
    (min_role : String) (next : Handler) (r : HttpRequest)
    → Outcome hash_key resolve enabled min_role next r
        (middleware hash_key resolve enabled (require_role min_role next) r)
unfolding middleware
middleware-require_role hash_key resolve false min_role next r =
    inr (dev, refl, gate_cases min_role next r dev)
middleware-require_role hash_key resolve true min_role next r =
    elim (Bool-cases (bearer r.authorization == "")) [
      | inl absent ↦ inl (λ c. c.1.0 ((eq_iff _ _).0 absent), rw absent)
      | inr present ↦ elim (Option-cases (resolve (hash_key (bearer r.authorization)))) [
        | inl unknown ↦ inl (λ c. cc (c.1.1), rw (present, unknown))
        | inr (id, known) ↦ inr (
          id,
          ((λ e. cc ((eq_iff (bearer r.authorization) "").1 e)), known),
          rw (present, known) (gate_cases min_role next r id),
        )
      ]
    ]
