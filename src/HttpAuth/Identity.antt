-- ===== src/HttpAuth/Identity.antt =====
-- Whom the middlewares of internal/server/auth.go take a request for.
use peerclaw_server.Prelude.{
  ◌≡◌, ◌≢◌, refl, ap, subst, sym, ◌∙◌, ◌⊎◌, inl, inr, String, Option, some, true, ◌==◌, arith,
  eq_iff, eq_refl, Bool-cases, Option-cases,
}
use peerclaw_server.HttpAuth.Requests.{
  Request, Context, Outcome, answers, serves, Handler, background, with_agent_id,
}
use peerclaw_server.HttpAuth.Agents.{
  AuthConfig, token_of, extract_bearer_token, passes_key, by_token, passes_signature, is_registered,
  claimed_agent, by_signature, authenticate, admit_agent, auth_middleware, check_owner,
  owner_only_middleware,
}
use peerclaw_server.HttpAuth.Users.{
  Claims, Jwt, with_claims, validated, admit_user, user_auth_middleware, admin_only_middleware,
}
use peerclaw_server.HttpAuth.Routes.{wrap_owner, wrap_admin}

-- The credentials that authenticate an agent: a bearer token that is the agent's API key, or a signature
-- of the body by the public key that the request itself carries.
pub record ByKey (cfg : AuthConfig) (r : Request) (agent : String) : Type 0 where
  pub token : String
  pub extracted : extract_bearer_token cfg r.authorization ≡ some token
  pub named : r.agent_header ≡ agent
  pub passes : passes_key cfg.verifier agent token ≡ true

pub record BySignature (cfg : AuthConfig) (r : Request) (agent : String) : Type 0 where
  pub body : String
  pub read : r.body ≡ some body
  pub passes : passes_signature cfg cfg.verifier r body ≡ true
  pub named : claimed_agent r ≡ agent
  pub registered : is_registered cfg.exists agent ≡ true

-- authenticate answers with an agent only where the request carries its API key as a bearer token, or a
-- signature that fits the public key of the request, under an identifier that the lookup in the registry
-- finds, each check where it is configured.
pub authenticate-credentials :
    (cfg : AuthConfig) (r : Request) (agent : String)
    → authenticate cfg r ≡ some agent
    → ByKey cfg r agent ⊎ BySignature cfg r agent
unfolding authenticate by_token by_signature
authenticate-credentials cfg r agent e = elim (Bool-cases (r.authorization == "")) [
  | inr bearer ↦ elim (Option-cases (extract_bearer_token cfg r.authorization)) [
    | inl n ↦ absurd (ground arith)
    | inr (token, x) ↦ inl (
        let named : r.agent_header ≡ agent = ground (arith, e) in
        subst (ByKey cfg r) named
          (record { token = token; extracted = x; named = refl; passes = ground (arith, e) }))
  ]
  | inl plain ↦ elim (Option-cases r.body) [
    | inl n ↦ absurd (ground arith)
    | inr (body, x) ↦ inr (
        let named : claimed_agent r ≡ agent = ground (arith, e) in
        subst (BySignature cfg r) named (record {
          body = body;
          read = x;
          passes = ground (arith, e);
          named = refl;
          registered = ground (arith, e);
        }))
  ]
]

-- The context in which a handler runs.
abbrev context_of : Outcome → Context
context_of (answers n) = background
context_of (serves ctx) = ctx

-- Where authentication is required, a handler behind wrapOwner of a path with an identifier runs only for
-- a request that authenticates as that identifier, and finds it in the context.
pub wrap_owner-IsOwner :
    (cfg : AuthConfig) (r : Request) (ctx ctx' : Context)
    → cfg.required ≡ true
    → r.path_id ≢ ""
    → wrap_owner cfg r serves ctx ≡ serves ctx'
    → (authenticate cfg r ≡ some r.path_id) × (ctx' ≡ with_agent_id ctx r.path_id)
unfolding wrap_owner auth_middleware admit_agent owner_only_middleware check_owner with_agent_id
wrap_owner-IsOwner cfg r ctx ctx' req path e = elim (Option-cases (authenticate cfg r)) [
  | inl n ↦ absurd (ground (arith, n))
  | inr (agent, f) ↦
      let same : agent ≡ r.path_id =
        ground (arith, e, f, eq_iff agent r.path_id, eq_iff r.path_id "") in
      let served : wrap_owner cfg r serves ctx ≡ serves (with_agent_id ctx agent) =
        ground (arith, e, f, eq_iff agent r.path_id, eq_iff r.path_id "") in
      (f ∙ ap some same, ap context_of (sym e ∙ served) ∙ ap (with_agent_id ctx) same)
]

-- A request that is signed with any key of the caller's own passes wrapOwner as the owner of any
-- registered agent: the identifier is taken from a header that the signature does not bind.
pub wrap_owner_of_other :
    (cfg : AuthConfig) (r : Request) (h : Handler) (ctx : Context) (body : String)
    → r.authorization ≡ ""
    → r.signature ≢ ""
    → r.public_key ≢ ""
    → r.body ≡ some body
    → cfg.fits r.public_key body r.signature ≡ true
    → r.path_id ≢ ""
    → r.agent_header ≡ r.path_id
    → is_registered cfg.exists r.path_id ≡ true
    → wrap_owner cfg r h ctx ≡ h (with_agent_id ctx r.path_id)
unfolding wrap_owner auth_middleware authenticate by_signature claimed_agent admit_agent
    owner_only_middleware check_owner with_agent_id
wrap_owner_of_other cfg r h ctx body plain sig key read fits path same exists = ground (
  arith,
  eq_iff r.authorization "",
  eq_iff r.signature "",
  eq_iff r.public_key "",
  eq_iff r.path_id "",
  eq_iff r.agent_header "",
  eq_refl r.path_id,
)

-- A handler behind wrapAdmin runs only for a request with a valid token whose role is admin, and finds
-- its user in the context.
pub wrap_admin-IsAdmin :
    (cfg : AuthConfig) (jwt : Option Jwt) (r : Request) (ctx ctx' : Context)
    → wrap_admin cfg jwt r serves ctx ≡ serves ctx'
    → (j : Jwt) × (c : Claims) × (jwt ≡ some j)
      × (validated j (token_of cfg (cfg.split r.authorization)) ≡ some c)
      × (c.role ≡ "admin")
      × (ctx'.user_id ≡ some c.user_id)
unfolding wrap_admin user_auth_middleware admit_user admin_only_middleware with_claims
wrap_admin-IsAdmin cfg jwt r ctx ctx' e = elim (Option-cases jwt) [
  | inl n ↦ absurd (ground arith)
  | inr (j, f) ↦ elim (Option-cases (validated j (token_of cfg (cfg.split r.authorization)))) [
    | inl n ↦ absurd (ground arith)
    | inr (c, g) ↦ (
      j,
      c,
      f,
      g,
      ground (arith, e, f, g, eq_iff c.role "admin"),
      ap (λ o. (context_of o).user_id) (sym e ∙ served j c f g),
    )
  ]
]
  where
    served :
        (j : Jwt) (c : Claims)
        → jwt ≡ some j
        → validated j (token_of cfg (cfg.split r.authorization)) ≡ some c
        → wrap_admin cfg jwt r serves ctx ≡ serves (with_claims ctx c)
    served j c f g = ground (arith, e, f, g)
