-- ===== src/HttpAuth/Bridges.antt =====
-- Who gets through bridgeAuthMiddleware and bridgeAccessAllowed of internal/server/auth.go.
use peerclaw_server.Prelude.{
  ◌≡◌, inl, inr, String, Option, none, some, Bool, true, false, ◌||◌, ◌==◌, if◌then◌else◌, arith,
  Option-cases,
}
use peerclaw_server.HttpAuth.Requests.{
  Request, Outcome, answers, serves, background, with_agent_id, with_user_id, with_user_role,
}
use peerclaw_server.HttpAuth.Agents.{AuthConfig, token_of, authenticate}
use peerclaw_server.HttpAuth.Users.{
  Claims, Jwt, with_claims, validated, optional_user_auth_middleware, bridge_auth_middleware,
  bridge_agent, bridge_user, optional_user, bridge_access_allowed, is_present,
}

-- The user of the Authorization header, where the server has accounts and the token is valid.
abbrev pub user_of : AuthConfig → Option Jwt → Request → Option Claims
user_of cfg none r = none
user_of cfg (some jwt) r =
    if r.authorization == "" then none else validated jwt (token_of cfg (cfg.split r.authorization))

-- Whether a handler of a bridge lets the request through.
abbrev pub lets_in : Bool → Outcome → Bool
lets_in playground (answers n) = false
lets_in playground (serves ctx) = bridge_access_allowed ctx playground

abbrev pub has_user : Option Claims → Bool
has_user none = false
has_user (some c) = true

bridge_agent-lets_in :
    (cfg : AuthConfig) (jwt : Option Jwt) (r : Request) (playground : Bool) (o : Option String)
    → lets_in playground (bridge_agent cfg jwt r o serves background)
      ≡ (playground || is_present o || has_user (user_of cfg jwt r))
unfolding bridge_agent bridge_user optional_user_auth_middleware optional_user bridge_access_allowed
    with_agent_id with_claims with_user_id with_user_role
bridge_agent-lets_in cfg jwt r playground (some agent) = ground arith
bridge_agent-lets_in cfg none r playground none = ground arith
bridge_agent-lets_in cfg (some j) r playground none =
    elim (Option-cases (validated j (token_of cfg (cfg.split r.authorization)))) [
      | inl n ↦ ground arith
      | inr (c, f) ↦ ground arith
    ]

-- Behind bridgeAuthMiddleware bridgeAccessAllowed says yes exactly where the playground is enabled, the
-- request authenticates an agent, or it carries a valid token of a user; the middleware itself
-- refuses nothing.
pub bridge_access-credentials :
    (cfg : AuthConfig) (jwt : Option Jwt) (r : Request) (playground : Bool)
    → lets_in playground (bridge_auth_middleware cfg jwt r serves background)
      ≡ (playground || is_present (authenticate cfg r) || has_user (user_of cfg jwt r))
unfolding bridge_auth_middleware
bridge_access-credentials cfg jwt r playground =
    bridge_agent-lets_in cfg jwt r playground (authenticate cfg r)
