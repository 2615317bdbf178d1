-- ===== src/HttpAuth/Users.antt =====
-- UserAuthMiddleware, AdminOnlyMiddleware, OptionalUserAuthMiddleware, bridgeAuthMiddleware and
-- bridgeAccessAllowed of internal/server/auth.go.
use peerclaw_server.Prelude.{String, Option, none, some, Bool, true, false, ◌==◌, if◌then◌else◌}
use peerclaw_server.HttpAuth.Requests.{
  Request, Context, answers, Handler, with_agent_id, with_user_id, with_user_role,
}
use peerclaw_server.HttpAuth.Agents.{AuthConfig, token_of, authenticate}

-- The claims of a JWT that are read: `uid` and `role`.
pub record Claims : Type 0 where
  pub user_id : String
  pub role : String

-- ValidateAccessToken: none on its error.
abbrev pub Jwt : Type 0
Jwt = String → Option Claims

-- The token of an Authorization header, none where it does not parse, and its claims.
abbrev pub validated : Jwt → Option String → Option Claims
validated jwt none = none
validated jwt (some token) = jwt token

unfoldable pub with_claims : Context → Claims → Context
unfolding with_user_id with_user_role
with_claims ctx c = with_user_role (with_user_id ctx c.user_id) c.role

unfoldable pub admit_user : Option Claims → Handler → Handler
unfolding with_claims
admit_user none next ctx = answers 401
admit_user (some c) next ctx = next (with_claims ctx c)

unfoldable pub user_auth_middleware : AuthConfig → Jwt → Request → Handler → Handler
unfolding admit_user
user_auth_middleware cfg jwt r next ctx =
    if r.authorization == ""
    then answers 401
    else admit_user (validated jwt (token_of cfg (cfg.split r.authorization))) next ctx

abbrev pub is_admin : Option String → Bool
is_admin none = false
is_admin (some role) = role == "admin"

unfoldable pub admin_only_middleware : Handler → Handler
admin_only_middleware next ctx = if is_admin ctx.user_role then next ctx else answers 403

unfoldable pub optional_user : Option Claims → Handler → Handler
unfolding with_claims
optional_user none next ctx = next ctx
optional_user (some c) next ctx = next (with_claims ctx c)

unfoldable pub optional_user_auth_middleware : AuthConfig → Jwt → Request → Handler → Handler
unfolding optional_user
optional_user_auth_middleware cfg jwt r next ctx =
    if r.authorization == ""
    then next ctx
    else optional_user (validated jwt (token_of cfg (cfg.split r.authorization))) next ctx

unfoldable pub bridge_user : AuthConfig → Option Jwt → Request → Handler → Handler
unfolding optional_user_auth_middleware
bridge_user cfg none r next ctx = next ctx
bridge_user cfg (some jwt) r next ctx = optional_user_auth_middleware cfg jwt r next ctx

unfoldable pub bridge_agent : AuthConfig → Option Jwt → Request → Option String → Handler → Handler
unfolding bridge_user with_agent_id
bridge_agent cfg jwt r (some agent) next ctx = next (with_agent_id ctx agent)
bridge_agent cfg jwt r none next ctx = bridge_user cfg jwt r next ctx

-- `jwt` is none where the server has no user accounts.
unfoldable pub bridge_auth_middleware : AuthConfig → Option Jwt → Request → Handler → Handler
unfolding bridge_agent authenticate
bridge_auth_middleware cfg jwt r next ctx = bridge_agent cfg jwt r (authenticate cfg r) next ctx

abbrev pub is_present : Option String → Bool
is_present none = false
is_present (some s) = true

unfoldable pub bridge_access_allowed : Context → Bool → Bool
bridge_access_allowed ctx playground =
    if playground then true else if is_present ctx.agent_id then true else is_present ctx.user_id
