-- ===== src/HttpAuth/Routes.antt =====
-- wrapAuth, wrapOwner, wrapUserAuth and wrapInvokeAuth of internal/server/http.go, and wrapAdmin of
-- internal/server/admin_handler.go.
use peerclaw_server.Prelude.{Option, none, some, Bool, not, ◌&&◌, ◌||◌, ◌==◌, if◌then◌else◌}
use peerclaw_server.HttpAuth.Requests.{Request, answers, Handler}
use peerclaw_server.HttpAuth.Agents.{AuthConfig, auth_middleware, owner_only_middleware}
use peerclaw_server.HttpAuth.Users.{Jwt, user_auth_middleware, admin_only_middleware}

unfoldable pub wrap_auth : AuthConfig → Request → Handler → Handler
unfolding auth_middleware
wrap_auth cfg r h ctx = auth_middleware cfg r h ctx

unfoldable pub wrap_owner : AuthConfig → Request → Handler → Handler
unfolding auth_middleware owner_only_middleware
wrap_owner cfg r h ctx = auth_middleware cfg r (owner_only_middleware r h) ctx

unfoldable pub wrap_user_auth : AuthConfig → Option Jwt → Request → Handler → Handler
unfolding user_auth_middleware
wrap_user_auth cfg none r h ctx = answers 501
wrap_user_auth cfg (some jwt) r h ctx = user_auth_middleware cfg jwt r h ctx

unfoldable pub wrap_admin : AuthConfig → Option Jwt → Request → Handler → Handler
unfolding user_auth_middleware admin_only_middleware
wrap_admin cfg none r h ctx = answers 501
wrap_admin cfg (some jwt) r h ctx = user_auth_middleware cfg jwt r (admin_only_middleware h) ctx

unfoldable pub has_agent_auth : Request → Bool
has_agent_auth r =
    (not (r.agent_header == "") && not (r.authorization == ""))
    || (not (r.signature == "") && not (r.public_key == ""))

unfoldable pub invoke_user : AuthConfig → Option Jwt → Request → Handler → Handler
unfolding user_auth_middleware
invoke_user cfg none r h ctx = answers 401
invoke_user cfg (some jwt) r h ctx = user_auth_middleware cfg jwt r h ctx

unfoldable pub wrap_invoke_auth : AuthConfig → Option Jwt → Request → Handler → Handler
unfolding has_agent_auth auth_middleware invoke_user
wrap_invoke_auth cfg jwt r h ctx =
    if has_agent_auth r then auth_middleware cfg r h ctx else invoke_user cfg jwt r h ctx
