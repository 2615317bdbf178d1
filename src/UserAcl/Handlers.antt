-- ===== src/UserAcl/Handlers.antt =====
-- internal/server/useracl_handler.go: the provider's update and revoke of an access request, and
-- verifyAgentOwnership of internal/server/contacts_handler.go. The registry is the argument `owner`:
-- none where GetAgent fails, some none where the card has no metadata. A handler returns the table,
-- the user that it notifies, and the HTTP status.
use peerclaw_server.Prelude.{
  ℕ, ◌+◌, String, Option, none, some, Bool, true, false, ◌==◌, if◌then◌else◌, Result, ok, err, Env,
  StoreError,
}
use peerclaw_server.UserAcl.Store.{AccessRequest, Rows}
use peerclaw_server.UserAcl.Service.{Error, approve, reject, revoke, get_by_id}

pub record UpdateBody : Type 0 where
  pub action : String
  pub reject_reason : String
  pub expires_at : Option String

abbrev pub Owner : Type 0
Owner = String → Option (Option String)

abbrev pub Response : Type 0
Response = Rows × Option String × ℕ

-- The error is none.
unfoldable pub verify_agent_ownership : Option (Option String) → String → Bool
verify_agent_ownership none user = false
verify_agent_ownership (some none) user = false
verify_agent_ownership (some (some owner)) user = owner == user

-- A text that time.Parse refuses leaves the expiry nil.
unfoldable pub expiry : (String → Option ℕ) → Option String → Option ℕ
expiry parse none = none
expiry parse (some text) = parse text

-- The environment of the calls after the first `k` statements.
abbrev pub after : ℕ → Env → Env
after k env = record env { up = λ i. env.up (i + k) }

-- The user of a request that GetByID found.
unfoldable pub requester : Result StoreError (Option AccessRequest) → Option String
requester (ok (some r)) = some r.user_id
requester (ok none) = none
requester (err e) = none

unfoldable pub respond : Rows × Result Error (Unit {0}) → (Rows → Option String) → ℕ → ℕ → Response
respond (rows, ok u) notified success failure = (rows, notified rows, success)
respond (rows, err e) notified success failure = (rows, none, failure)

-- The switch on the action.
unfoldable pub act : (String → Option ℕ) → Env → String → UpdateBody → Rows → Response
unfolding respond requester expiry get_by_id
act parse env request_id body rows =
    if body.action == "approve"
    then respond (approve env request_id (expiry parse body.expires_at) rows)
        (λ rows'. requester (get_by_id (env.up 1) request_id rows')) 200 400
    else if body.action == "reject"
    then respond (reject (after 1 env) request_id body.reject_reason rows)
        (λ rows'. requester (get_by_id (env.up 0) request_id rows)) 200 400
    else (rows, none, 400)

unfoldable pub read_body : (String → Option ℕ) → Env → String → Option UpdateBody → Rows → Response
unfolding act
read_body parse env request_id none rows = (rows, none, 400)
read_body parse env request_id (some body) rows = act parse env request_id body rows

-- handleProviderUpdateAccessRequest: the user of the session, the path's agent and request, the body.
unfoldable pub update_access_request :
    Bool
    → Owner
    → (String → Option ℕ)
    → Env
    → Option String
    → String
    → String
    → Option UpdateBody
    → Rows
    → Response
unfolding verify_agent_ownership read_body
update_access_request false owner parse env user agent request_id body rows = (rows, none, 501)
update_access_request true owner parse env none agent request_id body rows = (rows, none, 401)
update_access_request true owner parse env (some user) agent request_id body rows =
    if verify_agent_ownership (owner agent) user
    then read_body parse env request_id body rows
    else (rows, none, 403)

-- handleProviderRevokeAccessRequest.
unfoldable pub revoke_access_request :
    Bool → Owner → Env → Option String → String → String → Rows → Response
unfolding verify_agent_ownership respond
revoke_access_request false owner env user agent request_id rows = (rows, none, 501)
revoke_access_request true owner env none agent request_id rows = (rows, none, 401)
revoke_access_request true owner env (some user) agent request_id rows =
    if verify_agent_ownership (owner agent) user
    then respond (revoke env request_id rows) (λ rows'. none) 204 404
    else (rows, none, 403)
