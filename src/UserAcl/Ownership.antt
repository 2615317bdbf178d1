-- ===== src/UserAcl/Ownership.antt =====
-- Which requests the handlers of internal/server/useracl_handler.go let a provider decide.
use peerclaw_server.Prelude.{
  ℕ, ◌≡◌, refl, String, Option, none, some, Bool, true, false, if◌then◌else◌, ok, Env, arith,
  eq_iff, eq_refl, rfc3339_null, unexpired,
}
use peerclaw_server.Prelude.Table.{find?}
use peerclaw_server.UserAcl.Store.{AccessRequest, Rows, has_id}
use peerclaw_server.UserAcl.Service.{is_allowed, approve}
use peerclaw_server.UserAcl.Invariant.{IsValid}
use peerclaw_server.UserAcl.Access.{approve_by_id-is_allowed}
use peerclaw_server.UserAcl.Handlers.{
  UpdateBody, Owner, update_access_request, revoke_access_request, verify_agent_ownership, expiry,
}

-- Without a session of the owner of the agent in the path, neither handler changes the table,
-- notifies anyone or answers with success: the status is 501, 401 or 403.
pub update_access_request-guard :
    (enabled : Bool) (owner : Owner) (parse : String → Option ℕ) (env : Env) (user : Option String)
    (agent request_id : String) (body : Option UpdateBody) (rows : Rows)
    → ((u : String) → user ≡ some u → verify_agent_ownership (owner agent) u ≡ false)
    → (update_access_request enabled owner parse env user agent request_id body rows
        ≡ (rows, none, (if enabled then (elim user [ none ↦ 401 | some u ↦ 403 ]) else 501)))
      × (revoke_access_request enabled owner env user agent request_id rows
          ≡ (rows, none, (if enabled then (elim user [ none ↦ 401 | some u ↦ 403 ]) else 501)))
unfolding update_access_request revoke_access_request
update_access_request-guard false owner parse env user agent i body rows h = (refl, refl)
update_access_request-guard true owner parse env none agent i body rows h = (refl, refl)
update_access_request-guard true owner parse env (some u) agent i body rows h =
    (ground (arith, h u refl), ground (arith, h u refl))

-- A user who owns the agent of the path admits the requester of any request, whichever agent the
-- request is for: the handler answers 200, and IsAllowed of the request's agent and user says yes
-- until the given expiry, or for ever where the expiry is absent or time.Parse refuses it.
pub update_access_request_of_other_agent :
    (owner : Owner) (parse : String → Option ℕ) (env : Env) (user mine i : String)
    (body : UpdateBody) (rows : Rows) (r : AccessRequest) (now : ℕ)
    → IsValid rows
    → env.up 0 ≡ true
    → owner mine ≡ some (some user)
    → body.action ≡ "approve"
    → find? (has_id i) rows ≡ some r
    → ((update_access_request true owner parse env (some user) mine i (some body) rows).2 ≡ 200)
      × (is_allowed true r.agent_id r.user_id now
            (update_access_request true owner parse env (some user) mine i (some body) rows).0
          ≡ ok (unexpired now (rfc3339_null (expiry parse body.expires_at))))
unfolding update_access_request approve
update_access_request_of_other_agent owner parse env user mine i body rows r now v up own action
      found =
    (
      ground (arith, owned, eq_iff body.action "approve"),
      ground (
        arith,
        owned,
        eq_iff body.action "approve",
        eq_refl r.agent_id,
        eq_refl r.user_id,
        approve_by_id-is_allowed env i (expiry parse body.expires_at) rows r r.agent_id r.user_id
            now v up found,
      ),
    )
  where
    owned : verify_agent_ownership (owner mine) user ≡ true
    owned = ground (arith, own, eq_refl user)
