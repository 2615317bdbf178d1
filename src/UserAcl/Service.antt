-- ===== src/UserAcl/Service.antt =====
-- internal/useracl/service.go. A call returns the table that it leaves and its result.
use peerclaw_server.Prelude.{
  ℕ, String, Option, none, some, Bool, false, ◌||◌, ◌==◌, if◌then◌else◌, Result, ok, err,
  StoreError, Env,
}
use peerclaw_server.UserAcl.Store
use peerclaw_server.UserAcl.Store.{AccessRequest, Rows}

pub data Error : Type 0 where
  ids_required already_pending already_approved : Error
  store_failed : StoreError → Error

-- `existing, _ := s.store.GetByAgentAndUser(…)`: an error reads as no request.
abbrev pub ignore_error : Result StoreError (Option AccessRequest) → Option AccessRequest
ignore_error (ok o) = o
ignore_error (err e) = none

-- `existing != nil && existing.Status == status`
abbrev pub stands : Option AccessRequest → String → Bool
stands none status = false
stands (some r) status = r.status == status

-- The table after a write, or the wrapped error.
unfoldable pub written {ℓ} :
    {A : Type ℓ} → A → Rows → Result StoreError Rows → Rows × Result Error A
written v rows (ok rows') = (rows', ok v)
written v rows (err e) = (rows, err (store_failed e))

unfoldable pub submit_request :
    Env → String → String → String → Rows → Rows × Result Error AccessRequest
unfolding written Store.get_by_agent_and_user Store.create
submit_request env agent user message rows =
    if agent == "" || user == ""
    then (rows, err ids_required)
    else if stands existing "pending"
    then (rows, err already_pending)
    else if stands existing "approved"
    then (rows, err already_approved)
    else written req rows (Store.create (env.up 1) req rows)
  where
    existing : Option AccessRequest
    existing = ignore_error (Store.get_by_agent_and_user (env.up 0) agent user rows)

    req : AccessRequest
    req = record {
      id = env.uuid 0;
      agent_id = agent;
      user_id = user;
      status = "pending";
      message = message;
      reject_reason = "";
      expires_at = none;
      created_at = env.now 0;
      updated_at = env.now 0;
    }

unfoldable pub approve : Env → String → Option ℕ → Rows → Rows × Result Error (Unit {0})
unfolding written Store.update_status
approve env i expires rows =
    written tt rows (Store.update_status (env.up 0) i "approved" "" expires (env.now 0) rows)

unfoldable pub reject : Env → String → String → Rows → Rows × Result Error (Unit {0})
unfolding written Store.update_status
reject env i reason rows =
    written tt rows (Store.update_status (env.up 0) i "rejected" reason none (env.now 0) rows)

unfoldable pub revoke : Env → String → Rows → Rows × Result Error (Unit {0})
unfolding written Store.delete
revoke env i rows = written tt rows (Store.delete (env.up 0) i rows)

unfoldable pub is_allowed : Bool → String → String → ℕ → Rows → Result StoreError Bool
unfolding Store.is_allowed
is_allowed up agent user now rows = Store.is_allowed up agent user now rows

unfoldable pub list_by_agent :
    (Rows → Rows) → Bool → String → String → Rows → Result StoreError Rows
unfolding Store.list_by_agent
list_by_agent order up agent status rows = Store.list_by_agent order up agent status rows

unfoldable pub list_by_user : (Rows → Rows) → Bool → String → Rows → Result StoreError Rows
unfolding Store.list_by_user
list_by_user order up user rows = Store.list_by_user order up user rows

unfoldable pub get_by_id : Bool → String → Rows → Result StoreError (Option AccessRequest)
unfolding Store.get_by_id
get_by_id up i rows = Store.get_by_id up i rows

unfoldable pub get_by_agent_and_user :
    Bool → String → String → Rows → Result StoreError (Option AccessRequest)
unfolding Store.get_by_agent_and_user
get_by_agent_and_user up agent user rows = Store.get_by_agent_and_user up agent user rows
