-- ===== src/ContactReq/Service.antt =====
-- internal/contactreq/service.go. The state of a call is the two tables that it may write.
use peerclaw_server.Prelude.{
  String, Option, none, some, List, Bool, false, ◌||◌, ◌==◌, if◌then◌else◌, Result, ok, err,
  StoreError, Env,
}
use peerclaw_server.Contacts.Store.{Contact}
use peerclaw_server.Contacts.Service as Contacts
use peerclaw_server.ContactReq.Store
use peerclaw_server.ContactReq.Store.{ContactRequest, Rows}

pub data Error : Type 0 where
  ids_required self_request already_pending already_approved not_found : Error
  not_pending : String → Error
  store_failed : StoreError → Error

pub record Db : Type 0 where
  pub requests : Rows
  pub contacts : List Contact

-- `existing, _ := s.store.GetByAgents(…)`: an error reads as no request.
abbrev pub ignore_error : Result StoreError (Option ContactRequest) → Option ContactRequest
ignore_error (ok o) = o
ignore_error (err e) = none

-- `existing != nil && existing.Status == status`
abbrev pub stands : Option ContactRequest → String → Bool
stands none status = false
stands (some r) status = r.status == status

-- The table after a write, or the wrapped error.
unfoldable pub written {ℓ} : {A : Type ℓ} → A → Db → Result StoreError Rows → Db × Result Error A
written v db (ok rows) = (record db { requests = rows }, ok v)
written v db (err e) = (db, err (store_failed e))

unfoldable pub submit : Env → String → String → String → Db → Db × Result Error ContactRequest
unfolding written Store.get_by_agents Store.create
submit env from_agent to_agent message db =
    if from_agent == "" || to_agent == ""
    then (db, err ids_required)
    else if from_agent == to_agent
    then (db, err self_request)
    else if stands existing "pending"
    then (db, err already_pending)
    else if stands existing "approved"
    then (db, err already_approved)
    else written req db (Store.create (env.up 1) req db.requests)
  where
    existing : Option ContactRequest
    existing = ignore_error (Store.get_by_agents (env.up 0) from_agent to_agent db.requests)

    req : ContactRequest
    req = record {
      id = env.uuid 0;
      from_agent_id = from_agent;
      to_agent_id = to_agent;
      status = "pending";
      message = message;
      reject_reason = "";
      created_at = env.now 0;
      updated_at = env.now 0;
    }

-- The two calls of contacts.Add after an approval; their errors are logged and dropped.
unfoldable pub connect : Env → ContactRequest → List Contact → List Contact
connect env req contacts =
    let one =
      (Contacts.add (env.up 2) (env.uuid 0) (env.now 1) req.to_agent_id req.from_agent_id "" none
        contacts).0 in
    (Contacts.add (env.up 3) (env.uuid 1) (env.now 2) req.from_agent_id req.to_agent_id "" none
      one).0

-- `with_contacts` is `s.contacts != nil`. The request is returned as it was read.
unfoldable pub finish_approve :
    Bool → Env → ContactRequest → Db → Result StoreError Rows → Db × Result Error ContactRequest
unfolding connect
finish_approve with_contacts env req db (err e) = (db, err (store_failed e))
finish_approve with_contacts env req db (ok rows) = (
  record {
    requests = rows;
    contacts = if with_contacts then connect env req db.contacts else db.contacts;
  },
  ok req,
)

-- The reading of a request that must be pending, shared by Approve and Reject.
unfoldable pub pending_request : Bool → String → Rows → Result Error ContactRequest
unfolding Store.get_by_id
pending_request up i rows = elim (Store.get_by_id up i rows) [
  | err e ↦ err (store_failed e)
  | ok none ↦ err not_found
  | ok (some r) ↦ if r.status == "pending" then ok r else err (not_pending r.status)
]

unfoldable pub approve : Bool → Env → String → Db → Db × Result Error ContactRequest
unfolding pending_request finish_approve Store.update_status
approve with_contacts env i db = elim (pending_request (env.up 0) i db.requests) [
  | err e ↦ (db, err e)
  | ok req ↦
      finish_approve with_contacts env req db
        (Store.update_status (env.up 1) i "approved" "" (env.now 0) db.requests)
]

unfoldable pub reject : Env → String → String → Db → Db × Result Error (Unit {0})
unfolding pending_request written Store.update_status
reject env i reason db = elim (pending_request (env.up 0) i db.requests) [
  | err e ↦ (db, err e)
  | ok req ↦
      written tt db (Store.update_status (env.up 1) i "rejected" reason (env.now 0) db.requests)
]

unfoldable pub list_pending : (Rows → Rows) → Bool → String → Db → Result StoreError Rows
unfolding Store.list_by_target
list_pending order up to_agent db = Store.list_by_target order up to_agent "pending" db.requests

unfoldable pub list_incoming : (Rows → Rows) → Bool → String → String → Db → Result StoreError Rows
unfolding Store.list_by_target
list_incoming order up to_agent status db =
    Store.list_by_target order up to_agent status db.requests

unfoldable pub list_sent : (Rows → Rows) → Bool → String → String → Db → Result StoreError Rows
unfolding Store.list_by_sender
list_sent order up from_agent status db =
    Store.list_by_sender order up from_agent status db.requests
