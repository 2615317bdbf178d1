-- ===== src/ContactReq/Examples.antt =====
-- Runs of internal/contactreq, and its theorems at them.
use peerclaw_server.Prelude.{
  ◌+◌, ◌≡◌, refl, String, some, [], ◌∷◌, true, false, ok, Env, inl, arith, eq_iff, nat_eq,
  if◌then◌else◌,
}
use peerclaw_server.Prelude.Table.{count, find?}
use peerclaw_server.Contacts.Store.{Contact}
use peerclaw_server.Contacts.Service as Contacts
use peerclaw_server.ContactReq.Store.{ContactRequest}
use peerclaw_server.ContactReq.Service.{Db, approve}
use peerclaw_server.ContactReq.Invariant.{IsValid, step, approves}
use peerclaw_server.ContactReq.Lookup.{Move, status_of}
use peerclaw_server.ContactReq.Status.{step-Move}
use peerclaw_server.ContactReq.Approval.{approve-is_allowed}

abbrev env : Env
env = record {
  up = λ k. true;
  uuid = λ k. if nat_eq k 0 then "u0" else "u1";
  now = λ k. 1_000_000_000 + k;
}

abbrev request : String → ContactRequest
request status = record {
  id = "r";
  from_agent_id = "bob";
  to_agent_id = "alice";
  status = status;
  message = "hi";
  reject_reason = "";
  created_at = 0;
  updated_at = 0;
}

abbrev with_request : String → Db
with_request status = record { requests = request status ∷ []; contacts = [] }

with_request-IsValid : IsValid (with_request "pending").requests
with_request-IsValid = record {
  ids = λ i. unfold count in ground arith;
  pairs = λ f t. unfold count in ground arith;
  entries = (
    record {
      known = inl refl;
      other = λ e. ground (arith, eq_iff "bob" "alice");
      from_agent = λ e. ground (arith, eq_iff "bob" "");
      to_agent = λ e. ground (arith, eq_iff "alice" "");
    },
    tt,
  );
}

step-Move_example :
    Move
      (some "pending")
      (status_of "bob" "alice" (step (with_request "pending") (approves true env "r")).requests)
unfolding find?
step-Move_example =
    step-Move (with_request "pending") (approves true env "r") "bob" "alice" with_request-IsValid tt

abbrev lookup_fails : Env
lookup_fails = record env { up = λ k. if nat_eq k 0 then false else true }

-- An entry of alice for bob that ran out at second 5.
abbrev stale : Contact
stale = record {
  id = "c";
  owner_agent_id = "alice";
  contact_agent_id = "bob";
  alias = "";
  expires_at = some 5_000_000_000;
  created_at = 0;
}

abbrev with_stale : Db
with_stale = record { requests = request "pending" ∷ []; contacts = stale ∷ [] }

approve-is_allowed_example :
    Contacts.is_allowed true "bob" "alice" 9_000_000_000
      (approve true env "r" (with_request "pending")).0.contacts
    ≡ ok true
unfolding approve
approve-is_allowed_example =
    approve-is_allowed env "r" (with_request "pending") (request "pending") "bob" "alice"
      9_000_000_000 with_request-IsValid refl
      (record {
        up = λ k. refl;
        distinct = λ e. ground (arith, eq_iff "u0" "u1");
        first = unfold count in refl;
        second = unfold count in refl;
        there = unfold count in refl;
        back = unfold count in refl;
      })
