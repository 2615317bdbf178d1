-- ===== src/UserAcl/Examples.antt =====
-- Runs of internal/useracl, and its theorems at them.
use peerclaw_server.Prelude.{
  ℕ, ◌+◌, ◌≡◌, refl, String, Option, none, some, [], ◌∷◌, true, ok, Env, inl, ◌⊎◌, arith, eq_iff,
  nat_eq, if◌then◌else◌, ◌==◌, unexpired, rfc3339_null,
}
use peerclaw_server.Prelude.Table.{count, find?, passes}
use peerclaw_server.UserAcl.Store.{AccessRequest, Rows, has_id, is_pair}
use peerclaw_server.UserAcl.Service.{approve, is_allowed}
use peerclaw_server.UserAcl.Invariant.{IsValid, step, approves}
use peerclaw_server.UserAcl.Access.{verdict, is_allowed-eq-verdict}
use peerclaw_server.UserAcl.Grants.{Grant, is_allowed-step}
use peerclaw_server.UserAcl.Handlers.{UpdateBody, update_access_request, expiry}
use peerclaw_server.UserAcl.Ownership.{update_access_request_of_other_agent}

abbrev env : Env
env = record {
  up = λ k. true;
  uuid = λ k. if nat_eq k 0 then "u0" else "u1";
  now = λ k. 5_000_000_000 + k;
}

abbrev request : String → AccessRequest
request status = record {
  id = "r";
  agent_id = "alice";
  user_id = "eve";
  status = status;
  message = "hi";
  reject_reason = "";
  expires_at = none;
  created_at = 0;
  updated_at = 0;
}

abbrev table : String → Rows
table status = request status ∷ []

table-IsValid : IsValid (table "pending")
table-IsValid = record {
  ids = λ i. unfold count in ground arith;
  pairs = λ a u. unfold count in ground arith;
  entries = (
    record {
      known = inl refl;
      agent = λ e. ground (arith, eq_iff "alice" "");
      user = λ e. ground (arith, eq_iff "eve" "");
    },
    tt,
  );
}

is_allowed-eq-verdict_example :
    is_allowed true "alice" "eve" 7 (table "pending")
    ≡ ok (passes (verdict 7) (find? (is_pair "alice" "eve") (table "pending")))
is_allowed-eq-verdict_example =
    is_allowed-eq-verdict "alice" "eve" 7 (table "pending") table-IsValid

found : find? (has_id "r") (table "pending") ≡ some (request "pending")
unfolding find?
found = refl

admitted :
    is_allowed true "alice" "eve" 7 (step (table "pending") (approves env "r" none)) ≡ ok true
unfolding step is_allowed approve
admitted = refl

is_allowed-step_example :
    (is_allowed true "alice" "eve" 7 (table "pending") ≡ ok true)
    ⊎ Grant "alice" "eve" (table "pending") (approves env "r" none)
is_allowed-step_example =
    is_allowed-step (table "pending") (approves env "r" none) "alice" "eve" 7 table-IsValid admitted

lost : find? (has_id "gone") (table "pending") ≡ none
unfolding find?
lost = refl

-- The agents of the registry: "mine" belongs to "mallory" and "alice" to "bob".
abbrev owner : String → Option (Option String)
owner agent =
    if agent == "mine"
    then some (some "mallory")
    else if agent == "alice"
    then some (some "bob")
    else none

abbrev never : String → Option ℕ
never text = none

abbrev body : UpdateBody
body = record { action = "approve"; reject_reason = ""; expires_at = some "tomorrow" }

update_access_request_of_other_agent_example :
    ((update_access_request true owner never env
        (some "mallory")
        "mine"
        "r"
        (some body)
        (table "pending")).2
      ≡ 200)
    × (is_allowed true "alice" "eve" 7
          (update_access_request true owner never env
            (some "mallory")
            "mine"
            "r"
            (some body)
            (table "pending")).0
        ≡ ok (unexpired 7 (rfc3339_null (expiry never body.expires_at))))
update_access_request_of_other_agent_example =
    update_access_request_of_other_agent owner never env "mallory" "mine" "r" body (table "pending")
      (request "pending") 7 table-IsValid refl refl refl found
