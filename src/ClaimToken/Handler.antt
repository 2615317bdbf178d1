-- ===== src/ClaimToken/Handler.antt =====
-- handleClaimAgent of internal/server/claim_handler.go. Requests run side by side, so the handler is two
-- steps: `admit` validates the token and registers the agent, `finish` marks the token and does the rest.
-- The registry, the signature check and strings.Split are parameters.
use peerclaw_server.Prelude.{
  ℕ, suc, String, Option, none, some, List, [], ◌∷◌, ◌++◌, Bool, true, false, not, ◌&&◌, ◌||◌, ◌==◌,
  if◌then◌else◌, Result, ok, err, not_found, driver, constraint, Env,
}
use peerclaw_server.Contacts.Store.{Contact}
use peerclaw_server.Contacts.Service
use peerclaw_server.ClaimToken.Store.{Token, Rows}
use peerclaw_server.ClaimToken.Service.{
  Error, already_claimed, expired, too_many_pending, no_randomness, store_failed, validate, claim,
}

pub record EndpointReq : Type 0 where
  pub url : String
  pub host : String
  pub port : ℕ
  pub transport : String

pub record ClaimAgentRequest : Type 0 where
  pub token : String
  pub name : String
  pub public_key : String
  pub capabilities : List String
  pub protocols : List String
  pub endpoint : EndpointReq
  pub signature : String
  pub metadata : List (String × String)

-- The fields of registry.RegisterRequest that the handler sets.
pub record RegisterRequest : Type 0 where
  pub name : String
  pub public_key : String
  pub capabilities : List String
  pub protocols : List String
  pub endpoint : EndpointReq
  pub metadata : List (String × String)
  pub owner_user_id : String

pub record Agent : Type 0 where
  pub id : String
  pub request : RegisterRequest

-- What other parts are told of a new agent: UpdateFromCard of the router, RecordEvent of the reputation
-- engine, and LogRegistration of the audit log.
pub data Notice : Type 0 where
  updates_routes records_event logs_registration : String → Notice

pub record State : Type 0 where
  pub tokens : Rows
  pub agents : List Agent
  pub contacts : List Contact
  pub notices : List Notice

-- What one request takes from outside.
pub record Outside : Type 0 where
  -- the calls of Validate and of Claim
  pub validate_env : Env
  pub claim_env : Env
  -- whether VerifySignature of a public key, a text and a signature returns no error
  pub fits : String → String → String → Bool
  -- the identifier that registry.Register gives, none on its error
  pub register : RegisterRequest → Option String
  -- the identifiers that registry.ListAgents gives for an owner, none on its error
  pub list_agents : String → Option (List String)
  -- strings.Split(s, ",")
  pub split : String → List String
  -- whether the text of the driver's error in Validate contains some words
  pub driver_says : String → Bool
  -- s.contacts != nil, s.reputation != nil and s.audit != nil
  pub has_contacts : Bool
  pub has_reputation : Bool
  pub has_audit : Bool
  -- the statements, UUIDs and times of the contacts that are added
  pub contacts_env : Env

-- The status by the words in an error's text.
unfoldable pub status_of_text : (String → Bool) → ℕ
status_of_text says =
    if says "already claimed"
    then 409
    else if says "expired"
    then 410
    else if says "not found"
    then 404
    else 400

-- The status of an error of Validate.
unfoldable pub status_of : Outside → Error → ℕ
unfolding status_of_text
status_of o already_claimed = 409
status_of o expired = 410
status_of o too_many_pending = 400
status_of o no_randomness = 400
status_of o (store_failed not_found) = 404
status_of o (store_failed driver) = status_of_text o.driver_says
status_of o (store_failed constraint) = status_of_text o.driver_says

abbrev is_nil : List String → Bool
is_nil [] = true
is_nil (x ∷ xs) = false

-- The list of the request, else the one of the token.
unfoldable pub or_split : Outside → List String → String → List String
or_split o xs s = if is_nil xs && not (s == "") then o.split s else xs

abbrev pub or_default : List String → List String
or_default [] = "a2a" ∷ "mcp" ∷ "acp" ∷ []
or_default (x ∷ xs) = x ∷ xs

unfoldable pub agent_name : ClaimAgentRequest → Token → String
agent_name req t = if not (req.name == "") then req.name else t.agent_name

unfoldable pub register_request : Outside → ClaimAgentRequest → Token → RegisterRequest
unfolding agent_name or_split
register_request o req t = record {
  name = agent_name req t;
  public_key = req.public_key;
  capabilities = or_split o req.capabilities t.capabilities;
  protocols = or_default (or_split o req.protocols t.protocols);
  endpoint = req.endpoint;
  metadata = req.metadata;
  owner_user_id = t.user_id;
}

-- A request that is answered at once, or an agent that is registered and not yet finished.
pub data Admission : Type 0 where
  answered : ℕ → Admission
  registered : Agent → Admission

unfoldable pub enroll : RegisterRequest → Option String → State → State × Admission
enroll r none st = (st, answered 400)
enroll r (some i) st =
    let agent : Agent = record { id = i; request = r } in
    (record st { agents = st.agents ++ agent ∷ [] }, registered agent)

unfoldable pub admit_token :
    Outside → ClaimAgentRequest → Result Error Token → State → State × Admission
unfolding status_of agent_name register_request enroll
admit_token o req (err e) st = (st, answered (status_of o e))
admit_token o req (ok t) st =
    if not (o.fits req.public_key req.token req.signature)
    then (st, answered 401)
    else if agent_name req t == ""
    then (st, answered 400)
    else enroll (register_request o req t) (o.register (register_request o req t)) st

-- The body is none where it does not decode.
unfoldable pub admit : Outside → Option ClaimAgentRequest → State → State × Admission
unfolding admit_token validate
admit o none st = (st, answered 400)
admit o (some req) st =
    if req.token == "" || req.public_key == "" || req.signature == ""
    then (st, answered 400)
    else admit_token o req (validate o.validate_env req.token st.tokens) st

-- Contacts between the agent and each sibling, both ways; errors are logged. `k` counts the calls.
unfoldable pub whitelist : Env → ℕ → String → List String → List Contact → List Contact
unfolding Service.add
whitelist e k i [] rows = rows
whitelist e k i (s ∷ ss) rows =
    let there = (Service.add (e.up k) (e.uuid k) (e.now k) i s "" none rows).0 in
    let back = (Service.add (e.up (suc k)) (e.uuid (suc k)) (e.now (suc k)) s i "" none there).0 in
    if s == i then whitelist e k i ss rows else whitelist e (suc (suc k)) i ss back

unfoldable pub whitelist_owned : Env → String → Option (List String) → List Contact → List Contact
unfolding whitelist
whitelist_owned e i none rows = rows
whitelist_owned e i (some ss) rows = whitelist e 0 i ss rows

-- The steps after the registration; an error of Claim is logged, and the answer is 201.
unfoldable pub finish : Outside → String → Agent → State → State × ℕ
unfolding claim whitelist_owned
finish o code agent st = (
  record {
    tokens = (claim o.claim_env code agent.id st.tokens).0;
    agents = st.agents;
    contacts =
        if not o.has_contacts || agent.request.owner_user_id == ""
        then st.contacts
        else whitelist_owned o.contacts_env agent.id (o.list_agents agent.request.owner_user_id)
            st.contacts;
    notices =
        st.notices
        ++ updates_routes agent.id ∷ (if o.has_reputation then records_event agent.id ∷ [] else [])
        ++ (if o.has_audit then logs_registration agent.id ∷ [] else []);
  },
  201,
)

unfoldable pub conclude : Outside → String → State × Admission → State × ℕ
unfolding finish
conclude o code (st, answered n) = (st, n)
conclude o code (st, registered agent) = finish o code agent st

abbrev pub code_of_request : Option ClaimAgentRequest → String
code_of_request none = ""
code_of_request (some req) = req.token

-- The handler, where no other request runs between its steps.
unfoldable pub handle_claim_agent : Outside → Option ClaimAgentRequest → State → State × ℕ
unfolding conclude admit
handle_claim_agent o req st = conclude o (code_of_request req) (admit o req st)
