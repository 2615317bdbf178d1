-- ===== src/ClaimToken/HandlerExamples.antt =====
-- Runs of handleClaimAgent of internal/server/claim_handler.go, and its theorems at them.
use peerclaw_server.Prelude.{
  ℕ, ◌*◌, ◌≡◌, refl, String, none, some, [], ◌∷◌, true, false, ◌==◌, Env, arith,
}
use peerclaw_server.Prelude.Table.{count}
use peerclaw_server.ClaimToken.Store.{Token}
use peerclaw_server.ClaimToken.Service.{validate}
use peerclaw_server.ClaimToken.Invariant.{IsValid, cleans}
use peerclaw_server.ClaimToken.Handler.{
  ClaimAgentRequest, Outside, State, agent_name, handle_claim_agent,
}
use peerclaw_server.ClaimToken.OneAgent.{later, handle_claim_agent-once}
use peerclaw_server.ClaimToken.Overlap.{IsAcceptable, agent_of, overlapped, overlapped-registers}

abbrev at_second : ℕ → Env
at_second s = record { up = λ k. true; uuid = λ k. "c"; now = λ k. s * 1_000_000_000 }

abbrev outside : ℕ → String → Outside
outside s i = record {
  validate_env = at_second s;
  claim_env = at_second s;
  fits = λ key text sig. sig == "signed";
  register = λ r. some i;
  list_agents = λ u. some [];
  split = λ s. s ∷ [];
  driver_says = λ words. false;
  has_contacts = true;
  has_reputation = true;
  has_audit = true;
  contacts_env = at_second s;
}

abbrev request : ClaimAgentRequest
request = record {
  token = "PCW-AAAA-AAAA";
  name = "";
  public_key = "key";
  capabilities = [];
  protocols = [];
  endpoint = record { url = "https://bot"; host = ""; port = 0; transport = "" };
  signature = "signed";
  metadata = [];
}

abbrev token : Token
token = record {
  id = "u0";
  code = "PCW-AAAA-AAAA";
  user_id = "eve";
  status = "pending";
  agent_id = "";
  agent_name = "bot";
  capabilities = "chat";
  protocols = "a2a";
  created_at = 0;
  expires_at = 1_800_000_000_000;
  claimed_at = none;
}

abbrev state : State
state = record { tokens = token ∷ []; agents = []; contacts = []; notices = [] }

table-IsValid : IsValid (token ∷ [])
table-IsValid = record {
  ids = λ i. unfold count in ground arith;
  codes = λ c. unfold count in ground arith;
}

answered_201 : (handle_claim_agent (outside 6 "bot1") (some request) state).1 ≡ 201
unfolding handle_claim_agent
answered_201 = refl

handle_claim_agent-once_example :
    handle_claim_agent
      (outside 8 "bot2")
      (some request)
      (later (outside 6 "bot1") request state (cleans (at_second 7_000) ∷ []))
    ≡ (later (outside 6 "bot1") request state (cleans (at_second 7_000) ∷ []), 409)
handle_claim_agent-once_example =
    handle_claim_agent-once (outside 6 "bot1") (outside 8 "bot2") request request state
      (cleans (at_second 7_000) ∷ []) table-IsValid answered_201 refl refl

acceptable : (i : String) → IsAcceptable (outside 6 i) request state token i
unfolding validate agent_name
acceptable i = record {
  complete = refl;
  valid = refl;
  signed = refl;
  named = refl;
  registers = refl;
}

overlapped-registers_example :
    ((overlapped (outside 6 "bot1") request (outside 6 "bot2") request state).0.agents
      ≡ agent_of (outside 6 "bot1") request token "bot1"
        ∷ agent_of (outside 6 "bot2") request token "bot2"
        ∷ [])
    × ((overlapped (outside 6 "bot1") request (outside 6 "bot2") request state).1 ≡ 201)
    × ((overlapped (outside 6 "bot1") request (outside 6 "bot2") request state).2 ≡ 201)
overlapped-registers_example =
    overlapped-registers (outside 6 "bot1") (outside 6 "bot2") request request state token token
      "bot1" "bot2" (acceptable "bot1") (acceptable "bot2")
