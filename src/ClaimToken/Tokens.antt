-- ===== src/ClaimToken/Tokens.antt =====
-- handleGenerateClaimToken and handleListClaimTokens of internal/server/claim_handler.go. `join` is
-- strings.Join with a comma; a handler returns the table, the status and what it sends.
use peerclaw_server.Prelude.{
  ℕ, String, Option, none, some, List, [], Bool, ◌==◌, if◌then◌else◌, Result, ok, err, StoreError,
  Env,
}
use peerclaw_server.ClaimToken.Store.{Token, Rows}
use peerclaw_server.ClaimToken.Service.{
  GenerateParams, Error, too_many_pending, no_randomness, already_claimed, expired, store_failed,
  generate, list_by_user,
}

pub record GenerateClaimTokenRequest : Type 0 where
  pub agent_name : String
  pub capabilities : List String
  pub protocols : List String

unfoldable pub generate_params : (List String → String) → GenerateClaimTokenRequest → GenerateParams
generate_params join req = record {
  agent_name = req.agent_name;
  capabilities = join req.capabilities;
  protocols = if join req.protocols == "" then "a2a,mcp,acp" else join req.protocols;
}

unfoldable pub generated : Rows × Result Error Token → Rows × ℕ × Option Token
generated (rows, ok t) = (rows, 201, some t)
generated (rows, err too_many_pending) = (rows, 429, none)
generated (rows, err no_randomness) = (rows, 500, none)
generated (rows, err already_claimed) = (rows, 500, none)
generated (rows, err expired) = (rows, 500, none)
generated (rows, err (store_failed e)) = (rows, 500, none)

-- The body is none where it does not decode; an absent one is a request of empty fields.
unfoldable pub handle_generate_claim_token :
    (List String → String)
    → (Rows → Rows)
    → Env
    → Option (ℕ → ℕ)
    → Option String
    → Option GenerateClaimTokenRequest
    → Rows
    → Rows × ℕ × Option Token
unfolding generate_params generated generate
handle_generate_claim_token join order env bytes none req rows = (rows, 401, none)
handle_generate_claim_token join order env bytes (some user) none rows = (rows, 400, none)
handle_generate_claim_token join order env bytes (some user) (some req) rows =
    if req.agent_name == ""
    then (rows, 400, none)
    else generated (generate order env bytes user (generate_params join req) rows)

unfoldable pub sent : Result StoreError Rows → ℕ × Rows
sent (ok tokens) = (200, tokens)
sent (err e) = (500, [])

unfoldable pub handle_list_claim_tokens : (Rows → Rows) → Bool → Option String → Rows → ℕ × Rows
unfolding sent list_by_user
handle_list_claim_tokens order up none rows = (401, [])
handle_list_claim_tokens order up (some user) rows = sent (list_by_user order up user rows)
