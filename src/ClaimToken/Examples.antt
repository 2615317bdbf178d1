-- ===== src/ClaimToken/Examples.antt =====
-- Runs of internal/claimtoken, and its theorems at them.
use peerclaw_server.Prelude.{
  ℕ, ◌+◌, ◌*◌, ◌≡◌, refl, none, some, [], ◌∷◌, true, ok, err, Env, arith, nat_eq, if◌then◌else◌,
  not_found,
}
use peerclaw_server.Prelude.Table.{count}
use peerclaw_server.ClaimToken.Code.{generate_code}
use peerclaw_server.ClaimToken.Store.{Token, Rows, mark_claimed}
use peerclaw_server.ClaimToken.Service.{GenerateParams, claim, store_failed}
use peerclaw_server.ClaimToken.Invariant.{IsValid, generates, claims, cleans, run_tokens}
use peerclaw_server.ClaimToken.Once.{claim-once}
use peerclaw_server.ClaimToken.Limit.{IsBounded, run_tokens-IsBounded}

abbrev at_second : ℕ → Env
at_second s = record {
  up = λ k. true;
  uuid = λ k. if nat_eq s 5 then "u5" else "u6";
  now = λ k. s * 1_000_000_000;
}

abbrev params : GenerateParams
params = record { agent_name = "bot"; capabilities = "chat"; protocols = "a2a" }

-- The token of the code PCW-AAAA-AAAA, which ended at second 1800.
abbrev token : Token
token = record {
  id = "u0";
  code = "PCW-AAAA-AAAA";
  user_id = "eve";
  status = "pending";
  agent_id = "";
  agent_name = "bot";
  capabilities = "chat";
  protocols = "a2a";
  created_at = 0;
  expires_at = 1_800_000_000_000;
  claimed_at = none;
}

abbrev table : Rows
table = token ∷ []

table-IsValid : IsValid table
table-IsValid = record {
  ids = λ i. unfold count in ground arith;
  codes = λ c. unfold count in ground arith;
}

code_of_bytes : generate_code (some (λ k. 200 + k)) ≡ some "PCW-RSTU-VWXY"
unfolding generate_code
code_of_bytes = refl

claimed : (claim (at_second 6) "PCW-AAAA-AAAA" "agent" table).1 ≡ ok tt
unfolding claim mark_claimed count
claimed = refl

claim-once_example :
    claim (at_second 8) "PCW-AAAA-AAAA" "other" (
      run_tokens
        (claim (at_second 6) "PCW-AAAA-AAAA" "agent" table).0
        (cleans (at_second 7_000) ∷ []))
    ≡ (
      run_tokens
          (claim (at_second 6) "PCW-AAAA-AAAA" "agent" table).0
          (cleans (at_second 7_000) ∷ []),
      err (store_failed not_found),
    )
claim-once_example =
    claim-once table (at_second 6) "PCW-AAAA-AAAA" "agent" (cleans (at_second 7_000) ∷ [])
      (at_second 8) "other" table-IsValid claimed

run_tokens-IsBounded_example : IsBounded 6_000_000_000 (
    run_tokens table (
      generates (λ rs. rs) (at_second 5) (some (λ k. 30)) "eve" params
      ∷ claims (at_second 6) "PCW-AAAA-AAAA" "agent"
      ∷ []))
run_tokens-IsBounded_example =
    run_tokens-IsBounded 0 table
      (generates (λ rs. rs) (at_second 5) (some (λ k. 30)) "eve" params
        ∷ claims (at_second 6) "PCW-AAAA-AAAA" "agent"
        ∷ [])
      ((λ p rows. refl), (tt, tt)) (ground arith, (ground arith, tt))
      (λ u t le. unfold count in ground arith)
