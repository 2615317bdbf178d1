-- ===== src/ClaimToken/OneAgent.antt =====
-- How many agents a code of internal/claimtoken brings in through handleClaimAgent.
use peerclaw_server.Prelude.{
  ◌<◌, ◌≡◌, refl, inl, inr, String, some, List, Bool, true, ◌||◌, ◌==◌, if◌then◌else◌, ok, err,
  driver, constraint, not_found, Env, arith, Bool-cases, Option-cases, Result-cases,
}
use peerclaw_server.Prelude.Table.{
  count, find?, passes, count_mono, count_of_found, count_of_find?-none, find?-holds,
}
use peerclaw_server.ClaimToken.Store.{Token, Rows, has_code, claimable}
use peerclaw_server.ClaimToken.Service.{
  Error, store_failed, already_claimed, expired, too_many_pending, no_randomness, validate,
  check_token, claim,
}
use peerclaw_server.ClaimToken.Store
use peerclaw_server.ClaimToken.Invariant.{
  IsValid, Call, claims, run_tokens, step, step-IsValid, run_tokens-IsValid,
}
use peerclaw_server.ClaimToken.Once.{
  spent, claim-outcome, claim-spent, run_tokens-spent, spent-claimable,
}
use peerclaw_server.ClaimToken.Handler.{
  ClaimAgentRequest, Outside, State, status_of, status_of_text, register_request, enroll,
  admit_token, admit, finish, conclude, handle_claim_agent,
}

-- What Validate answers for a code that has been claimed.
spent-validate :
    (env : Env) (code : String) (rows : Rows)
    → IsValid rows
    → 0 < count (spent code) rows
    → validate env code rows ≡ (if env.up 0 then err already_claimed else err (store_failed driver))
unfolding validate check_token Store.get_by_code Store.or_not_found
spent-validate env code rows v h = elim (Option-cases (find? (has_code code) rows)) [
  | inl n ↦ absurd (
      omega (
        arith,
        h,
        count_mono (spent code) (has_code code) (λ r m. ground arith) rows,
        count_of_find?-none (has_code code) rows n,
      ))
  | inr (t, f) ↦ elim (Bool-cases (t.status == "pending")) [
    | inl pending ↦ absurd (
        omega (
          arith,
          spent-claimable code rows v h,
          count_of_found (claimable code) (has_code code) rows t f
              (ground (arith, find?-holds (has_code code) rows t f)),
        ))
    | inr done ↦ ground arith
  ]
]

validate-pending :
    (env : Env) (code : String) (rows : Rows) (t : Token)
    → validate env code rows ≡ ok t
    → passes (λ t. t.status == "pending") (find? (has_code code) rows) ≡ true
unfolding validate check_token Store.get_by_code Store.or_not_found
validate-pending env code rows t e = elim (Option-cases (find? (has_code code) rows)) [
  | inl n ↦ absurd (ground (arith, n))
  | inr (r, f) ↦ ground (arith, f)
]

status_of_text-refuses : (says : String → Bool) → status_of_text says ≡ 201 → ⊥
unfolding status_of_text
status_of_text-refuses says h = ground (arith, h)

status_of-refuses : (o : Outside) (e : Error) → status_of o e ≡ 201 → ⊥
unfolding status_of
status_of-refuses o already_claimed h = omega (arith, h)
status_of-refuses o expired h = omega (arith, h)
status_of-refuses o too_many_pending h = omega (arith, h)
status_of-refuses o no_randomness h = omega (arith, h)
status_of-refuses o (store_failed not_found) h = omega (arith, h)
status_of-refuses o (store_failed driver) h = status_of_text-refuses o.driver_says h
status_of-refuses o (store_failed constraint) h = status_of_text-refuses o.driver_says h

-- What a request that is answered by 201 has done.
accepted :
    (o : Outside) (req : ClaimAgentRequest) (st : State)
    → (handle_claim_agent o (some req) st).1 ≡ 201
    → (t : Token) × (a : String) × (validate o.validate_env req.token st.tokens ≡ ok t)
      × ((handle_claim_agent o (some req) st).0.tokens
          ≡ (claim o.claim_env req.token a st.tokens).0)
unfolding handle_claim_agent conclude admit admit_token enroll finish
accepted o req st h = elim (Result-cases (validate o.validate_env req.token st.tokens)) [
  | inr (e, f) ↦ absurd (ground (arith, h, f, status_of-refuses o e))
  | inl (t, f) ↦ elim (Option-cases (o.register (register_request o req t))) [
    | inl n ↦ absurd (ground (arith, h, f, n))
    | inr (i, r) ↦ (t, i, f, ground (arith, h, f, r))
  ]
]

-- The state after a request and calls on the tokens.
abbrev pub later : Outside → ClaimAgentRequest → State → List Call → State
later o req st cs =
    let st' = (handle_claim_agent o (some req) st).0 in
    record st' { tokens = run_tokens st'.tokens cs }

later-refuses :
    (o o' : Outside) (req req' : ClaimAgentRequest) (st : State) (cs : List Call)
    → IsValid st.tokens
    → (handle_claim_agent o (some req) st).1 ≡ 201
    → o.claim_env.up 0 ≡ true
    → req'.token ≡ req.token
    → validate o'.validate_env req'.token (later o req st cs).tokens
      ≡ (if o'.validate_env.up 0 then err already_claimed else err (store_failed driver))
unfolding step
later-refuses o o' req req' st cs v h up same =
    let (t, a, f, e) = accepted o req st h in
    let done : (claim o.claim_env req.token a st.tokens).1 ≡ ok tt = ground (
      arith,
      up,
      (claim-outcome o.claim_env req.token a st.tokens v).0,
      validate-pending o.validate_env req.token st.tokens t f,
    ) in
    let claimed = claim-spent o.claim_env req.token a st.tokens done in
    let still : 0
        < count (spent req.token) (run_tokens (claim o.claim_env req.token a st.tokens).0 cs) =
      omega (
        arith,
        claimed,
        run_tokens-spent req.token (claim o.claim_env req.token a st.tokens).0 cs,
      ) in
    rw (same, e)
      (spent-validate o'.validate_env req.token
        (run_tokens (claim o.claim_env req.token a st.tokens).0 cs)
        (run_tokens-IsValid (claim o.claim_env req.token a st.tokens).0 cs
          (step-IsValid st.tokens (claims o.claim_env req.token a) v))
        still)

-- On a valid table, after a request that was answered by 201 and whose Claim the driver ran, and any calls
-- on the tokens after it, every request with the same token changes nothing and is answered by 409, by 400
-- where a field is missing, or by the status of the text of the driver's error where the driver does not run
-- Validate, when no other request runs between the steps of these two.
pub handle_claim_agent-once :
    (o o' : Outside) (req req' : ClaimAgentRequest) (st : State) (cs : List Call)
    → IsValid st.tokens
    → (handle_claim_agent o (some req) st).1 ≡ 201
    → o.claim_env.up 0 ≡ true
    → req'.token ≡ req.token
    → handle_claim_agent o' (some req') (later o req st cs) ≡ (
      later o req st cs,
      if req'.token == "" || req'.public_key == "" || req'.signature == ""
          then 400
          else if o'.validate_env.up 0
          then 409
          else status_of_text o'.driver_says,
    )
unfolding handle_claim_agent conclude admit admit_token status_of
handle_claim_agent-once o o' req req' st cs v h up same =
    elim (Bool-cases (req'.token == "" || req'.public_key == "" || req'.signature == "")) [
      | inl missing ↦ rw missing refl
      | inr complete ↦ elim (Bool-cases (o'.validate_env.up 0)) [
        | inl runs ↦ ground (arith, complete, runs, later-refuses o o' req req' st cs v h up same)
        | inr down ↦ ground (arith, complete, down, later-refuses o o' req req' st cs v h up same)
      ]
    ]
