-- ===== src/ClaimToken/Once.antt =====
-- A code of internal/claimtoken is claimed once.
use peerclaw_server.Prelude.{
  ◌≤◌, ◌<◌, ◌≡◌, refl, inl, inr, String, none, some, List, [], ◌∷◌, Bool, true, false, ◌&&◌, ◌==◌,
  leb, if◌then◌else◌, ok, err, driver, not_found, Env, arith, eq_iff, Option-cases,
}
use peerclaw_server.Prelude.Table.{
  count, count-snoc, count-remove_apart, count-narrow, passes, find?, count-update-ge, count-apart,
  count-update-turn,
}
use peerclaw_server.ClaimToken.Store.{Token, Rows, has_code, to_row, claimable, set_claimed, lapsed}
use peerclaw_server.ClaimToken.Service.{
  store_failed, already_claimed, expired, claim, validate, cleanup_expired,
}
use peerclaw_server.ClaimToken.Invariant.{
  IsValid, Call, generates, claims, cleans, step, run_tokens, generate-cases, step-IsValid,
  run_tokens-IsValid,
}

-- The row of a code that has been claimed.
abbrev pub spent : String → Token → Bool
spent c t = has_code c t && t.status == "claimed"

claimed_not_pending : (s : String) → (s == "claimed") ≡ true → (s == "pending") ≡ false
claimed_not_pending s e = let p : s ≡ "claimed" = (eq_iff s "claimed").0 e in rw p refl

step-spent :
    (d : String) (rows : Rows) (c : Call) → count (spent d) rows ≤ count (spent d) (step rows c)
unfolding step claim cleanup_expired
step-spent d rows (generates order env bytes user params) =
    elim (generate-cases order env bytes user params rows) [
      | inl same ↦ rw same (omega arith)
      | inr (t, i, e) ↦ rw e (omega (arith, count-snoc (spent d) rows (to_row t)))
    ]
step-spent d rows (claims env c agent) = ground (
  arith,
  count-update-ge (spent d) (claimable c) (set_claimed agent (env.now 0)) (λ r g m. ground arith)
      rows,
)
step-spent d rows (cleans env) = ground (
  arith,
  count-remove_apart (spent d) (lapsed (env.now 0))
      (λ r m. ground (arith, claimed_not_pending r.status)) rows,
)

pub run_tokens-spent :
    (d : String) (rows : Rows) (cs : List Call)
    → count (spent d) rows ≤ count (spent d) (run_tokens rows cs)
unfolding run_tokens
run_tokens-spent d rows [] = omega arith
run_tokens-spent d rows (c ∷ cs) =
    omega (arith, step-spent d rows c, run_tokens-spent d (step rows c) cs)

-- A code of a claimed row cannot be claimed.
pub spent-claimable :
    (d : String) (rows : Rows)
    → IsValid rows
    → 0 < count (spent d) rows
    → count (claimable d) rows ≡ 0
spent-claimable d rows v h = omega (
  arith,
  v.codes d,
  h,
  count-apart (spent d) (claimable d) (has_code d) (λ r m. ground arith) (λ r m. ground arith)
      (λ r m. ground (arith, claimed_not_pending r.status)) rows,
)

-- A successful Claim leaves a claimed row of its code.
pub claim-spent :
    (env : Env) (c agent : String) (rows : Rows)
    → (claim env c agent rows).1 ≡ ok tt
    → 0 < count (spent c) (claim env c agent rows).0
unfolding claim
claim-spent env c agent rows h = ground (
  arith,
  count-update-turn (spent c) (claimable c) (set_claimed agent (env.now 0)) (λ r g. ground arith)
      rows,
)

-- On a valid table, after a successful Claim of a code and any calls after it, a Claim of the same code by
-- any agent fails and changes nothing: its error is that no pending row has the code, or the driver's.
pub claim-once :
    (rows : Rows) (env : Env) (code agent : String) (cs : List Call) (env' : Env) (agent' : String)
    → IsValid rows
    → (claim env code agent rows).1 ≡ ok tt
    → claim env' code agent' (run_tokens (claim env code agent rows).0 cs) ≡ (
      run_tokens (claim env code agent rows).0 cs,
      err (store_failed (if env'.up 0 then not_found else driver)),
    )
unfolding claim step
claim-once rows env code agent cs env' agent' v h = ground (arith, none_left)
  where
    after : Rows
    after = (claim env code agent rows).0

    none_left : count (claimable code) (run_tokens (claim env code agent rows).0 cs) ≡ 0
    none_left =
        spent-claimable code (run_tokens (claim env code agent rows).0 cs)
          (run_tokens-IsValid (claim env code agent rows).0 cs
            (step-IsValid rows (claims env code agent) v))
          (omega (
            arith,
            claim-spent env code agent rows h,
            run_tokens-spent code (claim env code agent rows).0 cs,
          ))

-- On a valid table Claim succeeds exactly where the driver runs it and the row of the code is pending;
-- the expiry of the row plays no part. Validate asks for the same and that the expiry is not past.
pub claim-outcome :
    (env : Env) (code agent : String) (rows : Rows)
    → IsValid rows
    → ((claim env code agent rows).1 ≡ (
        if env.up 0
        then (if passes (λ t. t.status == "pending") (find? (has_code code) rows)
            then ok tt
            else err (store_failed not_found))
        else err (store_failed driver)))
      × (validate env code rows ≡ (
          if env.up 0
          then elim (find? (has_code code) rows) [
            | none ↦ err (store_failed not_found)
            | some t ↦
                if t.status == "pending"
                then (if leb (env.now 0) t.expires_at then ok t else err expired)
                else err already_claimed
          ]
          else err (store_failed driver)))
unfolding claim validate
claim-outcome env code agent rows v = (
  ground (arith, count-narrow (has_code code) (λ t. t.status == "pending") rows (v.codes code)),
  elim (Option-cases (find? (has_code code) rows)) [
    | inl n ↦ ground arith
    | inr (t, f) ↦ ground arith
  ],
)
