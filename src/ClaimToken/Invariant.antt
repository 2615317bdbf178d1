-- ===== src/ClaimToken/Invariant.antt =====
-- The calls of internal/claimtoken, and what holds of the table claim_tokens after any of them.
use peerclaw_server.Prelude.{
  ℕ, ◌≤◌, ◌<◌, ◌≡◌, refl, inl, inr, ◌⊎◌, String, Option, List, [], ◌∷◌, ◌++◌, Bool, ltb, leb, Env,
  arith, eq_iff, Bool-cases, Option-cases,
}
use peerclaw_server.Prelude.Table.{
  count, count-snoc, count-remove-le, count-update_same, count_mono, remove, update, select,
}
use peerclaw_server.ClaimToken.Store.{
  Token, Rows, has_id, has_code, conflicts, to_row, claimable, set_claimed, lapsed, is_of,
}
use peerclaw_server.ClaimToken.Service.{
  GenerateParams, is_live, generate, check_limit, insert, new_token, claim, cleanup_expired,
}
use peerclaw_server.ClaimToken.Code.{generate_code}

pub record IsValid (rows : Rows) : Type 0 where
  pub ids : (i : String) → count (has_id i) rows ≤ 1
  pub codes : (c : String) → count (has_code c) rows ≤ 1

pub data Call : Type 0 where
  generates : (Rows → Rows) → Env → Option (ℕ → ℕ) → String → GenerateParams → Call
  claims : Env → String → String → Call
  cleans : Env → Call

unfoldable pub step : Rows → Call → Rows
step rows (generates order env bytes user params) = (generate order env bytes user params rows).0
step rows (claims env code agent) = (claim env code agent rows).0
step rows (cleans env) = (cleanup_expired env rows).0

unfoldable pub run_tokens : Rows → List Call → Rows
unfolding step
run_tokens rows [] = rows
run_tokens rows (c ∷ cs) = run_tokens (step rows c) cs

-- What Generate knows of the token that it inserts.
pub record Inserted (order : Rows → Rows) (now : ℕ) (user : String) (rows : Rows) (t : Token)
    : Type 0 where
  pub pending : t.status ≡ "pending"
  pub holder : t.user_id ≡ user
  pub fresh : count (conflicts t) rows ≡ 0
  pub limit : count (is_live now) (order (select (is_of user) rows)) < 3

-- Generate leaves the table, or appends a pending token whose identifier and code are in no row, when
-- the user has fewer than three live tokens.
pub generate-cases :
    (order : Rows → Rows) (env : Env) (bytes : Option (ℕ → ℕ)) (user : String)
    (params : GenerateParams) (rows : Rows)
    → ((generate order env bytes user params rows).0 ≡ rows)
      ⊎ ((t : Token) × Inserted order (env.now 0) user rows t
          × ((generate order env bytes user params rows).0 ≡ rows ++ to_row t ∷ []))
unfolding generate check_limit insert
generate-cases order env bytes user params rows = elim (Bool-cases (env.up 0)) [
  | inr down ↦ inl (ground arith)
  | inl up ↦
      elim (Bool-cases (leb 3 (count (is_live (env.now 0)) (order (select (is_of user) rows))))) [
        | inl full ↦ inl (ground arith)
        | inr few ↦ elim (Option-cases (generate_code bytes)) [
          | inl none_left ↦ inl (ground arith)
          | inr (code, e) ↦ elim (Bool-cases (env.up 1)) [
            | inr down ↦ inl (ground arith)
            | inl ready ↦
                elim (Bool-cases
                  (ltb 0 (count (conflicts (new_token env code user params)) rows))) [
                    | inl taken ↦ inl (ground arith)
                    | inr free ↦ inr (
                      new_token env code user params,
                      record {
                        pending = refl;
                        holder = refl;
                        fresh = ground arith;
                        limit = ground arith;
                      },
                      ground arith,
                    )
                  ]
          ]
        ]
      ]
]

append-IsValid :
    (t : Token) (rows : Rows)
    → count (conflicts t) rows ≡ 0
    → IsValid rows
    → IsValid (rows ++ to_row t ∷ [])
append-IsValid t rows fresh v = record {
  ids = λ i. ground (
    arith,
    count-snoc (has_id i) rows (to_row t),
    v.ids i,
    eq_iff t.id i,
    count_mono (has_id t.id) (conflicts t) (λ r m. ground arith) rows,
  );
  codes = λ c. ground (
    arith,
    count-snoc (has_code c) rows (to_row t),
    v.codes c,
    eq_iff t.code c,
    count_mono (has_code t.code) (conflicts t) (λ r m. ground arith) rows,
  );
}

claimed-IsValid :
    (c agent : String) (now : ℕ) (rows : Rows)
    → IsValid rows
    → IsValid (update (claimable c) (set_claimed agent now) rows)
claimed-IsValid c agent now rows v = record {
  ids = λ i. omega (
    arith,
    count-update_same (has_id i) (claimable c) (set_claimed agent now) (λ r m. refl) rows,
    v.ids i,
  );
  codes = λ d. omega (
    arith,
    count-update_same (has_code d) (claimable c) (set_claimed agent now) (λ r m. refl) rows,
    v.codes d,
  );
}

removed-IsValid : (p : Token → Bool) (rows : Rows) → IsValid rows → IsValid (remove p rows)
removed-IsValid p rows v = record {
  ids = λ i. omega (arith, count-remove-le (has_id i) p rows, v.ids i);
  codes = λ c. omega (arith, count-remove-le (has_code c) p rows, v.codes c);
}

pub step-IsValid : (rows : Rows) (c : Call) → IsValid rows → IsValid (step rows c)
unfolding step claim cleanup_expired
step-IsValid rows (generates order env bytes user params) v =
    elim (generate-cases order env bytes user params rows) [
      | inl same ↦ rw same v
      | inr (t, i, e) ↦ rw e (append-IsValid t rows i.fresh v)
    ]
step-IsValid rows (claims env c agent) v =
    ground (arith, claimed-IsValid c agent (env.now 0) rows v)
step-IsValid rows (cleans env) v = ground (arith, removed-IsValid (lapsed (env.now 0)) rows v)

-- After any calls an identifier and a code stand in one row at most.
pub run_tokens-IsValid :
    (rows : Rows) (cs : List Call) → IsValid rows → IsValid (run_tokens rows cs)
unfolding run_tokens
run_tokens-IsValid rows [] v = v
run_tokens-IsValid rows (c ∷ cs) v = run_tokens-IsValid (step rows c) cs (step-IsValid rows c v)
