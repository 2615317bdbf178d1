-- ===== src/ClaimToken/Limit.antt =====
-- A user of internal/claimtoken has three live tokens at most, when the calls run one after another.
use peerclaw_server.Prelude.{
  ℕ, ◌≤◌, ◌≡◌, refl, inl, inr, String, List, [], ◌∷◌, ◌++◌, Bool, ◌&&◌, arith, eq_iff, All,
}
use peerclaw_server.Prelude.Table.{
  count, count-snoc, count-remove-le, count-update-le, count_mono, select,
}
use peerclaw_server.ClaimToken.Store.{Token, Rows, to_row, is_of, claimable, set_claimed, lapsed}
use peerclaw_server.ClaimToken.Service.{is_live, claim, cleanup_expired}
use peerclaw_server.ClaimToken.Invariant.{
  Call, generates, claims, cleans, step, run_tokens, Inserted, generate-cases,
}

-- The user's tokens that are pending and not expired at a time.
abbrev pub live : String → ℕ → Token → Bool
live user now t = is_of user t && is_live now t

-- No user has more than three from a time on.
abbrev pub IsBounded : ℕ → Rows → Type 0
IsBounded now rows = (user : String) (t : ℕ) → now ≤ t → count (live user t) rows ≤ 3

-- The reading of the clock that a call makes.
abbrev pub clock : Call → ℕ
clock (generates order env bytes user params) = env.now 0
clock (claims env code agent) = env.now 0
clock (cleans env) = env.now 0

-- ORDER BY keeps the rows: it changes no count.
abbrev pub Ordering : Call → Type 0
Ordering (generates order env bytes user params) =
    (p : Token → Bool) (rows : Rows) → count p (order rows) ≡ count p rows
Ordering (claims env code agent) = Unit
Ordering (cleans env) = Unit

-- The clock does not run backwards from a call to the next.
abbrev pub IsTimed : ℕ → List Call → Type 0
IsTimed now [] = Unit
IsTimed now (c ∷ cs) = (now ≤ clock c) × IsTimed (clock c) cs

abbrev pub last : ℕ → List Call → ℕ
last now [] = now
last now (c ∷ cs) = last (clock c) cs

count-select :
    (p q : Token → Bool) (rows : Rows) → count p (select q rows) ≡ count (λ t. q t && p t) rows
unfolding count select
count-select p q [] = refl
count-select p q (t ∷ rows) = ground (arith, count-select p q rows)

append-IsBounded :
    (order : Rows → Rows) (before now : ℕ) (user : String) (rows : Rows) (t : Token)
    → ((p : Token → Bool) (rs : Rows) → count p (order rs) ≡ count p rs)
    → Inserted order now user rows t
    → before ≤ now
    → IsBounded before rows
    → IsBounded now (rows ++ to_row t ∷ [])
append-IsBounded order before now user rows t perm i le h u at later = ground (
  arith,
  h u at,
  eq_iff t.user_id u,
  i.holder,
  i.limit,
  eq_iff user u,
  count-snoc (live u at) rows (to_row t),
  count_mono (live user at) (live user now) (λ r m. ground arith) rows,
  perm (is_live now) (select (is_of user) rows),
  count-select (is_live now) (is_of user) rows,
)

step-IsBounded :
    (before : ℕ) (rows : Rows) (c : Call)
    → Ordering c
    → before ≤ clock c
    → IsBounded before rows
    → IsBounded (clock c) (step rows c)
unfolding step claim cleanup_expired
step-IsBounded before rows (generates order env bytes user params) perm le h =
    elim (generate-cases order env bytes user params rows) [
      | inl same ↦ rw same (λ u at later. h u at (omega arith))
      | inr (t, i, e) ↦ rw e (append-IsBounded order before (env.now 0) user rows t perm i le h)
    ]
step-IsBounded before rows (claims env code agent) perm le h = λ u at later. ground (
  arith,
  h u at,
  count-update-le (live u at) (claimable code) (set_claimed agent (env.now 0))
      (λ r g m. ground arith) rows,
)
step-IsBounded before rows (cleans env) perm le h =
    λ u at later. ground (arith, h u at, count-remove-le (live u at) (lapsed (env.now 0)) rows)

-- From a table in which no user has more than three live tokens, none has more after any calls, at the
-- time of the last call and later. The clock is taken not to run backwards and ORDER BY to keep the
-- rows.
pub run_tokens-IsBounded :
    (now : ℕ) (rows : Rows) (cs : List Call)
    → All Ordering cs
    → IsTimed now cs
    → IsBounded now rows
    → IsBounded (last now cs) (run_tokens rows cs)
unfolding run_tokens
run_tokens-IsBounded now rows [] o w h = h
run_tokens-IsBounded now rows (c ∷ cs) o w h =
    run_tokens-IsBounded (clock c) (step rows c) cs o.1 w.1 (step-IsBounded now rows c o.0 w.0 h)
