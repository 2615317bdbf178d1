-- ===== src/UserAuth/Rotation.antt =====
-- A refresh token of internal/userauth is good for one RefreshToken.
use peerclaw_server.Prelude.{
  ℕ, ◌≤◌, ◌≡◌, inl, inr, String, none, some, List, [], ◌∷◌, Bool, true, false, ◌==◌, ltb, Result,
  StoreError, ok, err, arith, All, Bool-cases, Option-cases, Result-cases, eq_refl,
}
use peerclaw_server.Prelude.Table.{
  count, find?, remove, find?-snoc, find?-remove-none, find?-remove_hit,
}
use peerclaw_server.UserAuth.Store.Users
use peerclaw_server.UserAuth.Store.Users.{User}
use peerclaw_server.UserAuth.Store.Sessions
use peerclaw_server.UserAuth.Store.Sessions.{Session, Rows, has_id, has_token, to_row}
use peerclaw_server.UserAuth.Outside.{Config, Call, invalid_refresh_token}
use peerclaw_server.UserAuth.Tokens.{
  TokenPair, generate_token_pair, new_session, refresh_token, check_session, rotate, ignore_error,
  logout, end_session,
}

-- The refresh token that a call may issue has another hash.
abbrev pub IssuesOther : Config → String → Call → Type 0
IssuesOther cfg h c = (t : String) → c.random ≡ some t → (cfg.hash_token t == h) ≡ false

generate_token_pair-absent :
    (cfg : Config) (h : String) (c : Call) (k n : ℕ) (u : User) (ip agent : String) (rows : Rows)
    → IssuesOther cfg h c
    → find? (has_token h) rows ≡ none
    → find? (has_token h) (generate_token_pair cfg c k n u ip agent rows).0 ≡ none
unfolding generate_token_pair new_session
generate_token_pair-absent cfg h c k n u ip agent rows other e =
    elim (Option-cases (c.access_token u.id u.role)) [
      | inl a ↦ ground arith
      | inr (a, ea) ↦ elim (Option-cases c.random) [
        | inl r ↦ ground arith
        | inr (t, et) ↦ ground (
          arith,
          other t,
          find?-snoc (has_token h) rows (to_row (new_session cfg c n u ip agent t)) e,
        )
      ]
    ]

delete-absent :
    (h i : String) (up : Bool) (rows : Rows)
    → find? (has_token h) rows ≡ none
    → find? (has_token h) (ignore_error rows (Sessions.delete up i rows)) ≡ none
unfolding Sessions.delete
delete-absent h i up rows e = ground (arith, find?-remove-none (has_token h) (has_id i) rows)

rotate-absent :
    (cfg : Config) (h : String) (c : Call) (s : Session) (r : Result StoreError User) (rows : Rows)
    → IssuesOther cfg h c
    → find? (has_token h) rows ≡ none
    → find? (has_token h) (rotate cfg c s r rows).0 ≡ none
unfolding rotate
rotate-absent cfg h c s (err x) rows other e = e
rotate-absent cfg h c s (ok u) rows other e =
    generate_token_pair-absent cfg h c 3 1 u s.ip_address s.user_agent
      (ignore_error rows (Sessions.delete (c.up 2) s.id rows)) other
      (delete-absent h s.id (c.up 2) rows e)

check_session-absent :
    (cfg : Config) (h : String) (c : Call) (users : Users.Rows) (r : Result StoreError Session)
    (rows : Rows)
    → IssuesOther cfg h c
    → find? (has_token h) rows ≡ none
    → find? (has_token h) (check_session cfg c users r rows).0 ≡ none
unfolding check_session
check_session-absent cfg h c users (err x) rows other e = e
check_session-absent cfg h c users (ok s) rows other e =
    elim (Bool-cases (ltb s.expires_at (c.now 0))) [
      | inl late ↦ ground (arith, delete-absent h s.id (c.up 1) rows)
      | inr live ↦
          rw live (rotate-absent cfg h c s (Users.get_by_id (c.up 1) s.user_id users) rows other e)
    ]

end_session-absent :
    (h : String) (c : Call) (r : Result StoreError Session) (rows : Rows)
    → find? (has_token h) rows ≡ none
    → find? (has_token h) (end_session c r rows).0 ≡ none
unfolding end_session Sessions.delete
end_session-absent h c (err x) rows e = e
end_session-absent h c (ok s) rows e =
    ground (arith, find?-remove-none (has_token h) (has_id s.id) rows)

pub data SessionCall : Type 0 where
  enters : Call → ℕ → ℕ → User → String → String → SessionCall
  refreshes : Call → String → Users.Rows → SessionCall
  leaves : Call → String → SessionCall

unfoldable pub step_sessions : Config → Rows → SessionCall → Rows
unfolding generate_token_pair refresh_token logout
step_sessions cfg rows (enters c k n u ip agent) = (generate_token_pair cfg c k n u ip agent rows).0
step_sessions cfg rows (refreshes c token users) = (refresh_token cfg c token users rows).0
step_sessions cfg rows (leaves c token) = (logout cfg c token rows).0

unfoldable pub run_sessions : Config → Rows → List SessionCall → Rows
unfolding step_sessions
run_sessions cfg rows [] = rows
run_sessions cfg rows (c ∷ cs) = run_sessions cfg (step_sessions cfg rows c) cs

abbrev pub StepIssuesOther : Config → String → SessionCall → Type 0
StepIssuesOther cfg h (enters c k n u ip agent) = IssuesOther cfg h c
StepIssuesOther cfg h (refreshes c token users) = IssuesOther cfg h c
StepIssuesOther cfg h (leaves c token) = Unit

step_sessions-absent :
    (cfg : Config) (h : String) (rows : Rows) (c : SessionCall)
    → StepIssuesOther cfg h c
    → find? (has_token h) rows ≡ none
    → find? (has_token h) (step_sessions cfg rows c) ≡ none
unfolding step_sessions refresh_token logout
step_sessions-absent cfg h rows (enters c k n u ip agent) other e =
    generate_token_pair-absent cfg h c k n u ip agent rows other e
step_sessions-absent cfg h rows (refreshes c token users) other e =
    check_session-absent cfg h c users (Sessions.get_by_token (c.up 0) (cfg.hash_token token) rows)
      rows other e
step_sessions-absent cfg h rows (leaves c token) other e =
    end_session-absent h c (Sessions.get_by_token (c.up 0) (cfg.hash_token token) rows) rows e

run_sessions-absent :
    (cfg : Config) (h : String) (rows : Rows) (cs : List SessionCall)
    → All (StepIssuesOther cfg h) cs
    → find? (has_token h) rows ≡ none
    → find? (has_token h) (run_sessions cfg rows cs) ≡ none
unfolding run_sessions
run_sessions-absent cfg h rows [] other e = e
run_sessions-absent cfg h rows (c ∷ cs) other e =
    run_sessions-absent cfg h (step_sessions cfg rows c) cs other.1
      (step_sessions-absent cfg h rows c other.0 e)

-- A successful RefreshToken whose deletion the driver runs leaves no session of the token.
refresh_token-absent :
    (cfg : Config) (c : Call) (token : String) (users : Users.Rows) (rows : Rows) (pair : TokenPair)
    → count (has_token (cfg.hash_token token)) rows ≤ 1
    → IssuesOther cfg (cfg.hash_token token) c
    → c.up 2 ≡ true
    → (refresh_token cfg c token users rows).1 ≡ ok pair
    → find? (has_token (cfg.hash_token token)) (refresh_token cfg c token users rows).0 ≡ none
unfolding refresh_token check_session rotate Sessions.get_by_token Sessions.delete
    Sessions.or_not_found
refresh_token-absent cfg c token users rows pair one other deletes e =
    elim (Option-cases (find? (has_token (cfg.hash_token token)) rows)) [
      | inl n ↦ absurd (ground arith)
      | inr (s, es) ↦ elim (Result-cases (Users.get_by_id (c.up 1) s.user_id users)) [
        | inr (x, ex) ↦ absurd (ground arith)
        | inl (u, eu) ↦ ground (
          arith,
          generate_token_pair-absent cfg (cfg.hash_token token) c 3 1 u s.ip_address s.user_agent
              (remove (has_id s.id) rows) other
              (find?-remove_hit (has_token (cfg.hash_token token)) (has_id s.id) rows s one es
                (eq_refl s.id)),
        )
      ]
    ]

-- After a RefreshToken that returned new tokens, and any later logins, refreshes and logouts, the same
-- refresh token is refused and changes nothing. The token had one session, the driver ran the deletion,
-- and the tokens issued since have other hashes.
pub refresh-once :
    (cfg : Config) (c : Call) (token : String) (users : Users.Rows) (rows : Rows) (pair : TokenPair)
    (cs : List SessionCall) (c' : Call) (users' : Users.Rows)
    → count (has_token (cfg.hash_token token)) rows ≤ 1
    → IssuesOther cfg (cfg.hash_token token) c
    → c.up 2 ≡ true
    → (refresh_token cfg c token users rows).1 ≡ ok pair
    → All (StepIssuesOther cfg (cfg.hash_token token)) cs
    → refresh_token cfg c' token users'
        (run_sessions cfg (refresh_token cfg c token users rows).0 cs)
      ≡ (run_sessions cfg (refresh_token cfg c token users rows).0 cs, err invalid_refresh_token)
unfolding refresh_token Sessions.get_by_token
refresh-once cfg c token users rows pair cs c' users' one other deletes e others = ground (
  arith,
  run_sessions-absent cfg (cfg.hash_token token) (refresh_token cfg c token users rows).0 cs others
      (refresh_token-absent cfg c token users rows pair one other deletes e),
)
