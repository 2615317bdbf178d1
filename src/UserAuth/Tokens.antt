-- ===== src/UserAuth/Tokens.antt =====
-- generateTokenPair, RefreshToken and Logout of internal/userauth/service.go with TokenPair of jwt.go, on
-- the tables users and sessions. A call returns the sessions that it leaves and its result.
use peerclaw_server.Prelude.{
  ℕ, suc, ◌+◌, ◌/◌, String, Option, none, some, ltb, if◌then◌else◌, Result, ok, err, StoreError,
  second,
}
use peerclaw_server.UserAuth.Store.Users
use peerclaw_server.UserAuth.Store.Users.{User}
use peerclaw_server.UserAuth.Store.Sessions
use peerclaw_server.UserAuth.Store.Sessions.{Session}
use peerclaw_server.UserAuth.Outside.{
  Config, Call, Error, no_access_token, no_randomness, store_failed, invalid_refresh_token,
  refresh_token_expired, user_not_found,
}

pub record TokenPair : Type 0 where
  pub access_token : String
  pub refresh_token : String
  pub expires_in : ℕ

-- The new session of a refresh token. `n` readings of the clock came before.
unfoldable pub new_session : Config → Call → ℕ → User → String → String → String → Session
new_session cfg c n user ip agent token = record {
  id = c.uuid n;
  user_id = user.id;
  refresh_token = cfg.hash_token token;
  ip_address = ip;
  user_agent = agent;
  expires_at = c.now n + cfg.refresh_ttl;
  created_at = c.now (suc n);
}

unfoldable pub stored :
    TokenPair
    → Sessions.Rows
    → Result StoreError Sessions.Rows
    → Sessions.Rows × Result Error TokenPair
stored pair rows (ok rows') = (rows', ok pair)
stored pair rows (err e) = (rows, err (store_failed e))

unfoldable pub issue :
    Config
    → Call
    → ℕ
    → ℕ
    → User
    → String
    → String
    → Option String
    → Option String
    → Sessions.Rows
    → Sessions.Rows × Result Error TokenPair
unfolding stored new_session Sessions.create
issue cfg c k n user ip agent none token rows = (rows, err no_access_token)
issue cfg c k n user ip agent (some access) none rows = (rows, err no_randomness)
issue cfg c k n user ip agent (some access) (some token) rows =
    stored
      (record {
        access_token = access;
        refresh_token = token;
        expires_in = cfg.access_ttl / second;
      })
      rows (Sessions.create (c.up k) (new_session cfg c n user ip agent token) rows)

-- `k` statements, and `n` UUIDs and readings of the clock of the same call, came before.
unfoldable pub generate_token_pair :
    Config
    → Call
    → ℕ
    → ℕ
    → User
    → String
    → String
    → Sessions.Rows
    → Sessions.Rows × Result Error TokenPair
unfolding issue
generate_token_pair cfg c k n user ip agent rows =
    issue cfg c k n user ip agent (c.access_token user.id user.role) c.random rows

-- `_ = s.store.DeleteSession(…)`: an error leaves the rows.
abbrev pub ignore_error {ℓ} : {A : Type ℓ} → A → Result StoreError A → A
ignore_error rows (ok rows') = rows'
ignore_error rows (err e) = rows

unfoldable pub rotate :
    Config
    → Call
    → Session
    → Result StoreError User
    → Sessions.Rows
    → Sessions.Rows × Result Error TokenPair
unfolding generate_token_pair Sessions.delete
rotate cfg c s (err e) rows = (rows, err user_not_found)
rotate cfg c s (ok user) rows =
    generate_token_pair cfg c 3 1 user s.ip_address s.user_agent
      (ignore_error rows (Sessions.delete (c.up 2) s.id rows))

unfoldable pub check_session :
    Config
    → Call
    → Users.Rows
    → Result StoreError Session
    → Sessions.Rows
    → Sessions.Rows × Result Error TokenPair
unfolding rotate Sessions.delete Users.get_by_id
check_session cfg c users (err e) rows = (rows, err invalid_refresh_token)
check_session cfg c users (ok s) rows =
    if ltb s.expires_at (c.now 0)
    then (ignore_error rows (Sessions.delete (c.up 1) s.id rows), err refresh_token_expired)
    else rotate cfg c s (Users.get_by_id (c.up 1) s.user_id users) rows

unfoldable pub refresh_token :
    Config → Call → String → Users.Rows → Sessions.Rows → Sessions.Rows × Result Error TokenPair
unfolding check_session Sessions.get_by_token
refresh_token cfg c token users rows =
    check_session cfg c users (Sessions.get_by_token (c.up 0) (cfg.hash_token token) rows) rows

unfoldable pub ended :
    Sessions.Rows → Result StoreError Sessions.Rows → Sessions.Rows × Result Error (Unit {0})
ended rows (ok rows') = (rows', ok tt)
ended rows (err e) = (rows, err (store_failed e))

unfoldable pub end_session :
    Call → Result StoreError Session → Sessions.Rows → Sessions.Rows × Result Error (Unit {0})
unfolding ended Sessions.delete
end_session c (err e) rows = (rows, ok tt)
end_session c (ok s) rows = ended rows (Sessions.delete (c.up 1) s.id rows)

unfoldable pub logout :
    Config → Call → String → Sessions.Rows → Sessions.Rows × Result Error (Unit {0})
unfolding end_session Sessions.get_by_token
logout cfg c token rows =
    end_session c (Sessions.get_by_token (c.up 0) (cfg.hash_token token) rows) rows
