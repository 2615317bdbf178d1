-- ===== src/UserAuth/Keys.antt =====
-- The API keys of internal/userauth/service.go, on the tables user_api_keys and users. A call returns
-- the keys that it leaves and its result.
use peerclaw_server.Prelude.{
  ℕ, zero, suc, String, Option, none, some, Bool, false, ◌==◌, ltb, if◌then◌else◌, Result, ok, err,
  StoreError,
}
use peerclaw_server.UserAuth.Store.Users
use peerclaw_server.UserAuth.Store.Users.{User}
use peerclaw_server.UserAuth.Store.ApiKeys
use peerclaw_server.UserAuth.Store.ApiKeys.{UserApiKey}
use peerclaw_server.UserAuth.Tokens.{ignore_error}
use peerclaw_server.UserAuth.Outside.{
  Config, Call, Error, name_required, no_randomness, store_failed, invalid_key, key_revoked,
  key_expired,
}

-- `"pck_" + s`
abbrev pub key_text : String → String
key_text s = String.◌∷◌ "p" (String.◌∷◌ "c" (String.◌∷◌ "k" (String.◌∷◌ "_" s)))

-- `s[:n]`
unfoldable pub text_take : ℕ → String → String
text_take zero s = String.[]
text_take (suc n) String.[] = String.[]
text_take (suc n) (String.◌∷◌ c s) = String.◌∷◌ c (text_take n s)

unfoldable pub new_key : Config → Call → String → String → String → UserApiKey
unfolding text_take
new_key cfg c user name key = record {
  id = c.uuid 0;
  user_id = user;
  name = name;
  key_hash = cfg.hash_token key;
  prefix = text_take 12 key;
  created_at = c.now 0;
  last_used = none;
  expires_at = none;
  revoked = false;
}

unfoldable pub created :
    UserApiKey
    → String
    → ApiKeys.Rows
    → Result StoreError ApiKeys.Rows
    → ApiKeys.Rows × Result Error (UserApiKey × String)
created k key rows (ok rows') = (rows', ok (k, key))
created k key rows (err e) = (rows, err (store_failed e))

unfoldable pub make_key :
    Config
    → Call
    → String
    → String
    → Option String
    → ApiKeys.Rows
    → ApiKeys.Rows × Result Error (UserApiKey × String)
unfolding created new_key ApiKeys.create
make_key cfg c user name none rows = (rows, err no_randomness)
make_key cfg c user name (some s) rows =
    created (new_key cfg c user name (key_text s)) (key_text s) rows
      (ApiKeys.create (c.up 0) (new_key cfg c user name (key_text s)) rows)

unfoldable pub generate_api_key :
    Config
    → Call
    → String
    → String
    → ApiKeys.Rows
    → ApiKeys.Rows × Result Error (UserApiKey × String)
unfolding make_key
generate_api_key cfg c user name rows =
    if name == "" then (rows, err name_required) else make_key cfg c user name c.random rows

unfoldable pub list_api_keys :
    (ApiKeys.Rows → ApiKeys.Rows) → Call → String → ApiKeys.Rows → Result StoreError ApiKeys.Rows
unfolding ApiKeys.list
list_api_keys order c user rows = ApiKeys.list order (c.up 0) user rows

unfoldable pub revoked :
    ApiKeys.Rows → Result StoreError ApiKeys.Rows → ApiKeys.Rows × Result Error (Unit {0})
revoked rows (ok rows') = (rows', ok tt)
revoked rows (err e) = (rows, err (store_failed e))

unfoldable pub revoke_api_key :
    Call → String → String → ApiKeys.Rows → ApiKeys.Rows × Result Error (Unit {0})
unfolding revoked ApiKeys.revoke
revoke_api_key c i user rows = revoked rows (ApiKeys.revoke (c.up 0) i user rows)

-- `k.ExpiresAt != nil && time.Now().After(*k.ExpiresAt)`
abbrev pub is_expired : ℕ → Option ℕ → Bool
is_expired now none = false
is_expired now (some e) = ltb e now

unfoldable pub owner : Result StoreError User → Result Error User
owner (ok u) = ok u
owner (err e) = err (store_failed e)

unfoldable pub check_key :
    Call
    → Users.Rows
    → Result StoreError UserApiKey
    → ApiKeys.Rows
    → ApiKeys.Rows × Result Error User
unfolding owner ApiKeys.update_last_used Users.get_by_id
check_key c users (err e) rows = (rows, err invalid_key)
check_key c users (ok k) rows =
    if k.revoked
    then (rows, err key_revoked)
    else if is_expired (c.now 0) k.expires_at
    then (rows, err key_expired)
    else (
      ignore_error rows (ApiKeys.update_last_used (c.up 1) (c.now 1) k.id rows),
      owner (Users.get_by_id (c.up 2) k.user_id users),
    )

unfoldable pub validate_api_key :
    Config → Call → String → Users.Rows → ApiKeys.Rows → ApiKeys.Rows × Result Error User
unfolding check_key ApiKeys.get_by_hash
validate_api_key cfg c key users rows =
    check_key c users (ApiKeys.get_by_hash (c.up 0) (cfg.hash_token key) rows) rows
