-- ===== src/UserAuth/Accounts.antt =====
-- Register, Login, UpdateProfile, ChangePassword and UpdateRole of internal/userauth/service.go. A call
-- returns the state that it leaves and its result.
use peerclaw_server.Prelude.{
  ℕ, String, Option, none, some, Bool, true, false, not, ◌&&◌, ◌||◌, ◌==◌, ltb, if◌then◌else◌,
  Result, ok, err, StoreError,
}
use peerclaw_server.UserAuth.Store.Users
use peerclaw_server.UserAuth.Store.Users.{User}
use peerclaw_server.UserAuth.Store.Sessions
use peerclaw_server.UserAuth.Tokens.{TokenPair, generate_token_pair, ignore_error}
use peerclaw_server.UserAuth.Codes.{send_otp}
use peerclaw_server.UserAuth.Outside.{
  Config, Call, Accounts, Error, invalid_email, password_too_short, email_registered, hash_failed,
  invalid_credentials, email_not_verified, user_not_found, wrong_password, invalid_role,
  store_failed,
}

pub record RegisterRequest : Type 0 where
  pub email : String
  pub password : String
  pub display_name : String

-- `existing, _ := s.store.GetUserByEmail(…); existing != nil`
abbrev pub is_found : Result StoreError User → Bool
is_found (ok u) = true
is_found (err e) = false

-- The state with other sessions, and the user with the new tokens.
unfoldable pub signed_in :
    User
    → Accounts
    → Sessions.Rows × Result Error TokenPair
    → Accounts × Result Error (User × Option TokenPair)
signed_in u st (rows, ok pair) = (record st { sessions = rows }, ok (u, some pair))
signed_in u st (rows, err e) = (record st { sessions = rows }, err e)

unfoldable pub registered :
    Config
    → Call
    → User
    → Accounts
    → Result StoreError Users.Rows
    → Accounts × Result Error (User × Option TokenPair)
unfolding signed_in generate_token_pair send_otp
registered cfg c u st (err e) = (st, err (store_failed e))
registered cfg c u st (ok users) =
    if cfg.has_sender
    then (
      record st { users = users; codes = (send_otp cfg c 2 u.email "register" st.codes).0 },
      ok (u, none),
    )
    else signed_in u (record st { users = users })
        (generate_token_pair cfg c 2 1 u "" "" st.sessions)

unfoldable pub new_user : Config → Call → String → String → String → User
new_user cfg c email name hash = record {
  id = c.uuid 0;
  email = email;
  password_hash = hash;
  display_name = if name == "" then cfg.local_part email else name;
  description = "";
  role = if cfg.admin_emails email then "admin" else "user";
  email_verified = not cfg.has_sender;
  created_at = c.now 0;
  updated_at = c.now 0;
}

unfoldable pub create_account :
    Config
    → Call
    → String
    → String
    → Option String
    → Accounts
    → Accounts × Result Error (User × Option TokenPair)
unfolding new_user registered Users.create
create_account cfg c email name none st = (st, err hash_failed)
create_account cfg c email name (some hash) st =
    registered cfg c (new_user cfg c email name hash) st
      (Users.create (c.up 1) (new_user cfg c email name hash) st.users)

unfoldable pub register :
    Config → Call → RegisterRequest → Accounts → Accounts × Result Error (User × Option TokenPair)
unfolding create_account Users.get_by_email
register cfg c req st =
    if cfg.normal req.email == "" || not (cfg.has_at (cfg.normal req.email))
    then (st, err invalid_email)
    else if ltb (cfg.bytes req.password) 8
    then (st, err password_too_short)
    else if is_found (Users.get_by_email (c.up 0) (cfg.normal req.email) st.users)
    then (st, err email_registered)
    else create_account cfg c (cfg.normal req.email) (cfg.trim req.display_name)
        (c.bcrypt req.password) st

unfoldable pub promoted : Call → User → User
promoted c u = record u { role = "admin"; updated_at = c.now 0 }

-- Login of a user whose password and address are verified.
unfoldable pub enter :
    Config
    → Call
    → User
    → String
    → String
    → Accounts
    → Accounts × Result Error (User × Option TokenPair)
unfolding promoted signed_in generate_token_pair Users.update_user
enter cfg c u ip agent st =
    if cfg.admin_emails u.email && not (u.role == "admin")
    then signed_in (promoted c u)
        (record st {
          users = ignore_error st.users (Users.update_user (c.up 1) (promoted c u) st.users);
        })
        (generate_token_pair cfg c 2 1 (promoted c u) ip agent st.sessions)
    else signed_in u st (generate_token_pair cfg c 1 0 u ip agent st.sessions)

unfoldable pub check_login :
    Config
    → Call
    → Result StoreError User
    → String
    → String
    → String
    → Accounts
    → Accounts × Result Error (User × Option TokenPair)
unfolding enter
check_login cfg c (err e) password ip agent st = (st, err invalid_credentials)
check_login cfg c (ok u) password ip agent st =
    if not (cfg.compare u.password_hash password)
    then (st, err invalid_credentials)
    else if not u.email_verified
    then (st, err email_not_verified)
    else enter cfg c u ip agent st

unfoldable pub login :
    Config
    → Call
    → String
    → String
    → String
    → String
    → Accounts
    → Accounts × Result Error (User × Option TokenPair)
unfolding check_login Users.get_by_email
login cfg c email password ip agent st =
    check_login cfg c (Users.get_by_email (c.up 0) (cfg.normal email) st.users) password ip agent st

unfoldable pub get_user : Call → String → Accounts → Result StoreError User
unfolding Users.get_by_id
get_user c i st = Users.get_by_id (c.up 0) i st.users

-- UpdateUser of a changed user, and what the caller then returns.
unfoldable pub saved : User → Accounts → Result StoreError Users.Rows → Accounts × Result Error User
saved u st (ok users) = (record st { users = users }, ok u)
saved u st (err e) = (st, err (store_failed e))

pub record UpdateProfileRequest : Type 0 where
  pub display_name : Option String
  pub email : Option String
  pub description : Option String

abbrev pub or_else : String → Option String → String
or_else s none = s
or_else s (some t) = t

unfoldable pub named : Config → Option String → User → User
named cfg none u = u
named cfg (some s) u = if not (cfg.trim s == "") then record u { display_name = cfg.trim s } else u

unfoldable pub save_profile :
    Call → ℕ → Option String → User → Accounts → Accounts × Result Error User
unfolding saved Users.update_user
save_profile c k description u st = saved changed st (Users.update_user (c.up k) changed st.users)
  where
    changed : User
    changed = record u { description = or_else u.description description; updated_at = c.now 0 }

unfoldable pub with_email :
    Config → Call → Option String → Option String → User → Accounts → Accounts × Result Error User
unfolding save_profile Users.get_by_email
with_email cfg c none description u st = save_profile c 1 description u st
with_email cfg c (some s) description u st =
    if cfg.normal s == "" || not (cfg.has_at (cfg.normal s))
    then (st, err invalid_email)
    else if cfg.normal s == u.email
    then save_profile c 1 description u st
    else if is_found (Users.get_by_email (c.up 1) (cfg.normal s) st.users)
    then (st, err email_registered)
    else save_profile c 2 description (record u { email = cfg.normal s }) st

unfoldable pub change_profile :
    Config
    → Call
    → UpdateProfileRequest
    → Result StoreError User
    → Accounts
    → Accounts × Result Error User
unfolding with_email named
change_profile cfg c req (err e) st = (st, err user_not_found)
change_profile cfg c req (ok u) st =
    with_email cfg c req.email req.description (named cfg req.display_name u) st

unfoldable pub update_profile :
    Config → Call → String → UpdateProfileRequest → Accounts → Accounts × Result Error User
unfolding change_profile Users.get_by_id
update_profile cfg c i req st = change_profile cfg c req (Users.get_by_id (c.up 0) i st.users) st

-- Stores a new hash of the password; `k` statements came before.
unfoldable pub set_password :
    Call → ℕ → User → Option String → Accounts → Accounts × Result Error User
unfolding saved Users.update_user
set_password c k u none st = (st, err hash_failed)
set_password c k u (some hash) st = saved changed st (Users.update_user (c.up k) changed st.users)
  where
    changed : User
    changed = record u { password_hash = hash; updated_at = c.now 2 }

unfoldable pub check_password :
    Config
    → Call
    → String
    → String
    → Result StoreError User
    → Accounts
    → Accounts × Result Error User
unfolding set_password
check_password cfg c current password (err e) st = (st, err user_not_found)
check_password cfg c current password (ok u) st =
    if not (cfg.compare u.password_hash current)
    then (st, err wrong_password)
    else if ltb (cfg.bytes password) 8
    then (st, err password_too_short)
    else set_password c 1 u (c.bcrypt password) st

-- On success the code returns no user; it is kept here for the theorems.
unfoldable pub change_password :
    Config → Call → String → String → String → Accounts → Accounts × Result Error User
unfolding check_password Users.get_by_id
change_password cfg c i current password st =
    check_password cfg c current password (Users.get_by_id (c.up 0) i st.users) st

unfoldable pub set_role :
    Call → String → Result StoreError User → Accounts → Accounts × Result Error User
unfolding saved Users.update_user
set_role c role (err e) st = (st, err user_not_found)
set_role c role (ok u) st = saved changed st (Users.update_user (c.up 1) changed st.users)
  where
    changed : User
    changed = record u { role = role; updated_at = c.now 0 }

unfoldable pub update_role : Call → String → String → Accounts → Accounts × Result Error User
unfolding set_role Users.get_by_id
update_role c i role st =
    if role == "user" || role == "provider" || role == "admin"
    then set_role c role (Users.get_by_id (c.up 0) i st.users) st
    else (st, err invalid_role)

unfoldable pub removed :
    Accounts → Result StoreError Users.Rows → Accounts × Result Error (Unit {0})
removed st (ok users) = (record st { users = users }, ok tt)
removed st (err e) = (st, err (store_failed e))

unfoldable pub delete_user : Call → String → Accounts → Accounts × Result Error (Unit {0})
unfolding removed Users.delete
delete_user c i st = removed st (Users.delete (c.up 0) i st.users)

unfoldable pub count_users : Call → Accounts → Result StoreError ℕ
unfolding Users.count_users
count_users c st = Users.count_users (c.up 0) st.users
