-- ===== src/UserAuth/Passwords.antt =====
-- Who gets tokens of internal/userauth by a password.
use peerclaw_server.Prelude.{
  ◌≡◌, refl, inl, inr, String, Option, some, Bool, true, not, ◌&&◌, ◌==◌, if◌then◌else◌, Result,
  OnOk, at_ok, if_cases, StoreError, ok, err, arith, eq_iff, Option-cases,
}
use peerclaw_server.Prelude.Table.{find?}
use peerclaw_server.UserAuth.Store.Users
use peerclaw_server.UserAuth.Store.Users.{User, Rows, has_id, has_email, set_user, to_row}
use peerclaw_server.UserAuth.Store.Sessions
use peerclaw_server.UserAuth.Outside.{Config, Call, Accounts, Error}
use peerclaw_server.UserAuth.Tokens.{TokenPair, generate_token_pair, ignore_error}
use peerclaw_server.UserAuth.Accounts.{signed_in, enter, promoted, check_login, login}

-- What a login that returns tokens shows: the row of the address, its password, that the address is
-- verified, and the role.
pub record IsAdmitted (cfg : Config) (email password : String) (users : Rows) (u : User)
    : Type 0 where
  pub row : User
  pub found : find? (has_email (cfg.normal email)) users ≡ some row
  pub knows : cfg.compare row.password_hash password ≡ true
  pub address : row.email_verified ≡ true
  pub same : u.id ≡ row.id
  pub role : u.role ≡ (if cfg.admin_emails row.email then "admin" else row.role)

signed_in-OnOk :
    (P : User → Type 0) (u : User) (st : Accounts) (r : Sessions.Rows × Result Error TokenPair)
    → P u
    → OnOk (λ q. P q.0) (signed_in u st r).1
unfolding signed_in
signed_in-OnOk P u st (rows, ok pair) h = h
signed_in-OnOk P u st (rows, err x) h = tt

-- A result that returns a user only where the row of the address admits it.
abbrev Admits :
    Config → String → String → Rows → Accounts × Result Error (User × Option TokenPair) → Type 0
Admits cfg email password users x = OnOk (λ q. IsAdmitted cfg email password users q.0) x.1

enter-OnOk :
    (cfg : Config) (c : Call) (email password ip agent : String) (st : Accounts) (r : User)
    → find? (has_email (cfg.normal email)) st.users ≡ some r
    → cfg.compare r.password_hash password ≡ true
    → r.email_verified ≡ true
    → Admits cfg email password st.users (enter cfg c r ip agent st)
unfolding enter promoted
enter-OnOk cfg c email password ip agent st r e k v =
    if_cases (Admits cfg email password st.users)
      (cfg.admin_emails r.email && not (r.role == "admin"))
      (λ admin.
        signed_in-OnOk (IsAdmitted cfg email password st.users) (promoted c r)
          (record st {
            users = ignore_error st.users (Users.update_user (c.up 1) (promoted c r) st.users);
          })
          (generate_token_pair cfg c 2 1 (promoted c r) ip agent st.sessions)
          (record {
            row = r;
            found = e;
            knows = k;
            address = v;
            same = refl;
            role = ground (arith, admin);
          }))
      (λ other.
        signed_in-OnOk (IsAdmitted cfg email password st.users) r st
          (generate_token_pair cfg c 1 0 r ip agent st.sessions)
          (record {
            row = r;
            found = e;
            knows = k;
            address = v;
            same = refl;
            role = ground (arith, other, eq_iff r.role "admin");
          }))

check_login-OnOk :
    (cfg : Config) (c : Call) (email password ip agent : String) (st : Accounts)
    (r : Result StoreError User)
    → ((u : User) → r ≡ ok u → find? (has_email (cfg.normal email)) st.users ≡ some u)
    → Admits cfg email password st.users (check_login cfg c r password ip agent st)
unfolding check_login
check_login-OnOk cfg c email password ip agent st (err x) f = tt
check_login-OnOk cfg c email password ip agent st (ok u) f =
    if_cases (Admits cfg email password st.users) (not (cfg.compare u.password_hash password))
      (λ wrong. tt)
      (λ right.
        if_cases (Admits cfg email password st.users) (not u.email_verified) (λ unverified. tt)
          (λ v.
            enter-OnOk cfg c email password ip agent st u (f u refl) (ground arith) (ground arith)))

get_by_email-find? :
    (up : Bool) (email : String) (users : Rows) (u : User)
    → Users.get_by_email up email users ≡ ok u
    → find? (has_email email) users ≡ some u
unfolding Users.get_by_email Users.or_not_found
get_by_email-find? up email users u e = elim (Option-cases (find? (has_email email) users)) [
  | inl n ↦ ground arith
  | inr (r, f) ↦ ground arith
]

-- Login returns tokens only for a user whose row has the address, the password and a verified address;
-- its role is then admin where the address is one of the administrators', else the row's.
pub login-IsAdmitted :
    (cfg : Config) (c : Call) (email password ip agent : String) (st : Accounts) (u : User)
    (p : Option TokenPair)
    → (login cfg c email password ip agent st).1 ≡ ok (u, p)
    → IsAdmitted cfg email password st.users u
unfolding login
login-IsAdmitted cfg c email password ip agent st u p e =
    at_ok (λ q. IsAdmitted cfg email password st.users q.0)
      (login cfg c email password ip agent st).1 (u, p)
      (check_login-OnOk cfg c email password ip agent st
        (Users.get_by_email (c.up 0) (cfg.normal email) st.users)
        (get_by_email-find? (c.up 0) (cfg.normal email) st.users))
      e
