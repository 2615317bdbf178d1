-- ===== src/UserAuth/Changes.antt =====
-- What ChangePassword and UpdateProfile of internal/userauth do to the next Login.
use peerclaw_server.Prelude.{
  ◌≤◌, ◌≡◌, refl, sym, subst, ◌∙◌, inl, inr, String, Option, none, some, Bool, true, not, ltb,
  if◌then◌else◌, Result, OnOk, at_ok, if_cases, StoreError, ok, err, arith, eq_iff, eq_refl,
  Option-cases, rfc3339,
}
use mathlib.Core.Option.{some-injective}
use peerclaw_server.Prelude.Table.{count, find?, find?-holds, find?-update_hit}
use peerclaw_server.UserAuth.Store.Users
use peerclaw_server.UserAuth.Store.Users.{User, Rows, has_id, has_email, set_user, to_row}
use peerclaw_server.UserAuth.Outside.{
  Config, Call, Accounts, Error, invalid_credentials, email_not_verified,
}
use peerclaw_server.UserAuth.Accounts.{
  enter, check_login, login, change_password, check_password, set_password, saved,
}

pub get_by_id-find? :
    (up : Bool) (i : String) (users : Rows) (u : User)
    → Users.get_by_id up i users ≡ ok u
    → find? (has_id i) users ≡ some u
unfolding Users.get_by_id Users.or_not_found
get_by_id-find? up i users u e = elim (Option-cases (find? (has_id i) users)) [
  | inl n ↦ ground arith
  | inr (r, f) ↦ ground arith
]

-- UpdateUser with a user that has the identifier and the address of a row: the address then finds the
-- new columns.
update_user-finds :
    (up : Bool) (users rows : Rows) (r u : User)
    → count (has_id u.id) users ≤ 1
    → count (has_email u.email) users ≤ 1
    → find? (has_id u.id) users ≡ some r
    → has_email u.email r ≡ true
    → Users.update_user up u users ≡ ok rows
    → find? (has_email u.email) rows ≡ some (set_user u r)
unfolding Users.update_user
update_user-finds up users rows r u one one' f e h = ground (
  arith,
  find?-update_hit (has_email u.email) (has_id u.id) (set_user u) users r one one' f e
      (eq_refl u.email),
)

-- A row that is found by an identifier is found by its own.
find?-own :
    (i : String) (users : Rows) (r : User)
    → find? (has_id i) users ≡ some r
    → find? (has_id r.id) users ≡ some r
find?-own i users r f =
    subst (λ j. find? (has_id j) users ≡ some r)
      (sym ((eq_iff r.id i).0 (find?-holds (has_id i) users r f))) f

-- What holds of the state and of the value, where the call returns one.
abbrev Ends {ℓ} : {A : Type ℓ} → (Accounts → Type 0) → Accounts × Result Error A → Type 0
Ends P x = OnOk (λ u. P x.0) x.1

saved-Ends :
    (P : Accounts → Type 0) (u : User) (st : Accounts) (r : Result StoreError Rows)
    → ((rows : Rows) → r ≡ ok rows → P (record st { users = rows }))
    → Ends P (saved u st r)
unfolding saved
saved-Ends P u st (ok rows) f = f rows refl
saved-Ends P u st (err e) f = tt

-- What a successful ChangePassword leaves.
pub record IsChanged (cfg : Config) (c : Call) (i password : String) (st st' : Accounts)
    : Type 0 where
  pub row : User
  pub hash : String
  pub found : find? (has_id i) st.users ≡ some row
  pub hashed : c.bcrypt password ≡ some hash
  pub sessions : st'.sessions ≡ st.sessions
  pub stored :
      find? (has_email row.email) st'.users
      ≡ some (record row { password_hash = hash; updated_at = rfc3339 (c.now 2) })

set_password-IsChanged :
    (cfg : Config) (c : Call) (i password : String) (st : Accounts) (r : User)
    (hash : Option String)
    → c.bcrypt password ≡ hash
    → ((j : String) → count (has_id j) st.users ≤ 1)
    → count (has_email r.email) st.users ≤ 1
    → find? (has_id i) st.users ≡ some r
    → Ends (IsChanged cfg c i password st) (set_password c 1 r hash st)
unfolding set_password
set_password-IsChanged cfg c i password st r none e one one' f = tt
set_password-IsChanged cfg c i password st r (some h) e one one' f =
    saved-Ends (IsChanged cfg c i password st) changed st
      (Users.update_user (c.up 1) changed st.users)
      (λ rows ok_rows. record {
        row = r;
        hash = h;
        found = f;
        hashed = e;
        sessions = refl;
        stored =
            update_user-finds (c.up 1) st.users rows r changed (one r.id) one'
              (find?-own i st.users r f) (eq_refl r.email) ok_rows;
      })
  where
    changed : User
    changed = record r { password_hash = h; updated_at = c.now 2 }

check_password-IsChanged :
    (cfg : Config) (c : Call) (i current password : String) (st : Accounts)
    (r : Result StoreError User)
    → ((j : String) → count (has_id j) st.users ≤ 1)
    → ((e : String) → count (has_email e) st.users ≤ 1)
    → ((u : User) → r ≡ ok u → find? (has_id i) st.users ≡ some u)
    → Ends (IsChanged cfg c i password st) (check_password cfg c current password r st)
unfolding check_password
check_password-IsChanged cfg c i current password st (err x) one one' f = tt
check_password-IsChanged cfg c i current password st (ok u) one one' f =
    if_cases (Ends (IsChanged cfg c i password st)) (not (cfg.compare u.password_hash current))
      (λ wrong. tt)
      (λ right.
        if_cases (Ends (IsChanged cfg c i password st)) (ltb (cfg.bytes password) 8) (λ short. tt)
          (λ long.
            set_password-IsChanged cfg c i password st u (c.bcrypt password) refl one (one' u.email)
              (f u refl)))

-- In a table whose identifiers and addresses are unique, a successful ChangePassword stores the hash that
-- bcrypt makes of the new password in the row that a Login with the user's address reads, and leaves
-- all sessions.
pub change_password-IsChanged :
    (cfg : Config) (c : Call) (i current password : String) (st : Accounts) (u : User)
    → ((j : String) → count (has_id j) st.users ≤ 1)
    → ((e : String) → count (has_email e) st.users ≤ 1)
    → (change_password cfg c i current password st).1 ≡ ok u
    → IsChanged cfg c i password st (change_password cfg c i current password st).0
unfolding change_password
change_password-IsChanged cfg c i current password st u one one' e =
    at_ok (λ v. IsChanged cfg c i password st (change_password cfg c i current password st).0)
      (change_password cfg c i current password st).1 u
      (check_password-IsChanged cfg c i current password st (Users.get_by_id (c.up 0) i st.users)
        one one' (get_by_id-find? (c.up 0) i st.users))
      e

-- After a successful ChangePassword, a Login with the user's address checks the password against the
-- hash of the new password, and then whether the address is verified. The identifiers and addresses
-- of the table are unique, and the driver runs the query.
pub change_password-login :
    (cfg : Config) (c : Call) (i current password : String) (st : Accounts) (u row : User)
    (hash : String) (c' : Call) (email q ip agent : String)
    → ((j : String) → count (has_id j) st.users ≤ 1)
    → ((e : String) → count (has_email e) st.users ≤ 1)
    → (change_password cfg c i current password st).1 ≡ ok u
    → find? (has_id i) st.users ≡ some row
    → c.bcrypt password ≡ some hash
    → cfg.normal email ≡ row.email
    → c'.up 0 ≡ true
    → login cfg c' email q ip agent (change_password cfg c i current password st).0 ≡ (
        if cfg.compare hash q
        then (if row.email_verified
            then enter cfg c'
                (record row { password_hash = hash; updated_at = rfc3339 (c.now 2) })
                ip
                agent
                (change_password cfg c i current password st).0
            else ((change_password cfg c i current password st).0, err email_not_verified))
        else ((change_password cfg c i current password st).0, err invalid_credentials))
unfolding login check_login Users.get_by_email Users.or_not_found
change_password-login cfg c i current password st u row hash c' email q ip agent one one' e found
      hashed address up =
    let ch = change_password-IsChanged cfg c i current password st u one one' e in
    let same : ch.row ≡ row = some-injective ch.row row (sym ch.found ∙ found) in
    let same' : ch.hash ≡ hash = some-injective ch.hash hash (sym ch.hashed ∙ hashed) in
    let stored : find? (has_email row.email) (change_password cfg c i current password st).0.users
        ≡ some (record row { password_hash = hash; updated_at = rfc3339 (c.now 2) }) =
      subst
        (λ h.
          find? (has_email row.email) (change_password cfg c i current password st).0.users
          ≡ some (record row { password_hash = h; updated_at = rfc3339 (c.now 2) }))
        same'
        (subst
          (λ r.
            find? (has_email r.email) (change_password cfg c i current password st).0.users
            ≡ some (record r { password_hash = ch.hash; updated_at = rfc3339 (c.now 2) }))
          same ch.stored) in
    rw (up, address, stored) (ground arith)
