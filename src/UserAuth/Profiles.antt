-- ===== src/UserAuth/Profiles.antt =====
-- What UpdateProfile of internal/userauth keeps.
use peerclaw_server.Prelude.{
  ℕ, ◌≡◌, refl, sym, eq_iff, Bool-cases, inl, inr, String, Option, none, some, not, ◌||◌, ◌==◌,
  Result, OnOk, at_ok, if_cases, StoreError, ok, err, arith,
}
use peerclaw_server.Prelude.Table.{find?}
use peerclaw_server.UserAuth.Store.Users
use peerclaw_server.UserAuth.Store.Users.{User, has_id}
use peerclaw_server.UserAuth.Outside.{Config, Call, Accounts, Error}
use peerclaw_server.UserAuth.Accounts.{
  UpdateProfileRequest, update_profile, change_profile, with_email, save_profile, saved, named,
  is_found, or_else,
}

-- The columns of a user that UpdateProfile has no part in, and the address that it writes.
pub record IsEdited (cfg : Config) (address : Option String) (row u : User) : Type 0 where
  pub id : u.id ≡ row.id
  pub password_hash : u.password_hash ≡ row.password_hash
  pub role : u.role ≡ row.role
  pub verified : u.email_verified ≡ row.email_verified
  pub email : u.email ≡ elim address [ none ↦ row.email | some s ↦ cfg.normal s ]

abbrev Edits : Config → Option String → User → Accounts × Result Error User → Type 0
Edits cfg address row x = OnOk (IsEdited cfg address row) x.1

saved-OnOk :
    (P : User → Type 0) (u : User) (st : Accounts) (r : Result StoreError Users.Rows)
    → P u
    → OnOk P (saved u st r).1
unfolding saved
saved-OnOk P u st (ok rows) h = h
saved-OnOk P u st (err e) h = tt

named-IsEdited :
    (cfg : Config) (name : Option String) (row : User) → IsEdited cfg none row (named cfg name row)
unfolding named
named-IsEdited cfg none row = record {
  id = refl;
  password_hash = refl;
  role = refl;
  verified = refl;
  email = refl;
}
named-IsEdited cfg (some s) row =
    if_cases (IsEdited cfg none row) (not (cfg.trim s == ""))
      (λ e. record { id = refl; password_hash = refl; role = refl; verified = refl; email = refl })
      (λ e. record { id = refl; password_hash = refl; role = refl; verified = refl; email = refl })

save_profile-Edits :
    (cfg : Config) (c : Call) (k : ℕ) (address description : Option String) (row u : User)
    (st : Accounts)
    → IsEdited cfg address row u
    → Edits cfg address row (save_profile c k description u st)
unfolding save_profile
save_profile-Edits cfg c k address description row u st e =
    saved-OnOk (IsEdited cfg address row) changed st (Users.update_user (c.up k) changed st.users)
      (record {
        id = e.id;
        password_hash = e.password_hash;
        role = e.role;
        verified = e.verified;
        email = e.email;
      })
  where
    changed : User
    changed = record u { description = or_else u.description description; updated_at = c.now 0 }

with_email-Edits :
    (cfg : Config) (c : Call) (address description : Option String) (row u : User) (st : Accounts)
    → IsEdited cfg none row u
    → Edits cfg address row (with_email cfg c address description u st)
unfolding with_email
with_email-Edits cfg c none description row u st k =
    save_profile-Edits cfg c 1 none description row u st k
with_email-Edits cfg c (some s) description row u st k =
    if_cases (Edits cfg (some s) row) (cfg.normal s == "" || not (cfg.has_at (cfg.normal s)))
      (λ bad. tt)
      (λ good.
        if_cases (Edits cfg (some s) row) (cfg.normal s == u.email)
          (λ own. save_profile-Edits cfg c 1 (some s) description row u st (record {
            id = k.id;
            password_hash = k.password_hash;
            role = k.role;
            verified = k.verified;
            email = sym ((eq_iff (cfg.normal s) u.email).0 own);
          }))
          (λ other.
            if_cases (Edits cfg (some s) row)
              (is_found (Users.get_by_email (c.up 1) (cfg.normal s) st.users)) (λ taken. tt)
              (λ free.
                save_profile-Edits cfg c 2 (some s) description row
                  (record u { email = cfg.normal s }) st
                  (record {
                    id = k.id;
                    password_hash = k.password_hash;
                    role = k.role;
                    verified = k.verified;
                    email = refl;
                  }))))

-- A successful UpdateProfile returns the row of the user with the identifier, the password, the role and
-- the verified mark that it had, and with the new address, where one is given: a new address counts as
-- verified when the old one did.
pub update_profile-IsEdited :
    (cfg : Config) (c : Call) (i : String) (req : UpdateProfileRequest) (st : Accounts)
    (row u : User)
    → find? (has_id i) st.users ≡ some row
    → (update_profile cfg c i req st).1 ≡ ok u
    → IsEdited cfg req.email row u
unfolding update_profile change_profile Users.get_by_id Users.or_not_found
update_profile-IsEdited cfg c i req st row u f e = elim (Bool-cases (c.up 0)) [
  | inr down ↦ absurd (ground arith)
  | inl up ↦
      at_ok (IsEdited cfg req.email row)
        (with_email cfg c req.email req.description (named cfg req.display_name row) st).1 u
        (with_email-Edits cfg c req.email req.description row (named cfg req.display_name row) st
          (named-IsEdited cfg req.display_name row))
        (ground arith)
]
