-- ===== src/UserAuth/Examples.antt =====
-- Runs of internal/userauth, and its theorems at them.
use peerclaw_server.Prelude.{
  ℕ, ◌+◌, ◌*◌, ◌%◌, ◌≤◌, ◌≡◌, refl, String, none, some, List, ◌-◌, ◌++◌, [], ◌∷◌, Bool, true, false,
  ◌==◌, ok, err, not_found, arith, second,
}
use peerclaw_server.Prelude.Table.{count, find?}
use peerclaw_server.Prelude.Maps.{get}
use peerclaw_server.ClaimToken.Code.{length}
use peerclaw_server.UserAuth.Store.Users
use peerclaw_server.UserAuth.Store.Users.{User}
use peerclaw_server.UserAuth.Store.Sessions.{Session}
use peerclaw_server.UserAuth.Store.ApiKeys
use peerclaw_server.UserAuth.Store.ApiKeys.{UserApiKey}
use peerclaw_server.UserAuth.Store.Verifications
use peerclaw_server.UserAuth.Failures.{default_otp_config}
use peerclaw_server.UserAuth.Outside.{
  Config, Call, Accounts, invalid_refresh_token, key_revoked, invalid_credentials,
}
use peerclaw_server.UserAuth.Tokens.{refresh_token}
use peerclaw_server.UserAuth.Keys.{generate_api_key, revoke_api_key, validate_api_key}
use peerclaw_server.UserAuth.Codes.{generate_otp, hour}
use peerclaw_server.UserAuth.Accounts.{UpdateProfileRequest, login, change_password, update_profile}
use peerclaw_server.UserAuth.Digits.{big_endian, read_decimal, read_decimal-generate_otp}
use peerclaw_server.UserAuth.KeyLife.{
  revokes, validates, generates, run_keys, generate-validate, revoke-validate,
}
use peerclaw_server.UserAuth.Rotation.{enters, leaves, run_sessions, refresh-once}
use peerclaw_server.UserAuth.Guesses.{Attempt, IsWrong, wrong_guesses, wrong_guesses-bounded}
use peerclaw_server.UserAuth.SendLimit.{
  CodeCall, sends, cleans, uses, mails, is_mail, allowance, mails-bounded,
}
use peerclaw_server.UserAuth.Passwords.{IsAdmitted, login-IsAdmitted}
use peerclaw_server.UserAuth.Changes.{change_password-login}

-- Texts are their own hashes, and a password fits its own text.
abbrev cfg : Config
cfg = record {
  normal = λ s. s;
  trim = λ s. s;
  has_at = λ s. true;
  local_part = λ s. s;
  bytes = λ s. 8;
  hash_token = λ s. s;
  compare = λ h p. h == p;
  admin_emails = λ s. s == "root@x";
  has_sender = true;
  otp = default_otp_config;
  access_ttl = 900 * second;
  refresh_ttl = 86_400 * second;
}

abbrev call : ℕ → String → Call
call s random = record {
  up = λ k. true;
  uuid = λ k. random;
  now = λ k. s * 1_000_000_000;
  random = some random;
  otp_bytes = some (λ k. s);
  bcrypt = λ p. some p;
  access_token = λ u r. some u;
  sent = λ e c p. true;
}

abbrev ann : User
ann = record {
  id = "u";
  email = "ann@x";
  password_hash = "old password";
  display_name = "Ann";
  description = "";
  role = "user";
  email_verified = true;
  created_at = 0;
  updated_at = 0;
}

abbrev session : Session
session = record {
  id = "s";
  user_id = "u";
  refresh_token = "token";
  ip_address = "";
  user_agent = "";
  expires_at = 9_000_000_000_000;
  created_at = 0;
}

abbrev state : Accounts
state = record { users = ann ∷ []; sessions = session ∷ []; keys = []; codes = []; failures = [] }

read_decimal-generate_otp_example :
    (c : String) × (generate_otp (some (λ k. 200 + k)) ≡ some c)
    × (length c ≡ 8)
    × (read_decimal c 0 ≡ some (big_endian 0 (200 ∷ 201 ∷ 202 ∷ 203 ∷ []) % 100_000_000))
read_decimal-generate_otp_example =
    read_decimal-generate_otp (λ k. 200 + k) (omega arith) (omega arith) (omega arith) (omega arith)

-- The key that a call at second 1 makes.
abbrev key : UserApiKey
key = record {
  id = "k";
  user_id = "u";
  name = "laptop";
  key_hash = "pck_k";
  prefix = "pck_k";
  created_at = 1_000_000_000;
  last_used = none;
  expires_at = none;
  revoked = false;
}

made : (generate_api_key cfg (call 1 "k") "u" "laptop" []).1 ≡ ok (key, "pck_k")
unfolding generate_api_key
made = refl

generate-validate_example :
    (validate_api_key cfg (call 5 "") "pck_k" (ann ∷ []) (
      run_keys cfg (generate_api_key cfg (call 1 "k") "u" "laptop" []).0 (
        revokes (call 2 "") "k" "eve"
        ∷ generates (call 3 "l") "u" "phone"
        ∷ validates (call 4 "") "pck_k" (ann ∷ [])
        ∷ []))).1
    ≡ ok ann
generate-validate_example =
    generate-validate cfg (call 1 "k") "u" "laptop" [] key "pck_k"
      (revokes (call 2 "") "k" "eve"
        ∷ generates (call 3 "l") "u" "phone"
        ∷ validates (call 4 "") "pck_k" (ann ∷ [])
        ∷ [])
      (call 5 "") (ann ∷ []) ann made (refl, (tt, (tt, tt))) refl refl (unfold find? in refl)

key_found : find? (ApiKeys.has_hash "pck_k") (key ∷ []) ≡ some key
unfolding find?
key_found = refl

revoked_ok : (revoke_api_key (call 2 "") "k" "u" (key ∷ [])).1 ≡ ok tt
unfolding revoke_api_key
revoked_ok = refl

revoke-validate_example :
    (validate_api_key cfg (call 5 "") "pck_k" (ann ∷ []) (
      run_keys cfg
        (revoke_api_key (call 2 "") "k" "u" (key ∷ [])).0
        (generates (call 3 "l") "u" "phone" ∷ []))).1
    ≡ err key_revoked
revoke-validate_example =
    revoke-validate cfg (call 2 "") "k" "u" "pck_k" (key ∷ []) key
      (generates (call 3 "l") "u" "phone" ∷ []) (call 5 "") (ann ∷ []) key_found refl revoked_ok

refreshed :
    (refresh_token cfg (call 5 "new") "token" (ann ∷ []) (session ∷ [])).1
    ≡ ok (record { access_token = "u"; refresh_token = "new"; expires_in = 900 })
unfolding refresh_token
refreshed = refl

refresh-once_example :
    refresh_token cfg (call 8 "third") "token" (ann ∷ []) (
      run_sessions cfg
        (refresh_token cfg (call 5 "new") "token" (ann ∷ []) (session ∷ [])).0
        (enters (call 6 "other") 1 0 ann "" "" ∷ leaves (call 7 "") "new" ∷ []))
    ≡ (
      run_sessions cfg
          (refresh_token cfg (call 5 "new") "token" (ann ∷ []) (session ∷ [])).0
          (enters (call 6 "other") 1 0 ann "" "" ∷ leaves (call 7 "") "new" ∷ []),
      err invalid_refresh_token,
    )
refresh-once_example =
    refresh-once cfg (call 5 "new") "token" (ann ∷ []) (session ∷ [])
      (record { access_token = "u"; refresh_token = "new"; expires_in = 900 })
      (enters (call 6 "other") 1 0 ann "" "" ∷ leaves (call 7 "") "new" ∷ []) (call 8 "third")
      (ann ∷ []) (unfold count in ground arith) (λ t e. other_hash "new" t e refl) refl refreshed
      ((λ t e. other_hash "other" t e refl), (tt, tt))
  where
    other_hash : (s t : String) → some s ≡ some t → (s == "token") ≡ false → (t == "token") ≡ false
    other_hash s t e h = ground (arith, e, h)

-- A wrong code at a second.
abbrev guess : ℕ → Attempt
guess s = record {
  call = call s "g";
  order = λ rows. rows;
  code = "00000000";
  purpose = "register";
}

nothing_found :
    (s : ℕ) → Verifications.get (λ rows. rows) true "ann@x" "00000000" "register" [] ≡ err not_found
unfolding Verifications.get
nothing_found s = refl

no_failures : get "ann@x" state.failures ≡ none
unfolding get
no_failures = refl

wrong_guesses-bounded_example :
    wrong_guesses cfg "ann@x"
      (λ st. (st, ok (tt {0})))
      state
      (guess 1 ∷ guess 2 ∷ guess 3 ∷ guess 4 ∷ guess 5 ∷ guess 6 ∷ guess 7 ∷ [])
    ≤ 5
wrong_guesses-bounded_example =
    wrong_guesses-bounded cfg "ann@x" (λ st. (st, ok (tt {0}))) 1_000_000_000 state
      (guess 1 ∷ guess 2 ∷ guess 3 ∷ guess 4 ∷ guess 5 ∷ guess 6 ∷ guess 7 ∷ []) (ground arith)
      no_failures (wrong 1, (wrong 2, (wrong 3, (wrong 4, (wrong 5, (wrong 6, (wrong 7, tt)))))))
      (
        (ground arith, ground arith, ground arith),
        (
          (ground arith, ground arith, ground arith),
          (
            (ground arith, ground arith, ground arith),
            (
              (ground arith, ground arith, ground arith),
              (
                (ground arith, ground arith, ground arith),
                (
                  (ground arith, ground arith, ground arith),
                  ((ground arith, ground arith, ground arith), tt),
                ),
              ),
            ),
          ),
        ),
      )
  where
    wrong : (s : ℕ) → IsWrong cfg "ann@x" [] (guess s)
    wrong s = (not_found, nothing_found s)

seven_guesses :
    wrong_guesses cfg "ann@x"
      (λ st. (st, ok (tt {0})))
      state
      (guess 1 ∷ guess 2 ∷ guess 3 ∷ guess 4 ∷ guess 5 ∷ guess 6 ∷ guess 7 ∷ [])
    ≡ 5
unfolding wrong_guesses
seven_guesses = refl

-- Four codes, two of them after a deletion; the limit is five.
abbrev code_calls : List CodeCall
code_calls =
    sends (call 2 "a") 0 "ann@x" "register"
    ∷ uses true "a"
    ∷ sends (call 3 "b") 0 "ann@x" "register"
    ∷ cleans (call 1_200 "")
    ∷ sends (call 1_201 "c") 0 "ann@x" "register"
    ∷ sends (call 1_202 "d") 0 "ann@x" "register"
    ∷ []

mails-bounded_example :
    count (is_mail "ann@x" (1_300 * second - hour)) (mails cfg [] code_calls)
    ≤ allowance default_otp_config.max_per_hour code_calls
mails-bounded_example =
    mails-bounded cfg 0 [] code_calls "ann@x" (1_300 * second)
      (
        omega arith,
        omega arith,
        (omega arith, omega arith, (omega arith, omega arith, (omega arith, omega arith, tt))),
      )
      (λ e at le. unfold count in ground arith) (omega arith)

-- The fifth code is the last that the limit allows, and a deletion of expired codes allows the sixth.
abbrev five : List CodeCall
five =
    sends (call 2 "a") 0 "ann@x" "register"
    ∷ sends (call 3 "b") 0 "ann@x" "register"
    ∷ sends (call 4 "c") 0 "ann@x" "register"
    ∷ sends (call 5 "d") 0 "ann@x" "register"
    ∷ sends (call 6 "e") 0 "ann@x" "register"
    ∷ []

sixth_refused :
    count
      (is_mail "ann@x" 0)
      (mails cfg [] (five ++ sends (call 1_300 "f") 0 "ann@x" "register" ∷ []))
    ≡ 5
unfolding count mails generate_otp
sixth_refused = refl

sixth_sent :
    count (is_mail "ann@x" 0) (
      mails cfg []
        (five ++ cleans (call 1_200 "") ∷ sends (call 1_300 "f") 0 "ann@x" "register" ∷ []))
    ≡ 6
unfolding count mails generate_otp
sixth_sent = refl

logged_in :
    (login cfg (call 5 "new") "ann@x" "old password" "" "" state).1
    ≡ ok (ann, some (record { access_token = "u"; refresh_token = "new"; expires_in = 900 }))
unfolding login
logged_in = refl

login-IsAdmitted_example : IsAdmitted cfg "ann@x" "old password" (ann ∷ []) ann
login-IsAdmitted_example =
    login-IsAdmitted cfg (call 5 "new") "ann@x" "old password" "" "" state ann
      (some (record { access_token = "u"; refresh_token = "new"; expires_in = 900 })) logged_in

one_ann : (p : User → Bool) → count p (ann ∷ []) ≤ 1
unfolding count
one_ann p = ground arith

abbrev changed_ann : User
changed_ann = record ann { password_hash = "new password"; updated_at = 6_000_000_000 }

changed :
    (change_password cfg (call 6 "") "u" "old password" "new password" state).1 ≡ ok changed_ann
unfolding change_password
changed = refl

ann_found : find? (Users.has_id "u") (ann ∷ []) ≡ some ann
unfolding find?
ann_found = refl

change_password-login_example :
    login cfg
      (call 7 "t")
      "ann@x"
      "old password"
      ""
      ""
      (change_password cfg (call 6 "") "u" "old password" "new password" state).0
    ≡ (
      (change_password cfg (call 6 "") "u" "old password" "new password" state).0,
      err invalid_credentials,
    )
change_password-login_example =
    change_password-login cfg (call 6 "") "u" "old password" "new password" state changed_ann ann
      "new password" (call 7 "t") "ann@x" "old password" "" "" (λ j. one_ann (Users.has_id j))
      (λ e. one_ann (Users.has_email e)) changed ann_found refl refl refl

abbrev to_root : UpdateProfileRequest
to_root = record { display_name = none; email = some "root@x"; description = none }

abbrev edited_ann : User
edited_ann = record ann { email = "root@x"; updated_at = 6_000_000_000 }

edited : (update_profile cfg (call 6 "") "u" to_root state).1 ≡ ok edited_ann
unfolding update_profile
edited = refl

-- After it, a Login makes the user an administrator, although nobody has verified the new address.
promoted_unverified :
    (login cfg
      (call 7 "t")
      "root@x"
      "old password"
      ""
      ""
      (update_profile cfg (call 6 "") "u" to_root state).0).1
    ≡ ok (
      record edited_ann { role = "admin"; updated_at = 7_000_000_000 },
      some (record { access_token = "u"; refresh_token = "t"; expires_in = 900 }),
    )
unfolding login update_profile
promoted_unverified = refl
