-- ===== src/UserAuth/Verify.antt =====
-- VerifyEmail, ResendVerification, RequestPasswordReset and ResetPassword of
-- internal/userauth/service.go. A call returns the state that it leaves and its result.
use peerclaw_server.Prelude.{
  String, Option, Bool, true, false, ◌||◌, ◌==◌, ltb, if◌then◌else◌, Result, ok, err, StoreError,
}
use peerclaw_server.UserAuth.Store.Users
use peerclaw_server.UserAuth.Store.Users.{User}
use peerclaw_server.UserAuth.Store.Verifications
use peerclaw_server.UserAuth.Store.Verifications.{EmailVerification}
use peerclaw_server.UserAuth.Failures.{
  Failures, is_otp_blocked, record_otp_failure, clear_otp_failures,
}
use peerclaw_server.UserAuth.Tokens.{TokenPair, generate_token_pair, ignore_error}
use peerclaw_server.UserAuth.Codes.{send_otp}
use peerclaw_server.UserAuth.Accounts.{signed_in, set_password}
use peerclaw_server.UserAuth.Outside.{
  Config, Call, Accounts, Error, user_not_found, fields_required, too_many_attempts, invalid_code,
  code_expired, password_too_short, store_failed,
}

-- What a code opens, once it is checked.
abbrev pub Continue {ℓ} : Type ℓ → Type ℓ
Continue A = Accounts → Accounts × Result Error A

unfoldable pub use_code {ℓ} :
    {A : Type ℓ}
    → Config
    → Call
    → String
    → Continue A
    → Result StoreError EmailVerification
    → Accounts
    → Accounts × Result Error A
unfolding Verifications.mark_used record_otp_failure clear_otp_failures
use_code cfg c email next (err e) st =
    (record st { failures = record_otp_failure (c.now 1) email st.failures }, err invalid_code)
use_code cfg c email next (ok v) st =
    if ltb v.expires_at (c.now 1)
    then (st, err code_expired)
    else next (record st {
      codes = ignore_error st.codes (Verifications.mark_used (c.up 1) v.id st.codes);
      failures = clear_otp_failures email st.failures;
    })

unfoldable pub unless_blocked {ℓ} :
    {A : Type ℓ}
    → Config
    → Call
    → (Verifications.Rows → Verifications.Rows)
    → String
    → String
    → String
    → Continue A
    → Accounts
    → Failures × Bool
    → Accounts × Result Error A
unfolding use_code Verifications.get
unless_blocked cfg c order email code purpose next st (m, true) =
    (record st { failures = m }, err too_many_attempts)
unless_blocked cfg c order email code purpose next st (m, false) =
    use_code cfg c email next
      (Verifications.get order (c.up 0) email (cfg.hash_token code) purpose st.codes)
      (record st { failures = m })

-- The steps that VerifyEmail and ResetPassword share: the block of an address, the search of the code,
-- its expiry, and its use.
unfoldable pub check_code {ℓ} :
    {A : Type ℓ}
    → Config
    → Call
    → (Verifications.Rows → Verifications.Rows)
    → String
    → String
    → String
    → Continue A
    → Accounts
    → Accounts × Result Error A
unfolding unless_blocked is_otp_blocked
check_code cfg c order email code purpose next st =
    unless_blocked cfg c order email code purpose next st
      (is_otp_blocked cfg.otp (c.now 0) email st.failures)

abbrev pub verified : User → User
verified u = record u { email_verified = true }

unfoldable pub set_verified :
    Config
    → Call
    → User
    → String
    → String
    → Accounts
    → Result StoreError Users.Rows
    → Accounts × Result Error (User × Option TokenPair)
unfolding signed_in generate_token_pair
set_verified cfg c u ip agent st (err e) = (st, err (store_failed e))
set_verified cfg c u ip agent st (ok users) =
    signed_in (verified u) (record st { users = users })
      (generate_token_pair cfg c 4 3 (verified u) ip agent st.sessions)

unfoldable pub verify_user :
    Config
    → Call
    → String
    → String
    → Result StoreError User
    → Accounts
    → Accounts × Result Error (User × Option TokenPair)
unfolding set_verified Users.set_email_verified
verify_user cfg c ip agent (err e) st = (st, err user_not_found)
verify_user cfg c ip agent (ok u) st =
    set_verified cfg c u ip agent st (Users.set_email_verified (c.up 3) (c.now 2) u.id st.users)

unfoldable pub verify_email :
    Config
    → Call
    → (Verifications.Rows → Verifications.Rows)
    → String
    → String
    → String
    → String
    → Accounts
    → Accounts × Result Error (User × Option TokenPair)
unfolding check_code verify_user Users.get_by_email
verify_email cfg c order email code ip agent st =
    if cfg.normal email == "" || cfg.trim code == ""
    then (st, err fields_required)
    else check_code cfg c order (cfg.normal email) (cfg.trim code) "register"
        (λ s. verify_user cfg c ip agent (Users.get_by_email (c.up 2) (cfg.normal email) s.users) s)
        st

-- The state after a new code, and whether it was sent.
abbrev pub with_codes :
    Accounts → Verifications.Rows × Result Error (Unit {0}) → Accounts × Result Error (Unit {0})
with_codes st r = (record st { codes = r.0 }, r.1)

unfoldable pub resend :
    Config → Call → String → Result StoreError User → Accounts → Accounts × Result Error (Unit {0})
unfolding send_otp
resend cfg c email (err e) st = (st, ok tt)
resend cfg c email (ok u) st =
    if u.email_verified
    then (st, ok tt)
    else with_codes st (send_otp cfg c 1 email "register" st.codes)

unfoldable pub resend_verification :
    Config → Call → String → Accounts → Accounts × Result Error (Unit {0})
unfolding resend Users.get_by_email
resend_verification cfg c email st =
    resend cfg c (cfg.normal email) (Users.get_by_email (c.up 0) (cfg.normal email) st.users) st

unfoldable pub send_reset : Config → Call → String → Result StoreError User → Accounts → Accounts
unfolding send_otp
send_reset cfg c email (err e) st = st
send_reset cfg c email (ok u) st = record st {
  codes = (send_otp cfg c 1 email "password_reset" st.codes).0;
}

-- Always succeeds, so it has no result.
unfoldable pub request_password_reset : Config → Call → String → Accounts → Accounts
unfolding send_reset Users.get_by_email
request_password_reset cfg c email st =
    send_reset cfg c (cfg.normal email) (Users.get_by_email (c.up 0) (cfg.normal email) st.users) st

unfoldable pub reset_user :
    Config → Call → String → Result StoreError User → Accounts → Accounts × Result Error User
unfolding set_password
reset_user cfg c password (err e) st = (st, err user_not_found)
reset_user cfg c password (ok u) st = set_password c 3 u (c.bcrypt password) st

-- On success the code returns no user; it is kept here for the theorems.
unfoldable pub reset_password :
    Config
    → Call
    → (Verifications.Rows → Verifications.Rows)
    → String
    → String
    → String
    → Accounts
    → Accounts × Result Error User
unfolding check_code reset_user Users.get_by_email
reset_password cfg c order email code password st =
    if cfg.normal email == "" || cfg.trim code == "" || password == ""
    then (st, err fields_required)
    else if ltb (cfg.bytes password) 8
    then (st, err password_too_short)
    else check_code cfg c order (cfg.normal email) (cfg.trim code) "password_reset"
        (λ s. reset_user cfg c password (Users.get_by_email (c.up 2) (cfg.normal email) s.users) s)
        st
