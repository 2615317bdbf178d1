-- ===== src/UserAuth/Outside.antt =====
-- What internal/userauth/service.go takes from other packages: the functions on texts, SHA-256, bcrypt,
-- the configuration, and for each call the driver, the clock, UUIDs, random bytes, JWTs and e-mail.
use peerclaw_server.Prelude.{ℕ, String, Option, Bool, StoreError, Driver}
use peerclaw_server.UserAuth.Failures.{OtpConfig}
use peerclaw_server.UserAuth.Store.Users
use peerclaw_server.UserAuth.Store.Sessions
use peerclaw_server.UserAuth.Store.ApiKeys
use peerclaw_server.UserAuth.Store.Verifications
use peerclaw_server.UserAuth.Failures.{Failures}

pub record Config : Type 0 where
  -- strings.TrimSpace(strings.ToLower(s))
  pub normal : String → String
  -- strings.TrimSpace(s)
  pub trim : String → String
  -- strings.Contains(s, "@")
  pub has_at : String → Bool
  -- strings.Split(s, "@")[0]
  pub local_part : String → String
  -- len(s)
  pub bytes : String → ℕ
  -- hashToken: the hexadecimal SHA-256 digest
  pub hash_token : String → String
  -- whether bcrypt.CompareHashAndPassword(hash, password) finds no error
  pub compare : String → String → Bool
  -- s.adminEmails[email]
  pub admin_emails : String → Bool
  -- s.emailSender != nil
  pub has_sender : Bool
  pub otp : OtpConfig
  pub access_ttl : ℕ
  pub refresh_ttl : ℕ

-- What one call takes from outside; the statements, UUIDs and readings of the clock are counted.
pub record Call : Type 0 where
  pub up : Driver
  pub uuid : ℕ → String
  pub now : ℕ → ℕ
  -- 32 random bytes in hexadecimal, none where rand.Read fails
  pub random : Option String
  -- the four random bytes of generateOTP
  pub otp_bytes : Option (ℕ → ℕ)
  -- bcrypt.GenerateFromPassword, none on its error
  pub bcrypt : String → Option String
  -- GenerateAccessToken of a user's identifier and role
  pub access_token : String → String → Option String
  -- whether SendVerificationCode of an address, a code and a purpose succeeds
  pub sent : String → String → String → Bool

-- The tables and the failures that are remembered.
pub record Accounts : Type 0 where
  pub users : Users.Rows
  pub sessions : Sessions.Rows
  pub keys : ApiKeys.Rows
  pub codes : Verifications.Rows
  pub failures : Failures

pub data Error : Type 0 where
  invalid_email password_too_short email_registered hash_failed invalid_credentials : Error
  email_not_verified invalid_refresh_token refresh_token_expired user_not_found : Error
  wrong_password name_required no_randomness invalid_key key_revoked key_expired : Error
  invalid_role fields_required too_many_attempts invalid_code code_expired : Error
  too_many_requests no_access_token send_failed : Error
  store_failed : StoreError → Error
