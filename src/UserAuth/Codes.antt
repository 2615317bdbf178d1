-- ===== src/UserAuth/Codes.antt =====
-- generateOTP, sendOTP and DeleteExpiredVerifications of internal/userauth/service.go, on the table
-- email_verifications. A call returns the table that it leaves and its result.
use Prim.Native.Char.{Char, nul}
use peerclaw_server.Prelude.{
  ℕ, zero, suc, ◌+◌, ◌-◌, ◌*◌, ◌/◌, ◌%◌, String, Option, none, some, false, not, ◌||◌, leb,
  if◌then◌else◌, Result, ok, err, StoreError, second,
}
use peerclaw_server.UserAuth.Store.Verifications
use peerclaw_server.UserAuth.Store.Verifications.{EmailVerification}
use peerclaw_server.UserAuth.Outside.{
  Config, Call, Error, too_many_requests, no_randomness, send_failed, store_failed,
}

abbrev pub char_at : String → ℕ → Char
char_at String.[] i = nul
char_at (String.◌∷◌ c s) zero = c
char_at (String.◌∷◌ c s) (suc i) = char_at s i

-- The last decimal digit.
abbrev pub digit : ℕ → Char
digit n = char_at "0123456789" (n % 10)

-- fmt.Sprintf("%08d", n) of a number below 100000000.
unfoldable pub eight_digits : ℕ → String
eight_digits n = String.◌∷◌ (digit (n / 10_000_000)) (
    String.◌∷◌ (digit (n / 1_000_000)) (
      String.◌∷◌ (digit (n / 100_000)) (
        String.◌∷◌ (digit (n / 10_000)) (
          String.◌∷◌ (digit (n / 1_000)) (
            String.◌∷◌ (digit (n / 100))
              (String.◌∷◌ (digit (n / 10)) (String.◌∷◌ (digit n) String.[])))))))

-- The number that generateOTP makes of four bytes.
unfoldable pub otp_number : (ℕ → ℕ) → ℕ
otp_number b =
    (b 0 % 256 * 16_777_216 + b 1 % 256 * 65_536 + b 2 % 256 * 256 + b 3 % 256) % 100_000_000

unfoldable pub generate_otp : Option (ℕ → ℕ) → Option String
unfolding eight_digits otp_number
generate_otp none = none
generate_otp (some b) = some (eight_digits (otp_number b))

abbrev pub hour : ℕ
hour = 3_600 * second

unfoldable pub new_verification : Config → Call → String → String → String → EmailVerification
new_verification cfg c email purpose code = record {
  id = c.uuid 1;
  email = email;
  code_hash = cfg.hash_token code;
  purpose = purpose;
  expires_at = c.now 2 + cfg.otp.code_expiry;
  used = false;
  created_at = c.now 2;
}

unfoldable pub emailed :
    Config
    → Call
    → String
    → String
    → String
    → Verifications.Rows
    → Result StoreError Verifications.Rows
    → Verifications.Rows × Result Error (Unit {0})
emailed cfg c email purpose code rows (err e) = (rows, err (store_failed e))
emailed cfg c email purpose code rows (ok rows') =
    (rows', if not cfg.has_sender || c.sent email code purpose then ok tt else err send_failed)

unfoldable pub store_code :
    Config
    → Call
    → ℕ
    → String
    → String
    → Option String
    → Verifications.Rows
    → Verifications.Rows × Result Error (Unit {0})
unfolding emailed new_verification Verifications.create
store_code cfg c k email purpose none rows = (rows, err no_randomness)
store_code cfg c k email purpose (some code) rows =
    emailed cfg c email purpose code rows
      (Verifications.create (c.up k) (new_verification cfg c email purpose code) rows)

unfoldable pub check_count :
    Config
    → Call
    → ℕ
    → String
    → String
    → Result StoreError ℕ
    → Verifications.Rows
    → Verifications.Rows × Result Error (Unit {0})
unfolding store_code
check_count cfg c k email purpose (err e) rows = (rows, err (store_failed e))
check_count cfg c k email purpose (ok n) rows =
    if leb cfg.otp.max_per_hour n
    then (rows, err too_many_requests)
    else store_code cfg c (k + 1) email purpose (generate_otp c.otp_bytes) rows

-- `k` statements of the same call came before; the clock is read as `now 1` and `now 2`.
unfoldable pub send_otp :
    Config
    → Call
    → ℕ
    → String
    → String
    → Verifications.Rows
    → Verifications.Rows × Result Error (Unit {0})
unfolding check_count Verifications.count_recent
send_otp cfg c k email purpose rows =
    check_count cfg c k email purpose
      (Verifications.count_recent (c.up k) email (c.now 1 - hour) rows) rows

unfoldable pub deleted :
    Verifications.Rows
    → Result StoreError Verifications.Rows
    → Verifications.Rows × Result StoreError (Unit {0})
deleted rows (ok rows') = (rows', ok tt)
deleted rows (err e) = (rows, err e)

unfoldable pub delete_expired_verifications :
    Call → Verifications.Rows → Verifications.Rows × Result StoreError (Unit {0})
unfolding deleted Verifications.delete_expired
delete_expired_verifications c rows =
    deleted rows (Verifications.delete_expired (c.up 0) (c.now 0) rows)
