-- ===== src/UserAuth/Failures.antt =====
-- The failed codes that internal/userauth/service.go remembers for each e-mail address, in a sync.Map.
-- A call reads one time of the clock.
use peerclaw_server.Prelude.{
  ℕ, ◌+◌, ◌*◌, String, Option, none, some, Bool, true, false, ◌&&◌, ltb, leb, if◌then◌else◌, second,
}
use peerclaw_server.Prelude.Maps.{Map, get, put, del}

pub record OtpConfig : Type 0 where
  pub max_failed_attempts : ℕ
  pub block_duration : ℕ
  pub code_expiry : ℕ
  pub max_per_hour : ℕ

abbrev pub default_otp_config : OtpConfig
default_otp_config = record {
  max_failed_attempts = 5;
  block_duration = 900 * second;
  code_expiry = 600 * second;
  max_per_hour = 5;
}

pub record OtpAttemptTracker : Type 0 where
  pub failures : ℕ
  pub last_fail : ℕ

abbrev pub Failures : Type 0
Failures = Map OtpAttemptTracker

-- `time.Since(tracker.lastFail) < s.otpCfg.BlockDuration`
abbrev pub within_block : OtpConfig → ℕ → OtpAttemptTracker → Bool
within_block cfg now t = ltb now (t.last_fail + cfg.block_duration)

unfoldable pub check_tracker :
    OtpConfig → ℕ → String → Option OtpAttemptTracker → Failures → Failures × Bool
unfolding del
check_tracker cfg now email none m = (m, false)
check_tracker cfg now email (some t) m =
    if leb cfg.max_failed_attempts t.failures && within_block cfg now t
    then (m, true)
    else if within_block cfg now t
    then (m, false)
    else (del email m, false)

-- Forgets a tracker whose last failure is too old.
unfoldable pub is_otp_blocked : OtpConfig → ℕ → String → Failures → Failures × Bool
unfolding check_tracker get
is_otp_blocked cfg now email m = check_tracker cfg now email (get email m) m

abbrev pub failures_of : Option OtpAttemptTracker → ℕ
failures_of none = 0
failures_of (some t) = t.failures

unfoldable pub record_otp_failure : ℕ → String → Failures → Failures
unfolding get put
record_otp_failure now email m =
    put email (record { failures = failures_of (get email m) + 1; last_fail = now }) m

unfoldable pub clear_otp_failures : String → Failures → Failures
unfolding del
clear_otp_failures email m = del email m
