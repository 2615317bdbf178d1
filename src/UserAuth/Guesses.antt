-- ===== src/UserAuth/Guesses.antt =====
-- How many wrong codes internal/userauth looks up for one e-mail address.
use peerclaw_server.Prelude.{
  ℕ, ◌+◌, ◌≤◌, ◌<◌, ◌≡◌, refl, ap, subst, inl, inr, String, Option, none, some, List, [], ◌∷◌, Bool,
  true, false, leb, if◌then◌else◌, Result, StoreError, ok, err, arith, All, Bool-cases,
  Option-cases, eq_refl,
}
use peerclaw_server.Prelude.Maps.{get, get-put}
use peerclaw_server.UserAuth.Store.Verifications
use peerclaw_server.UserAuth.Outside.{
  Config, Call, Accounts, Error, invalid_code, too_many_attempts,
}
use peerclaw_server.UserAuth.Failures.{
  OtpAttemptTracker, Failures, within_block, is_otp_blocked, check_tracker, record_otp_failure,
  failures_of,
}
use peerclaw_server.UserAuth.Verify.{Continue, check_code, unless_blocked, use_code}

-- One check of a code.
pub record Attempt : Type 0 where
  pub call : Call
  pub order : Verifications.Rows → Verifications.Rows
  pub code : String
  pub purpose : String

abbrev pub was_looked_up {ℓ} : {A : Type ℓ} → Result Error A → Bool
was_looked_up (ok a) = false
was_looked_up (err e) = elim e [ invalid_code ↦ true | _ ↦ false ]

unfoldable pub check {ℓ} :
    {A : Type ℓ} → Config → String → Continue A → Attempt → Accounts → Accounts × Result Error A
unfolding check_code
check cfg email next a st = check_code cfg a.call a.order email a.code a.purpose next st

-- The number of the attempts whose code was looked up in vain.
unfoldable pub wrong_guesses {ℓ} :
    {A : Type ℓ} → Config → String → Continue A → Accounts → List Attempt → ℕ
unfolding check
wrong_guesses cfg email next st [] = 0
wrong_guesses cfg email next st (a ∷ as') =
    (if was_looked_up (check cfg email next a st).1 then 1 else 0)
    + wrong_guesses cfg email next (check cfg email next a st).0 as'

-- The search of the code fails, on a wrong code or an error of the driver.
abbrev pub IsWrong : Config → String → Verifications.Rows → Attempt → Type 0
IsWrong cfg email codes a =
    (x : StoreError) × (Verifications.get a.order (a.call.up 0) email (cfg.hash_token a.code)
        a.purpose codes
      ≡ err x)

-- The clock reads a time of the block duration that starts at `start`.
abbrev pub IsWithin : Config → ℕ → Attempt → Type 0
IsWithin cfg start a =
    (start ≤ a.call.now 0)
    × (a.call.now 0 < start + cfg.otp.block_duration)
    × (start ≤ a.call.now 1)

-- The remembered failure is not before `start`.
abbrev Recent : ℕ → Option OtpAttemptTracker → Type 0
Recent start none = Unit
Recent start (some t) = start ≤ t.last_fail

recorded :
    (now : ℕ) (email : String) (m : Failures)
    → get email (record_otp_failure now email m)
      ≡ some (record { failures = failures_of (get email m) + 1; last_fail = now })
unfolding record_otp_failure
recorded now email m = ground (
  arith,
  eq_refl email,
  get-put email email (record { failures = failures_of (get email m) + 1; last_fail = now }) m,
)

module _ {ℓ} {A : Type ℓ} (cfg : Config) (email : String) (next : Continue A) where
  -- What a wrong attempt in the block duration does: it is refused where the failures are too many,
  -- else it is one more failure.
  check-wrong :
      (start : ℕ) (a : Attempt) (st : Accounts)
      → 0 < cfg.otp.max_failed_attempts
      → IsWrong cfg email st.codes a
      → IsWithin cfg start a
      → Recent start (get email st.failures)
      → check cfg email next a st ≡ (
          if leb cfg.otp.max_failed_attempts (failures_of (get email st.failures))
          then (st, err too_many_attempts)
          else (
            record st { failures = record_otp_failure (a.call.now 1) email st.failures },
            err invalid_code,
          ))
  unfolding check is_otp_blocked check_tracker unless_blocked use_code
  check-wrong start a st pos (x, e) (le, lt, le') recent =
      elim (Option-cases (get email st.failures)) [
        | inl n ↦ rw (n, e) (ground arith)
        | inr (t, et) ↦
            let since : start ≤ t.last_fail = subst (Recent start) et recent in
            let block : within_block cfg.otp (a.call.now 0) t ≡ true = ground (arith, since, lt) in
            elim (Bool-cases (leb cfg.otp.max_failed_attempts t.failures)) [
              | inl full ↦ rw (et, full, block) refl
              | inr few ↦ rw (et, few, block, e) (rw (et, record_otp_failure) refl)
            ]
      ]

  wrong_guesses-le :
      (start : ℕ) (st : Accounts) (as' : List Attempt)
      → 0 < cfg.otp.max_failed_attempts
      → failures_of (get email st.failures) ≤ cfg.otp.max_failed_attempts
      → All (IsWrong cfg email st.codes) as'
      → All (IsWithin cfg start) as'
      → Recent start (get email st.failures)
      → wrong_guesses cfg email next st as' + failures_of (get email st.failures)
        ≤ cfg.otp.max_failed_attempts
  unfolding wrong_guesses
  wrong_guesses-le start st [] pos le w i r = omega (arith, le)
  wrong_guesses-le start st (a ∷ as') pos le w i r =
      elim (Bool-cases (leb cfg.otp.max_failed_attempts (failures_of (get email st.failures)))) [
        | inl full ↦
            rw (check-wrong start a st pos w.0 i.0 r, full)
              (omega (arith, wrong_guesses-le start st as' pos le w.1 i.1 r))
        | inr few ↦
            rw (check-wrong start a st pos w.0 i.0 r, few)
              (let after = recorded (a.call.now 1) email st.failures in
                omega (
                  arith,
                  ap failures_of after,
                  wrong_guesses-le start
                      (record st { failures = record_otp_failure (a.call.now 1) email st.failures })
                      as' pos (rw after (ground (arith, few))) w.1 i.1 (rw after i.0.2),
                ))
      ]

-- Of the codes that are checked for an address within one block duration, starting without remembered
-- failures, `max_failed_attempts` at most are looked up in vain; the others are refused unseen, the right
-- code too. The bound is above 0, and the attempts are wrong ones.
pub wrong_guesses-bounded {ℓ} :
    {A : Type ℓ} (cfg : Config) (email : String) (next : Continue A) (start : ℕ) (st : Accounts)
    (as' : List Attempt)
    → 0 < cfg.otp.max_failed_attempts
    → get email st.failures ≡ none
    → All (IsWrong cfg email st.codes) as'
    → All (IsWithin cfg start) as'
    → wrong_guesses cfg email next st as' ≤ cfg.otp.max_failed_attempts
wrong_guesses-bounded cfg email next start st as' pos clean wrong within = omega (
  arith,
  wrong_guesses-le cfg email next start st as' pos (rw clean (omega arith)) wrong within
      (rw clean tt),
)
