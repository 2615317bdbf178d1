-- ===== src/UserAuth/SendLimit.antt =====
-- The hourly limit of the one-time codes of internal/userauth, when the calls run one after another.
use peerclaw_server.Prelude.{
  ℕ, ◌+◌, ◌-◌, ◌≤◌, ◌<◌, ◌≡◌, refl, inl, inr, ◌⊎◌, String, List, [], ◌∷◌, ◌++◌, Bool, true, false,
  ◌&&◌, ◌==◌, leb, if◌then◌else◌, Result, ok, err, arith, eq_iff, Bool-cases, Option-cases,
  Result-cases,
}
use peerclaw_server.Prelude.Table.{
  count, count-snoc, count-remove-le, count-update_same, count_mono,
}
use peerclaw_server.UserAuth.Store.Verifications
use peerclaw_server.UserAuth.Store.Verifications.{
  EmailVerification, Rows, recent, to_row, has_id, set_used, lapsed,
}
use peerclaw_server.UserAuth.Outside.{Config, Call, Error, send_failed}
use peerclaw_server.UserAuth.Codes.{
  send_otp, check_count, store_code, new_verification, generate_otp, delete_expired_verifications,
  hour,
}
use peerclaw_server.UserAuth.Tokens.{ignore_error}

-- A call on the table of codes; `uses` marks the code that a check has found.
pub data CodeCall : Type 0 where
  sends : Call → ℕ → String → String → CodeCall
  uses : Bool → String → CodeCall
  cleans : Call → CodeCall

unfoldable pub step_codes : Config → Rows → CodeCall → Rows
unfolding send_otp delete_expired_verifications
step_codes cfg rows (sends c k email purpose) = (send_otp cfg c k email purpose rows).0
step_codes cfg rows (uses up i) = ignore_error rows (Verifications.mark_used up i rows)
step_codes cfg rows (cleans c) = (delete_expired_verifications c rows).0

-- Whether sendOTP got as far as to hand the code to the e-mail sender.
unfoldable pub is_issued : Result Error (Unit {0}) → Bool
is_issued (ok u) = true
is_issued (err send_failed) = true
is_issued (err e) = false

-- A code that was handed over, with the time of its call.
pub record Mail : Type 0 where
  pub email : String
  pub at : ℕ

abbrev pub is_mail : String → ℕ → Mail → Bool
is_mail email since m = m.email == email && leb since m.at

-- The codes that a run hands over.
unfoldable pub mails : Config → Rows → List CodeCall → List Mail
unfolding step_codes send_otp is_issued
mails cfg rows [] = []
mails cfg rows (sends c k email purpose ∷ cs) =
    let rest = mails cfg (step_codes cfg rows (sends c k email purpose)) cs in
    if is_issued (send_otp cfg c k email purpose rows).1
    then record { email = email; at = c.now 2 } ∷ rest
    else rest
mails cfg rows (uses up i ∷ cs) = mails cfg (step_codes cfg rows (uses up i)) cs
mails cfg rows (cleans c ∷ cs) = mails cfg (step_codes cfg rows (cleans c)) cs

-- The limit, and once more for each deletion of expired codes.
abbrev pub allowance : ℕ → List CodeCall → ℕ
allowance limit [] = limit
allowance limit (sends c k email purpose ∷ cs) = allowance limit cs
allowance limit (uses up i ∷ cs) = allowance limit cs
allowance limit (cleans c ∷ cs) = limit + allowance limit cs

-- The time of a call's last reading of the clock that counts, `before` where it reads none.
abbrev pub clock : ℕ → CodeCall → ℕ
clock before (sends c k email purpose) = c.now 2
clock before (uses up i) = before
clock before (cleans c) = before

-- The clock does not run backwards.
abbrev pub IsTimed : ℕ → List CodeCall → Type 0
IsTimed before [] = Unit
IsTimed before (sends c k email purpose ∷ cs) =
    (before ≤ c.now 1) × (c.now 1 ≤ c.now 2) × IsTimed (c.now 2) cs
IsTimed before (uses up i ∷ cs) = IsTimed before cs
IsTimed before (cleans c ∷ cs) = IsTimed before cs

abbrev pub last : ℕ → List CodeCall → ℕ
last before [] = before
last before (c ∷ cs) = last (clock before c) cs

-- From a time on, no address has more codes of the last hour than the limit.
abbrev pub IsBounded : Config → ℕ → Rows → Type 0
IsBounded cfg now rows =
    (email : String) (at : ℕ)
    → now ≤ at
    → count (recent email (at - hour)) rows ≤ cfg.otp.max_per_hour

create-snoc :
    (up : Bool) (v : EmailVerification) (rows rows' : Rows)
    → Verifications.create up v rows ≡ ok rows'
    → rows' ≡ rows ++ to_row v ∷ []
unfolding Verifications.create
create-snoc up v rows rows' e = ground arith

-- sendOTP leaves the table and hands over nothing, or appends a code of the address, which had fewer
-- codes than the limit.
send_otp-cases :
    (cfg : Config) (c : Call) (k : ℕ) (email purpose : String) (rows : Rows)
    → (((send_otp cfg c k email purpose rows).0 ≡ rows)
        × (is_issued (send_otp cfg c k email purpose rows).1 ≡ false))
      ⊎ ((code : String) × (count (recent email (c.now 1 - hour)) rows < cfg.otp.max_per_hour)
          × ((send_otp cfg c k email purpose rows).0
              ≡ rows ++ to_row (new_verification cfg c email purpose code) ∷ []))
unfolding send_otp check_count store_code is_issued
send_otp-cases cfg c k email purpose rows = elim (Bool-cases (c.up k)) [
  | inr down ↦ inl (ground arith, ground arith)
  | inl up ↦
      elim (Bool-cases (leb cfg.otp.max_per_hour (count (recent email (c.now 1 - hour)) rows))) [
        | inl full ↦ inl (ground arith, ground arith)
        | inr few ↦ elim (Option-cases (generate_otp c.otp_bytes)) [
          | inl n ↦ inl (ground arith, ground arith)
          | inr (code, e) ↦
              elim (Result-cases (
                Verifications.create (c.up (k + 1)) (new_verification cfg c email purpose code)
                  rows)) [
                    | inr (x, ex) ↦ inl (ground arith, ground arith)
                    | inl (rows', er) ↦ inr (
                      code,
                      ground arith,
                      ground (
                        arith,
                        create-snoc (c.up (k + 1)) (new_verification cfg c email purpose code) rows
                            rows' er,
                      ),
                    )
                  ]
        ]
      ]
]

append-IsBounded :
    (cfg : Config) (c : Call) (email purpose code : String) (before : ℕ) (rows : Rows)
    → before ≤ c.now 1
    → c.now 1 ≤ c.now 2
    → count (recent email (c.now 1 - hour)) rows < cfg.otp.max_per_hour
    → IsBounded cfg before rows
    → IsBounded cfg (c.now 2) (rows ++ to_row (new_verification cfg c email purpose code) ∷ [])
unfolding new_verification
append-IsBounded cfg c email purpose code before rows le le' few b = λ u at later. ground (
  arith,
  b u at,
  eq_iff email u,
  count-snoc (recent u (at - hour)) rows (to_row (new_verification cfg c email purpose code)),
  count_mono (recent email (at - hour)) (recent email (c.now 1 - hour)) (λ r m. ground arith) rows,
)

step_codes-IsBounded :
    (cfg : Config) (now : ℕ) (rows : Rows) (c : CodeCall) (cs : List CodeCall)
    → IsTimed now (c ∷ cs)
    → IsBounded cfg now rows
    → IsBounded cfg (clock now c) (step_codes cfg rows c)
unfolding step_codes delete_expired_verifications Verifications.mark_used
step_codes-IsBounded cfg now rows (sends c k email purpose) cs t b =
    elim (send_otp-cases cfg c k email purpose rows) [
      | inl (same, none) ↦ rw same (λ u at later. b u at (omega (arith, t.0, t.1)))
      | inr (code, few, e) ↦ rw e (append-IsBounded cfg c email purpose code now rows t.0 t.1 few b)
    ]
step_codes-IsBounded cfg now rows (uses up i) cs t b = λ u at later.
    ground (
      arith,
      b u at,
      count-update_same (recent u (at - hour)) (has_id i) set_used (λ r m. refl) rows,
    )
step_codes-IsBounded cfg now rows (cleans c) cs t b = λ u at later.
    ground (arith, b u at, count-remove-le (recent u (at - hour)) (lapsed (c.now 0)) rows)

last-le : (before : ℕ) (cs : List CodeCall) → IsTimed before cs → before ≤ last before cs
last-le before [] t = omega arith
last-le before (sends c k email purpose ∷ cs) t = omega (arith, t.0, t.1, last-le (c.now 2) cs t.2)
last-le before (uses up i ∷ cs) t = last-le before cs t
last-le before (cleans c ∷ cs) t = last-le before cs t

-- A code that a call hands over stands in the table that it leaves.
issued-recent :
    (cfg : Config) (c : Call) (k : ℕ) (email purpose u : String) (since : ℕ) (rows : Rows)
    → count (recent u since) rows
        + (if is_issued (send_otp cfg c k email purpose rows).1
              && (email == u && leb since (c.now 2))
            then 1
            else 0)
      ≤ count (recent u since) (send_otp cfg c k email purpose rows).0
unfolding new_verification
issued-recent cfg c k email purpose u since rows =
    elim (send_otp-cases cfg c k email purpose rows) [
      | inl (same, unissued) ↦ rw (same, unissued) (omega arith)
      | inr (code, few, e) ↦ rw e (
          ground (
            arith,
            count-snoc (recent u since) rows (to_row (new_verification cfg c email purpose code)),
          ))
    ]

-- Marking a code as used keeps it in the count.
used-recent :
    (cfg : Config) (up : Bool) (i u : String) (since : ℕ) (rows : Rows)
    → count (recent u since) (step_codes cfg rows (uses up i)) ≡ count (recent u since) rows
unfolding step_codes Verifications.mark_used
used-recent cfg true i u since rows =
    count-update_same (recent u since) (has_id i) set_used (λ r m. refl) rows
used-recent cfg false i u since rows = refl

mails-le :
    (cfg : Config) (now : ℕ) (rows : Rows) (cs : List CodeCall) (u : String) (at : ℕ)
    → IsTimed now cs
    → IsBounded cfg now rows
    → last now cs ≤ at
    → count (is_mail u (at - hour)) (mails cfg rows cs) + count (recent u (at - hour)) rows
      ≤ allowance cfg.otp.max_per_hour cs
unfolding count mails
mails-le cfg now rows [] u at t b le = omega (arith, b u at le)
mails-le cfg now rows (sends c k email purpose ∷ cs) u at t b le = ground (
  arith,
  issued-recent cfg c k email purpose u (at - hour) rows,
  mails-le cfg (c.now 2) (step_codes cfg rows (sends c k email purpose)) cs u at t.2
      (step_codes-IsBounded cfg now rows (sends c k email purpose) cs t b) le,
)
mails-le cfg now rows (uses up i ∷ cs) u at t b le = omega (
  arith,
  used-recent cfg up i u (at - hour) rows,
  mails-le cfg now (step_codes cfg rows (uses up i)) cs u at t
      (step_codes-IsBounded cfg now rows (uses up i) cs t b) le,
)
mails-le cfg now rows (cleans c ∷ cs) u at t b le = ground (
  arith,
  b u at (omega (arith, le, last-le now cs t)),
  mails-le cfg now (step_codes cfg rows (cleans c)) cs u at t
      (step_codes-IsBounded cfg now rows (cleans c) cs t b) le,
)

-- From a table in which no address has more codes of the last hour than the limit, with a clock that does
-- not run backwards: of the codes that any sendOTP, uses of codes and deletions of expired ones hand over
-- for an address, the number in the hour before any time from the last call on is at most the limit, and
-- the limit once more for each of the deletions.
pub mails-bounded :
    (cfg : Config) (now : ℕ) (rows : Rows) (cs : List CodeCall) (email : String) (at : ℕ)
    → IsTimed now cs
    → IsBounded cfg now rows
    → last now cs ≤ at
    → count (is_mail email (at - hour)) (mails cfg rows cs) ≤ allowance cfg.otp.max_per_hour cs
mails-bounded cfg now rows cs email at t b le =
    omega (arith, mails-le cfg now rows cs email at t b le)
