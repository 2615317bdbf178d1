-- ===== src/UserAuth/Digits.antt =====
-- The one-time codes of internal/userauth/service.go are eight decimal digits, which read back as the
-- number that generateOTP makes.
use Prim.Native.Char.{code}
use peerclaw_server.Prelude.{
  ℕ, zero, suc, ◌+◌, ◌-◌, ◌*◌, ◌%◌, ◌/◌, ◌<◌, ◌≡◌, refl, ap, true, String, Option, none, some, List,
  [], ◌∷◌, ◌&&◌, leb, if◌then◌else◌, arith,
}
use peerclaw_server.ClaimToken.Code.{length}
use peerclaw_server.UserAuth.Codes.{char_at, digit, eight_digits, otp_number, generate_otp}

digit_code_below : (i : ℕ) → i < 10 → code (char_at "0123456789" i) ≡ 48 + i
digit_code_below zero h = refl
digit_code_below (suc zero) h = refl
digit_code_below (suc (suc zero)) h = refl
digit_code_below (suc (suc (suc zero))) h = refl
digit_code_below (suc (suc (suc (suc zero)))) h = refl
digit_code_below (suc (suc (suc (suc (suc zero))))) h = refl
digit_code_below (suc (suc (suc (suc (suc (suc zero)))))) h = refl
digit_code_below (suc (suc (suc (suc (suc (suc (suc zero))))))) h = refl
digit_code_below (suc (suc (suc (suc (suc (suc (suc (suc zero)))))))) h = refl
digit_code_below (suc (suc (suc (suc (suc (suc (suc (suc (suc zero))))))))) h = refl
digit_code_below (suc (suc (suc (suc (suc (suc (suc (suc (suc (suc i)))))))))) h = ground arith

digit_code : (n : ℕ) → code (digit n) ≡ 48 + n % 10
digit_code n = digit_code_below (n % 10) (omega arith)

-- strconv.Atoi on decimal digits: none where a character is no digit.
unfoldable pub read_decimal : String → ℕ → Option ℕ
read_decimal String.[] n = some n
read_decimal (String.◌∷◌ c s) n =
    let rest = read_decimal s (n * 10 + (code c - 48)) in
    if leb 48 (code c) && leb (code c) 57 then rest else none

digit_in_range : (i : ℕ) → i < 10 → leb 48 (48 + i) && leb (48 + i) 57 ≡ true
digit_in_range i h = ground arith

minus_plus : (i : ℕ) → 48 + i - 48 ≡ i
minus_plus i = omega arith

read-digit :
    (d n : ℕ) (s : String)
    → read_decimal (String.◌∷◌ (digit d) s) n ≡ read_decimal s (n * 10 + d % 10)
unfolding read_decimal
read-digit d n s =
    rw (digit_code d, digit_in_range (d % 10) (omega arith), minus_plus (d % 10)) refl

read_end : (n : ℕ) → read_decimal String.[] n ≡ some n
unfolding read_decimal
read_end n = refl

read-eight_digits : (n : ℕ) → n < 100_000_000 → read_decimal (eight_digits n) 0 ≡ some n
unfolding eight_digits
read-eight_digits n h =
    rw
      (
        read-digit (n / 10_000_000) 0,
        read-digit (n / 1_000_000),
        read-digit (n / 100_000),
        read-digit (n / 10_000),
        read-digit (n / 1_000),
        read-digit (n / 100),
        read-digit (n / 10),
        read-digit n,
        read_end,
      )
      (ap some (omega arith))

-- The number that bytes write in base 256, the first byte the most significant.
unfoldable pub big_endian : ℕ → List ℕ → ℕ
big_endian n [] = n
big_endian n (b ∷ bs) = big_endian (n * 256 + b) bs

-- With any random bytes generateOTP returns a code, eight decimal digits that read back as the number
-- that the four bytes write, big-endian, modulo 100000000.
pub read_decimal-generate_otp :
    (b : ℕ → ℕ)
    → b 0 < 256
    → b 1 < 256
    → b 2 < 256
    → b 3 < 256
    → (c : String) × (generate_otp (some b) ≡ some c)
      × (length c ≡ 8)
      × (read_decimal c 0 ≡ some (big_endian 0 (b 0 ∷ b 1 ∷ b 2 ∷ b 3 ∷ []) % 100_000_000))
unfolding generate_otp eight_digits otp_number big_endian
read_decimal-generate_otp b h0 h1 h2 h3 = (
  eight_digits (otp_number b),
  refl,
  refl,
  rw (read-eight_digits (otp_number b) (omega arith)) (ap some (omega (arith, h0, h1, h2, h3))),
)
