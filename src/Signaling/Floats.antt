-- ===== src/Signaling/Floats.antt =====
-- The float64 of messageLimiter of internal/signaling/ws.go, as a set of numbers with the operations that
-- the code uses. The laws are what IEEE 754 and Duration.Seconds document: they leave room for the rounding
-- of numbers up to a million.
use peerclaw_server.Prelude.{ℕ, ◌+◌, ◌*◌, ◌≤◌, ◌≡◌, Bool, true, false, second}

pub record Float64 : Type 1 where
  pub Carrier : Type 0
  pub one_token : Carrier
  pub plus : Carrier → Carrier → Carrier
  pub minus : Carrier → Carrier → Carrier
  pub times : Carrier → Carrier → Carrier
  pub below : Carrier → Carrier → Bool
  -- float64(n)
  pub of_int : ℕ → Carrier
  -- time.Duration(d).Seconds(), for the greatest Duration where d is above it, as Time.Sub has it
  pub seconds : ℕ → Carrier
  -- not NaN and not negative
  pub is_amount : Carrier → Bool
  -- the value in units of 1e-9, rounded up
  pub billionths : Carrier → ℕ

-- A million, in units of 1e-9. The errors of the operations are below one unit up to it.
abbrev pub most : ℕ
most = 1_000_000_000_000_000

pub record IsFloat64 (f : Float64) : Type 0 where
  pub ints :
      (n : ℕ)
      → n * second ≤ most
      → (f.is_amount (f.of_int n) ≡ true) × (f.billionths (f.of_int n) ≤ n * second)
  pub products_are_amounts :
      (d r : ℕ) → r * second ≤ most → f.is_amount (f.times (f.seconds d) (f.of_int r)) ≡ true
  pub products :
      (d r : ℕ)
      → r * second ≤ most
      → d * r ≤ most
      → f.billionths (f.times (f.seconds d) (f.of_int r)) ≤ d * r + 1
  pub sums_are_amounts :
      (a b : f.Carrier)
      → f.is_amount a ≡ true
      → f.is_amount b ≡ true
      → f.is_amount (f.plus a b) ≡ true
  pub sums :
      (a b : f.Carrier)
      → f.is_amount a ≡ true
      → f.is_amount b ≡ true
      → f.billionths a + f.billionths b ≤ most
      → f.billionths (f.plus a b) ≤ f.billionths a + f.billionths b + 1
  pub above :
      (n : ℕ) (a : f.Carrier)
      → n * second ≤ most
      → f.is_amount a ≡ true
      → f.below (f.of_int n) a ≡ true
      → n * second ≤ f.billionths a
  pub not_above :
      (n : ℕ) (a : f.Carrier)
      → n * second ≤ most
      → f.is_amount a ≡ true
      → f.below (f.of_int n) a ≡ false
      → f.billionths a ≤ n * second
  -- One from a number between 1 and a million is exact.
  pub spends :
      (a : f.Carrier)
      → f.is_amount a ≡ true
      → f.billionths a ≤ most
      → f.below a f.one_token ≡ false
      → (f.is_amount (f.minus a f.one_token) ≡ true)
        × (f.billionths (f.minus a f.one_token) + second ≤ f.billionths a)
