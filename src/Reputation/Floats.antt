-- ===== src/Reputation/Floats.antt =====
-- The float64 of internal/reputation/engine.go, as a set of numbers with the operations that the code
-- uses. The laws are what IEEE 754 and the package math document.
use peerclaw_server.Prelude.{◌≡◌, Bool, true, false}

pub record Float64 : Type 1 where
  pub Carrier : Type 0
  pub zero_score : Carrier
  pub one_score : Carrier
  pub half_score : Carrier
  pub plus : Carrier → Carrier → Carrier
  pub minus : Carrier → Carrier → Carrier
  pub times : Carrier → Carrier → Carrier
  pub max : Carrier → Carrier → Carrier
  pub min : Carrier → Carrier → Carrier
  pub at_most : Carrier → Carrier → Bool
  pub is_nan : Carrier → Bool

-- In [0, 1].
abbrev pub IsUnit : (f : Float64) → f.Carrier → Type 0
IsUnit f x = (f.at_most f.zero_score x ≡ true) × (f.at_most x f.one_score ≡ true)

-- math.Max(0, math.Min(1, x)) is in [0, 1] unless x is NaN, and a sum of products of numbers in [0, 1] is
-- not NaN; one minus such a number is in [0, 1] again, and so is the default score.
pub record IsFloat64 (f : Float64) : Type 0 where
  pub clamps :
      (x : f.Carrier) → f.is_nan x ≡ false → IsUnit f (f.max f.zero_score (f.min f.one_score x))
  pub adds :
      (a b c d : f.Carrier)
      → IsUnit f a
      → IsUnit f b
      → IsUnit f c
      → IsUnit f d
      → f.is_nan (f.plus (f.times a b) (f.times c d)) ≡ false
  pub complements : (a : f.Carrier) → IsUnit f a → IsUnit f (f.minus f.one_score a)
  pub half_IsUnit : IsUnit f f.half_score
