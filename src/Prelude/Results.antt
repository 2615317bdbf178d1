-- ===== src/Prelude/Results.antt =====
-- The pair `(value, error)` that a Go function returns, of which callers read one side.
use mathlib.Core.Path.{◌≡◌, refl, subst}
use mathlib.Core.Logic.{◌⊎◌, inl, inr}

pub data Result {ℓ κ} (E : Type ℓ) (A : Type κ) : Type (ℓ ⊔ κ) where
  ok : A → Result E A
  err : E → Result E A

pub Result-cases {ℓ κ} :
    {E : Type ℓ} {A : Type κ} (r : Result E A) → ((a : A) × (r ≡ ok a)) ⊎ ((e : E) × (r ≡ err e))
Result-cases (ok a) = inl (a, refl)
Result-cases (err e) = inr (e, refl)

-- What holds of the value, where there is one.
abbrev pub OnOk {ℓ κ μ} : {E : Type ℓ} {A : Type κ} → (A → Type μ) → Result E A → Type μ
OnOk P (ok a) = P a
OnOk P (err e) = Unit

pub at_ok {ℓ κ μ} :
    {E : Type ℓ} {A : Type κ} (P : A → Type μ) (r : Result E A) (a : A) → OnOk P r → r ≡ ok a → P a
at_ok P r a h e = subst (OnOk P) e h
