-- ===== src/Prelude/Table/Pairs.antt =====
-- Two tables that hold the same rows in two representations, and the statements on both.
use Prim.Native.Nat.{◌≤◌}
use mathlib.Core.Path.{◌≡◌, refl}
use mathlib.Core.Logic.{inl, inr}
use mathlib.Core.Bool.{Bool, true}
use mathlib.Core.List.{List, [], ◌∷◌, ◌++◌}
use native.Mathlib.Omega.{arith}
use peerclaw_server.Prelude.Tests.{Bool-cases}
use peerclaw_server.Prelude.Results.{Result, ok, err}
use peerclaw_server.Prelude.Table.Statements.{count, remove, update}

-- Row by row.
abbrev pub Related {ℓ κ} : {A : Type ℓ} {B : Type κ} → (A → B → Type 0) → List A → List B → Type 0
Related R [] [] = Unit
Related R [] (y ∷ ys) = ⊥
Related R (x ∷ xs) [] = ⊥
Related R (x ∷ xs) (y ∷ ys) = R x y × Related R xs ys

-- Both results are values that are related, or the same error.
abbrev pub Agree {ℓ κ} :
    {E : Type 0} {A : Type ℓ} {B : Type κ} → (A → B → Type 0) → Result E A → Result E B → Type 0
Agree R (ok a) (ok b) = R a b
Agree R (ok a) (err e) = ⊥
Agree R (err e) (ok b) = ⊥
Agree R (err e) (err f) = e ≡ f

module _ {ℓ κ} {A : Type ℓ} {B : Type κ} (R : A → B → Type 0) where
  pub Related-snoc :
      (xs : List A) (ys : List B) (x : A) (y : B)
      → Related R xs ys
      → R x y
      → Related R (xs ++ x ∷ []) (ys ++ y ∷ [])
  Related-snoc [] [] x y h r = (r, tt)
  Related-snoc [] (b ∷ ys) x y h r = absurd h
  Related-snoc (a ∷ xs) [] x y h r = absurd h
  Related-snoc (a ∷ xs) (b ∷ ys) x y h r = (h.0, Related-snoc xs ys x y h.1 r)

  -- The other way round.
  pub flipped : (xs : List A) (ys : List B) → Related R xs ys → Related (λ y x. R x y) ys xs
  flipped [] [] h = tt
  flipped [] (y ∷ ys) h = absurd h
  flipped (x ∷ xs) [] h = absurd h
  flipped (x ∷ xs) (y ∷ ys) h = (h.0, flipped xs ys h.1)

  pub count-Related :
      (p : A → Bool) (q : B → Bool)
      → ((x : A) (y : B) → R x y → p x ≡ q y)
      → (xs : List A) (ys : List B) → Related R xs ys
      → count p xs ≡ count q ys
  unfolding count
  count-Related p q f [] [] h = refl
  count-Related p q f [] (y ∷ ys) h = absurd h
  count-Related p q f (x ∷ xs) [] h = absurd h
  count-Related p q f (x ∷ xs) (y ∷ ys) h = ground (arith, f x y h.0, count-Related p q f xs ys h.1)

  pub count-Related-le :
      (p : A → Bool) (q : B → Bool)
      → ((x : A) (y : B) → R x y → p x ≡ true → q y ≡ true)
      → (xs : List A) (ys : List B) → Related R xs ys
      → count p xs ≤ count q ys
  unfolding count
  count-Related-le p q f [] [] h = omega arith
  count-Related-le p q f [] (y ∷ ys) h = absurd h
  count-Related-le p q f (x ∷ xs) [] h = absurd h
  count-Related-le p q f (x ∷ xs) (y ∷ ys) h =
      ground (arith, f x y h.0, count-Related-le p q f xs ys h.1)

  pub update-Related :
      (p : A → Bool) (q : B → Bool) (f : A → A) (g : B → B)
      → ((x : A) (y : B) → R x y → p x ≡ q y)
      → ((x : A) (y : B) → R x y → R (f x) (g y))
      → (xs : List A) (ys : List B) → Related R xs ys
      → Related R (update p f xs) (update q g ys)
  unfolding update
  update-Related p q f g e k [] [] h = tt
  update-Related p q f g e k [] (y ∷ ys) h = absurd h
  update-Related p q f g e k (x ∷ xs) [] h = absurd h
  update-Related p q f g e k (x ∷ xs) (y ∷ ys) h = elim (Bool-cases (q y)) [
    | inl t ↦ rw (e x y h.0, t) (k x y h.0, update-Related p q f g e k xs ys h.1)
    | inr t ↦ rw (e x y h.0, t) (h.0, update-Related p q f g e k xs ys h.1)
  ]

  pub remove-Related :
      (p : A → Bool) (q : B → Bool)
      → ((x : A) (y : B) → R x y → p x ≡ q y)
      → (xs : List A) (ys : List B) → Related R xs ys
      → Related R (remove p xs) (remove q ys)
  unfolding remove
  remove-Related p q f [] [] h = tt
  remove-Related p q f [] (y ∷ ys) h = absurd h
  remove-Related p q f (x ∷ xs) [] h = absurd h
  remove-Related p q f (x ∷ xs) (y ∷ ys) h = elim (Bool-cases (q y)) [
    | inl e ↦ rw (f x y h.0, e) (remove-Related p q f xs ys h.1)
    | inr e ↦ rw (f x y h.0, e) (h.0, remove-Related p q f xs ys h.1)
  ]
