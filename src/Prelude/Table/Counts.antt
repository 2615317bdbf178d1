-- ===== src/Prelude/Table/Counts.antt =====
-- What the statements do to the number of rows that meet a test.
use Prim.Native.Nat.{◌+◌, ◌≤◌, ◌<◌}
use mathlib.Core.Path.{◌≡◌, refl}
use mathlib.Core.Logic.{inl, inr}
use mathlib.Core.Bool.{Bool, true, false}
use mathlib.Core.Option.{none, some}
use mathlib.Core.List.{List, [], ◌∷◌, ◌++◌}
use native.Mathlib.Omega.{arith}
use peerclaw_server.Prelude.Tests.{if◌then◌else◌, Bool-cases}
use peerclaw_server.Prelude.Lists.{All}
use peerclaw_server.Prelude.Table.Statements.{count, find?, remove, update}

module _ {ℓ} {A : Type ℓ} (p : A → Bool) where
  pub count-append : (xs ys : List A) → count p (xs ++ ys) ≡ count p xs + count p ys
  unfolding count
  count-append [] ys = omega arith
  count-append (x ∷ xs) ys = omega (arith, count-append xs ys)

  -- With one more row at the end.
  pub count-snoc :
      (xs : List A) (r : A) → count p (xs ++ r ∷ []) ≡ count p xs + (if p r then 1 else 0)
  unfolding count
  count-snoc xs r = omega (arith, count-append xs (r ∷ []))

  -- The row that QueryRow finds meets the test.
  pub find?-holds : (xs : List A) (r : A) → find? p xs ≡ some r → p r ≡ true
  unfolding find?
  find?-holds [] r h = ground arith
  find?-holds (x ∷ xs) r h = ground (arith, find?-holds xs r)

  -- A count of 0 and a search that finds nothing are the same.
  pub find?-none : (xs : List A) → count p xs ≡ 0 → find? p xs ≡ none
  unfolding count find?
  find?-none [] h = refl
  find?-none (x ∷ xs) h = ground (arith, find?-none xs)

  pub count_of_find?-none : (xs : List A) → find? p xs ≡ none → count p xs ≡ 0
  unfolding count find?
  count_of_find?-none [] h = refl
  count_of_find?-none (x ∷ xs) h = ground (arith, count_of_find?-none xs)

  pub count_of_find?-some : (xs : List A) (r : A) → find? p xs ≡ some r → 0 < count p xs
  unfolding count find?
  count_of_find?-some [] r h = ground arith
  count_of_find?-some (x ∷ xs) r h = ground (arith, count_of_find?-some xs r)

  -- What holds of all rows holds of the one found.
  pub find?-All {κ} : (P : A → Type κ) (xs : List A) (r : A) → All P xs → find? p xs ≡ some r → P r
  unfolding find?
  find?-All P [] r a h = absurd (ground arith)
  find?-All P (x ∷ xs) r a h = elim (Bool-cases (p x)) [
    | inl e ↦ ground (arith, a.0)
    | inr e ↦ find?-All P xs r a.1 (ground arith)
  ]

  -- A count is not increased by deletion.
  pub count-remove-le : (q : A → Bool) (xs : List A) → count p (remove q xs) ≤ count p xs
  unfolding count remove
  count-remove-le q [] = omega arith
  count-remove-le q (x ∷ xs) = ground (arith, count-remove-le q xs)

module _ {ℓ} {A : Type ℓ} (p q : A → Bool) where
  -- Deleting all rows of a wider test leaves none of the narrower one.
  pub count-remove_within :
      ((r : A) → p r ≡ true → q r ≡ true) → (xs : List A) → count p (remove q xs) ≡ 0
  unfolding count remove
  count-remove_within h [] = refl
  count-remove_within h (x ∷ xs) = ground (arith, h x, count-remove_within h xs)

  -- Deleting rows of a disjoint test changes no count.
  pub count-remove_apart :
      ((r : A) → p r ≡ true → q r ≡ false) → (xs : List A) → count p (remove q xs) ≡ count p xs
  unfolding count remove
  count-remove_apart h [] = refl
  count-remove_apart h (x ∷ xs) = ground (arith, h x, count-remove_apart h xs)

  pub find?-remove_within :
      ((r : A) → p r ≡ true → q r ≡ true) → (xs : List A) → find? p (remove q xs) ≡ none
  unfolding find? remove
  find?-remove_within h [] = refl
  find?-remove_within h (x ∷ xs) = ground (arith, h x, find?-remove_within h xs)

  pub find?-remove_apart :
      ((r : A) → p r ≡ true → q r ≡ false) → (xs : List A) → find? p (remove q xs) ≡ find? p xs
  unfolding find? remove
  find?-remove_apart h [] = refl
  find?-remove_apart h (x ∷ xs) = ground (arith, h x, find?-remove_apart h xs)

  -- An update that keeps the tested columns changes no count.
  pub count-update_same :
      (f : A → A)
      → ((r : A) → q r ≡ true → p (f r) ≡ p r)
      → (xs : List A) → count p (update q f xs) ≡ count p xs
  unfolding count update
  count-update_same f h [] = refl
  count-update_same f h (x ∷ xs) = ground (arith, h x, count-update_same f h xs)

  -- A test that is narrower counts no more rows.
  pub count_mono : ((r : A) → p r ≡ true → q r ≡ true) → (xs : List A) → count p xs ≤ count q xs
  unfolding count
  count_mono h [] = omega arith
  count_mono h (x ∷ xs) = ground (arith, h x, count_mono h xs)
