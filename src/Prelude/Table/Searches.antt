-- ===== src/Prelude/Table/Searches.antt =====
-- What the statements do to the row that a query finds, and to a property of all rows.
use Prim.Native.Nat.{◌≤◌, ◌<◌}
use mathlib.Core.Path.{◌≡◌, refl}
use mathlib.Core.Logic.{inl, inr}
use mathlib.Core.Bool.{Bool, true, ◌||◌}
use mathlib.Core.Option
use mathlib.Core.Option.{Option, none, some}
use mathlib.Core.List.{List, [], ◌∷◌, ◌++◌}
use native.Mathlib.Omega.{arith}
use peerclaw_server.Prelude.Tests.{if◌then◌else◌, Bool-cases}
use peerclaw_server.Prelude.Lists.{All}
use peerclaw_server.Prelude.Table.Statements.{count, find?, remove, update}

module _ {ℓ} {A : Type ℓ} where
  pub find?-snoc :
      (p : A → Bool) (xs : List A) (r : A)
      → find? p xs ≡ none
      → find? p (xs ++ r ∷ []) ≡ (if p r then some r else none)
  unfolding find?
  find?-snoc p [] r h = refl
  find?-snoc p (x ∷ xs) r h = ground (arith, find?-snoc p xs r)

module _ {ℓ κ} {A : Type ℓ} (P : A → Type κ) where
  pub All-remove : (p : A → Bool) (xs : List A) → All P xs → All P (remove p xs)
  unfolding remove
  All-remove p [] a = a
  All-remove p (x ∷ xs) a = ground (arith, All-remove p xs a.1)

  pub All-update :
      (p : A → Bool) (f : A → A)
      → ((r : A) → p r ≡ true → P r → P (f r))
      → (xs : List A) → All P xs
      → All P (update p f xs)
  unfolding update
  All-update p f h [] a = a
  All-update p f h (x ∷ xs) a = elim (Bool-cases (p x)) [
    | inl e ↦ rw e (h x e a.0, All-update p f h xs a.1)
    | inr e ↦ rw e (a.0, All-update p f h xs a.1)
  ]

module _ {ℓ} {A : Type ℓ} (p q : A → Bool) where
  -- A test that no row meets adds nothing to a deletion.
  pub remove-or_absent : (xs : List A) → count p xs ≡ 0 → remove (λ r. p r || q r) xs ≡ remove q xs
  unfolding count remove
  remove-or_absent [] h = refl
  remove-or_absent (x ∷ xs) h = ground (arith, remove-or_absent xs)

  -- A found row counts for every test that it meets.
  pub count_of_found : (xs : List A) (r : A) → find? q xs ≡ some r → p r ≡ true → 0 < count p xs
  unfolding count find?
  count_of_found [] r h e = ground arith
  count_of_found (x ∷ xs) r h e = ground (arith, count_of_found xs r)

  -- A test that one row at most meets finds the same row as any other that it passes.
  pub find?_unique :
      (xs : List A) (g r : A)
      → count p xs ≤ 1
      → find? p xs ≡ some g
      → find? q xs ≡ some r
      → p r ≡ true
      → r ≡ g
  unfolding count find?
  find?_unique [] g r u h k e = ground arith
  find?_unique (x ∷ xs) g r u h k e = ground (arith, find?_unique xs g r, count_of_found xs r)

  -- An update that keeps the tested columns finds the same row, updated.
  pub find?-update :
      (f : A → A)
      → ((r : A) → p (f r) ≡ p r)
      → (xs : List A)
      → find? p (update q f xs) ≡ Option.map (λ r. if q r then f r else r) (find? p xs)
  unfolding find? update
  find?-update f h [] = refl
  find?-update f h (x ∷ xs) = ground (arith, h x, find?-update f h xs)

module _ {ℓ} {A : Type ℓ} where
  pub find?-snoc_some :
      (p : A → Bool) (xs : List A) (r a : A) → find? p xs ≡ some a → find? p (xs ++ r ∷ []) ≡ some a
  unfolding find?
  find?-snoc_some p [] r a h = ground arith
  find?-snoc_some p (x ∷ xs) r a h = ground (arith, find?-snoc_some p xs r a)
