-- ===== src/Prelude/Table/Changes.antt =====
-- Counts and searches after a deletion or an update of other rows.
use Prim.Native.Nat.{◌+◌, ◌≤◌, ◌<◌}
use mathlib.Core.Path.{◌≡◌, refl}
use mathlib.Core.Bool.{Bool, true, false, ◌||◌, ◌&&◌, not}
use mathlib.Core.Option.{Option, none, some}
use mathlib.Core.List.{List, [], ◌∷◌}
use native.Mathlib.Omega.{arith}
use peerclaw_server.Prelude.Tests.{ltb}
use peerclaw_server.Prelude.Table.Statements.{count, find?, remove, update}
use peerclaw_server.Prelude.Table.Counts.{find?-none, count_mono}
use peerclaw_server.Prelude.Table.Searches.{count_of_found}

module _ {ℓ} {A : Type ℓ} (p q : A → Bool) where
  pub count-or_absent :
      (xs : List A) → count p xs ≡ 0 → count q xs ≡ 0 → count (λ r. p r || q r) xs ≡ 0
  unfolding count
  count-or_absent [] h k = refl
  count-or_absent (x ∷ xs) h k = ground (arith, count-or_absent xs)

-- The test of a found row.
abbrev pub passes {ℓ} : {A : Type ℓ} → (A → Bool) → Option A → Bool
passes g none = false
passes g (some r) = g r

module _ {ℓ} {A : Type ℓ} (p g : A → Bool) where
  -- Where one row at most meets `p`, a count of `p AND g` is above 0 exactly if that row passes `g`.
  pub count-narrow :
      (xs : List A) → count p xs ≤ 1 → ltb 0 (count (λ r. p r && g r) xs) ≡ passes g (find? p xs)
  unfolding count find?
  count-narrow [] h = refl
  count-narrow (x ∷ xs) h = ground (
    arith,
    count-narrow xs,
    find?-none p xs,
    count_mono (λ r. p r && g r) p (λ r m. ground arith) xs,
  )

  -- An update that makes no row meet the test does not increase its count.
  pub count-update-le :
      (f : A → A)
      → ((r : A) → g r ≡ true → p (f r) ≡ true → p r ≡ true)
      → (xs : List A) → count p (update g f xs) ≤ count p xs
  unfolding count update
  count-update-le f h [] = omega arith
  count-update-le f h (x ∷ xs) = ground (arith, h x, count-update-le f h xs)

module _ {ℓ} {A : Type ℓ} (p q : A → Bool) where
  pub find?-remove-none : (xs : List A) → find? p xs ≡ none → find? p (remove q xs) ≡ none
  unfolding find? remove
  find?-remove-none [] h = refl
  find?-remove-none (x ∷ xs) h = ground (arith, find?-remove-none xs)

  -- Deleting the only row that meets the test.
  pub find?-remove_hit :
      (xs : List A) (r : A)
      → count p xs ≤ 1
      → find? p xs ≡ some r
      → q r ≡ true
      → find? p (remove q xs) ≡ none
  unfolding count find? remove
  find?-remove_hit [] r u h e = refl
  find?-remove_hit (x ∷ xs) r u h e =
      ground (arith, find?-remove_hit xs r, find?-none p xs, find?-remove-none xs)

  -- Deleting other rows than the one that is found.
  pub find?-remove_miss :
      (xs : List A) (r : A) → find? p xs ≡ some r → q r ≡ false → find? p (remove q xs) ≡ some r
  unfolding find? remove
  find?-remove_miss [] r h e = ground arith
  find?-remove_miss (x ∷ xs) r h e = ground (arith, find?-remove_miss xs r)

module _ {ℓ} {A : Type ℓ} (p : A → Bool) where
  -- An UPDATE whose WHERE clause no row meets changes nothing.
  pub update-absent : (f : A → A) (xs : List A) → find? p xs ≡ none → update p f xs ≡ xs
  unfolding find? update
  update-absent f [] h = refl
  update-absent f (x ∷ xs) h = ground (arith, update-absent f xs)

module _ {ℓ} {A : Type ℓ} (p g : A → Bool) where
  -- An UPDATE that keeps what a test says yes to does not lower its count.
  pub count-update-ge :
      (f : A → A)
      → ((r : A) → g r ≡ true → p r ≡ true → p (f r) ≡ true)
      → (xs : List A) → count p xs ≤ count p (update g f xs)
  unfolding count update
  count-update-ge f h [] = omega arith
  count-update-ge f h (x ∷ xs) = ground (arith, h x, count-update-ge f h xs)

  -- Rows that meet two tests that exclude each other are counted apart by a wider test.
  pub count-apart :
      (q : A → Bool)
      → ((r : A) → p r ≡ true → q r ≡ true)
      → ((r : A) → g r ≡ true → q r ≡ true)
      → ((r : A) → p r ≡ true → g r ≡ false)
      → (xs : List A) → count p xs + count g xs ≤ count q xs
  unfolding count
  count-apart q h k d [] = omega arith
  count-apart q h k d (x ∷ xs) = ground (arith, h x, k x, d x, count-apart q h k d xs)

  -- An UPDATE that makes each row it changes meet a test leaves one such row, if it changes any.
  pub count-update-turn :
      (f : A → A)
      → ((r : A) → g r ≡ true → p (f r) ≡ true)
      → (xs : List A) → 0 < count g xs
      → 0 < count p (update g f xs)
  unfolding count update
  count-update-turn f h [] c = ground arith
  count-update-turn f h (x ∷ xs) c = ground (arith, h x, count-update-turn f h xs)

module _ {ℓ} {A : Type ℓ} (p q : A → Bool) where
  -- An UPDATE of the only row of a test `q`, which is also the only one of a test `p` and stays so.
  pub find?-update_hit :
      (f : A → A) (xs : List A) (r : A)
      → count q xs ≤ 1
      → count p xs ≤ 1
      → find? q xs ≡ some r
      → p r ≡ true
      → p (f r) ≡ true
      → find? p (update q f xs) ≡ some (f r)
  unfolding count find? update
  find?-update_hit f [] r one one' e h k = ground arith
  find?-update_hit f (x ∷ xs) r one one' e h k =
      ground (arith, find?-update_hit f xs r, count_of_found p q xs r)

module _ {ℓ} {A : Type ℓ} (p g : A → Bool) where
  -- After an UPDATE, rows that meet a test are rows that it changed or that met the test before.
  pub count-update-split :
      (f : A → A) (xs : List A)
      → count p (update g f xs) ≤ count g xs + count (λ r. p r && not (g r)) xs
  unfolding count update
  count-update-split f [] = omega arith
  count-update-split f (x ∷ xs) = ground (arith, count-update-split f xs)

  pub count-split : (xs : List A) → count p xs ≤ count g xs + count (λ r. p r && not (g r)) xs
  unfolding count
  count-split [] = omega arith
  count-split (x ∷ xs) = ground (arith, count-split xs)
