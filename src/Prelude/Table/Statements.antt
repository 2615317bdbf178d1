-- ===== src/Prelude/Table/Statements.antt =====
-- The SQL statements over one table, whose rows stand in a list in the order of insertion.
-- A WHERE clause is a Boolean test on the row.
use Prim.Native.Nat.{ℕ, ◌+◌}
use mathlib.Core.Bool.{Bool}
use mathlib.Core.Option.{Option, none, some}
use mathlib.Core.List.{List, [], ◌∷◌}
use peerclaw_server.Prelude.Tests.{if◌then◌else◌}

module _ {ℓ} {A : Type ℓ} where
  -- SELECT COUNT(*) … WHERE p
  unfoldable pub count : (A → Bool) → List A → ℕ
  count p [] = 0
  count p (r ∷ rows) = (if p r then 1 else 0) + count p rows

  -- SELECT … WHERE p, read by QueryRow: the first row, if any.
  unfoldable pub find? : (A → Bool) → List A → Option A
  find? p [] = none
  find? p (r ∷ rows) = if p r then some r else find? p rows

  -- SELECT … WHERE p, all rows.
  unfoldable pub select : (A → Bool) → List A → List A
  select p [] = []
  select p (r ∷ rows) = let rest = select p rows in if p r then r ∷ rest else rest

  -- DELETE … WHERE p
  unfoldable pub remove : (A → Bool) → List A → List A
  remove p [] = []
  remove p (r ∷ rows) = let rest = remove p rows in if p r then rest else r ∷ rest

  -- UPDATE … SET f WHERE p
  unfoldable pub update : (A → Bool) → (A → A) → List A → List A
  update p f [] = []
  update p f (r ∷ rows) = (if p r then f r else r) ∷ update p f rows
