-- ===== src/Prelude/Maps.antt =====
-- A Go map with string keys, as a list of entries in which a key stands once.
use Prim.Native.Nat.{suc, ◌≤◌}
use Prim.Native.String.{String}
use mathlib.Core.Path.{◌≡◌, refl}
use mathlib.Core.Option.{Option, none, some}
use mathlib.Core.List.{List, [], ◌∷◌}
use native.Mathlib.Omega.{arith}
use text.Mathlib.Text.{◌==◌}
use text.Mathlib.TextEquality.{eq_iff}
use peerclaw_server.Prelude.Tests.{if◌then◌else◌}
use peerclaw_server.Prelude.Lists.{length}

abbrev pub Map {ℓ} : Type ℓ → Type ℓ
Map V = List (String × V)

module _ {ℓ} {V : Type ℓ} where
  -- `v, ok := m[k]`
  unfoldable pub get : String → Map V → Option V
  get k [] = none
  get k ((j, v) ∷ m) = if j == k then some v else get k m

  -- `delete(m, k)`
  unfoldable pub del : String → Map V → Map V
  del k [] = []
  del k ((j, v) ∷ m) = if j == k then del k m else (j, v) ∷ del k m

  -- `m[k] = v`
  unfoldable pub put : String → V → Map V → Map V
  unfolding del
  put k v m = (k, v) ∷ del k m

  pub get-del : (j k : String) (m : Map V) → get j (del k m) ≡ (if k == j then none else get j m)
  unfolding get del
  get-del j k [] = ground arith
  get-del j k ((i, v) ∷ m) = ground (arith, get-del j k m, eq_iff i k, eq_iff i j, eq_iff k j)

  pub get-put :
      (j k : String) (v : V) (m : Map V) → get j (put k v m) ≡ (if k == j then some v else get j m)
  unfolding get put
  get-put j k v m = ground (arith, get-del j k m)

  pub length-del-le : (k : String) (m : Map V) → length (del k m) ≤ length m
  unfolding del
  length-del-le k [] = omega arith
  length-del-le k ((j, v) ∷ m) = ground (arith, length-del-le k m)

  -- An assignment to a present key does not make the map larger.
  pub length-put-le :
      (k : String) (v w : V) (m : Map V) → get k m ≡ some w → length (put k v m) ≤ length m
  unfolding get put
  length-put-le k v w [] h = ground arith
  length-put-le k v w ((j, x) ∷ m) h = ground (arith, length-put-le k v w m, length-del-le k m)

  del-absent : (k : String) (m : Map V) → get k m ≡ none → length (del k m) ≡ length m
  unfolding get del
  del-absent k [] h = refl
  del-absent k ((j, x) ∷ m) h = ground (arith, del-absent k m)

  -- An assignment to an absent key adds one entry.
  pub length-put-new :
      (k : String) (v : V) (m : Map V) → get k m ≡ none → length (put k v m) ≡ suc (length m)
  unfolding put
  length-put-new k v m h = omega (arith, del-absent k m h)
