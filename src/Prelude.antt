-- ===== src/Prelude.antt =====
-- The names that the other modules share: the libraries', passed on, the tests on numbers and
-- texts, the list functions over native numbers, the results of fallible Go functions, and the SQL
-- statements of the stores as functions on lists of rows.
mod Tests
mod Lists
pub mod Maps
mod Results
mod Database
pub mod Table
pub use Tests.*
pub use Lists.*
pub use Results.*
pub use Database.*
pub use Prim.Native.Nat.{ℕ, zero, suc, ◌+◌, ◌-◌, ◌*◌, ◌/◌, ◌%◌, ◌^◌, ◌≤◌, ◌<◌}
pub use Prim.Native.String.{String}
pub use mathlib.Core.Path.{◌≡◌, refl, sym, ap, ◌∙◌, subst}
pub use mathlib.Core.Logic.{◌≢◌, ◌↔◌, ◌⊎◌, inl, inr}
pub use mathlib.Core.Bool.{Bool, true, false, ◌&&◌, ◌||◌, not}
pub use mathlib.Core.Option.{Option, none, some}
pub use mathlib.Core.List.{List, [], ◌∷◌, ◌++◌, map}
pub use native.Mathlib.Omega.{arith}
pub use text.Mathlib.Text.{◌==◌}
pub use text.Mathlib.TextEquality.{eq_iff}
pub use text.Mathlib.TextPositions.{eq_refl}
