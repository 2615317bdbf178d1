-- ===== src/Prelude/Database.antt =====
-- What a call of the stores takes from outside: the clock and the database driver.
-- Times are nanoseconds since the epoch, as `time.Now()` gives them.
use Prim.Native.Nat.{ℕ, ◌*◌, ◌/◌}
use Prim.Native.String.{String}
use mathlib.Core.Bool.{Bool, true}
use mathlib.Core.Option.{Option, none, some}
use mathlib.Core.Option
use peerclaw_server.Prelude.Tests.{ltb}

-- For the statements of one call, counted from 0: whether the driver runs it. A statement that it
-- does not run returns an error and changes nothing.
abbrev pub Driver : Type 0
Driver = ℕ → Bool

-- The errors of a store: the driver's, a violated UNIQUE or PRIMARY KEY constraint, no row.
pub data StoreError : Type 0 where
  driver constraint not_found : StoreError

abbrev pub second : ℕ
second = 1_000_000_000

-- The time that is read back after `Format(time.RFC3339)`: whole seconds. The texts of two times
-- compare as the times do.
abbrev pub rfc3339 : ℕ → ℕ
rfc3339 t = t / second * second

-- The same for a column that may be NULL.
abbrev pub rfc3339_null : Option ℕ → Option ℕ
rfc3339_null = Option.map rfc3339

-- `expires_at IS NULL OR expires_at > ?`
abbrev pub unexpired : ℕ → Option ℕ → Bool
unexpired now none = true
unexpired now (some e) = ltb (rfc3339 now) e

-- What one call takes from outside, each counted from 0: the driver's verdicts, the new UUIDs and
-- the readings of the clock.
pub record Env : Type 0 where
  pub up : Driver
  pub uuid : ℕ → String
  pub now : ℕ → ℕ
