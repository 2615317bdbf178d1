-- ===== src/Prelude/Table.antt =====
-- SQL statements as functions on lists of rows, and their lemmas, for the stores.
mod Statements
mod Counts
mod Searches
mod Changes
mod Pairs
unfoldable pub use Statements.{count, find?, select, remove, update}
pub use Counts.*
pub use Searches.*
pub use Changes.*
pub use Pairs.*
