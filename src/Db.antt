-- ===== src/Db.antt =====
-- The database that services/api/internal/database reads and writes, and its transactions.
-- A table is the list of its rows; a transaction runs alone (it is serializable, or it locks the
-- rows it reads), and one that returns an error is rolled back: it gives no new database.
mod Rows
mod Statements
mod Inversion
pub use Rows.*
pub use Inversion.*
unfoldable pub use Statements.*
