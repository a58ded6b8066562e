-- ===== src/Sql/Rows.antt =====
-- The statements on one table, and their lemmas.
mod Table
mod Changes
mod Keyed
mod Every
unfoldable pub use Table.*
pub use Changes.*
pub use Keyed.*
pub use Every.*
