-- ===== src/Sql.antt =====
-- What the SQL statements of the program mean on a table, a list of rows in insertion order.
pub mod Rows
pub mod Select
pub mod Collate
pub mod Like
