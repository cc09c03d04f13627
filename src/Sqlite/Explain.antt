-- ===== src/Sqlite/Explain.antt =====
-- sqlx-sqlite/src/connection/explain.rs: the types of the columns of a query, found by following its
-- bytecode over descriptions of the registers, cursors and tables.
pub mod Types
pub mod Opcodes
pub mod Memory
pub mod Control
pub mod Cursors
pub mod Values
pub mod Step
pub mod Equality
pub mod Branches
pub mod Output
mod Tests
pub mod Safety
pub mod Merging
pub mod Records
pub mod Nulls
