-- ===== src/Sqlite.antt =====
-- The crate sqlx-sqlite.
pub mod IntMap
pub mod Worker
pub mod Explain
