-- ===== src/Postgres/Backend.antt =====
-- sqlx-postgres/src/message: what the server sends.
pub mod DataRow
pub mod Notice
mod Tests
pub mod RowDescription
