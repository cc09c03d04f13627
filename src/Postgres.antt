-- ===== src/Postgres.antt =====
-- sqlx-postgres: the driver for PostgreSQL.
pub mod Pgpass
pub mod Numeric
pub mod Frontend
pub mod TypeInfo
pub mod Backend
