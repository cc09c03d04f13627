-- ===== src/Core.antt =====
-- The crate sqlx-core.
pub mod WriteBuffer
pub mod Migrate
pub mod Pool
pub mod Transaction
pub mod BufExt
pub mod ReadBuffer
