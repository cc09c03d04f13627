-- ===== src/Mysql.antt =====
-- sqlx-mysql: the driver for MySQL.
pub mod Time
pub mod LengthEncoded
pub mod Packet
pub mod Response
pub mod Ready
