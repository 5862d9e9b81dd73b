-- ===== src/Idgen.antt =====
-- internal/idgen
pub mod Snowflake
pub mod Lease
pub mod Random
