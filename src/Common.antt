-- ===== src/Common.antt =====
-- The crate crabstash-common.
pub mod Error
pub mod Simd
pub mod Key
