-- ===== src/Lock/Ssi.antt =====
-- crabstash-lock/src/ssi.rs: serializable snapshot isolation.
pub mod Bloom
pub mod RwSet
pub mod Manager
pub mod Validate
pub mod Writers
pub mod Accept
pub mod Stale
pub mod History
