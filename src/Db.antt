-- ===== src/Db.antt =====
-- crates/crabstash/src/lib.rs: the front of the store.
pub mod Prefix
