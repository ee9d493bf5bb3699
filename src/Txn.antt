-- ===== src/Txn.antt =====
-- The crate crabstash-txn.
pub mod Timestamp
pub mod WriteSet
pub mod Transaction
pub mod Engine
