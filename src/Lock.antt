-- ===== src/Lock.antt =====
-- The crate crabstash-lock.
pub mod Mode
pub mod Error
pub mod Entry
pub mod Range
pub mod Escalation
pub mod WaitGraph
pub mod Ssi
pub mod Table
pub mod Manager
