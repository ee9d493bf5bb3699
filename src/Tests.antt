-- ===== src/Tests.antt =====
-- The theorems at concrete inputs, and what the code computes there.
pub mod Locks
pub mod SkipMaps
pub mod Scans
pub mod SortedTables
pub mod Tables
pub mod Conflicts
pub mod Txns
pub mod Logs
pub mod Engines
pub mod Keys
