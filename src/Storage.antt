-- ===== src/Storage.antt =====
-- crabstash-storage: the files of the database.
pub mod Bloom
pub mod Codec
pub mod Wal
pub mod Batch
pub mod Iterator
pub mod MemTable
pub mod Table
