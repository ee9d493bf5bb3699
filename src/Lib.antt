-- ===== src/Lib.antt =====
-- A verification library for crabstash, a transactional key-value store: crates/crabstash-lock (locks,
-- deadlocks, serializable snapshot isolation), crates/crabstash-txn (timestamps, transactions, engine),
-- crates/crabstash-common (errors, keys), and the log, the batches, the memtable, the tables and the
-- iterators of crates/crabstash-storage.
--
-- Parts and files. A transaction locks keys before it writes them, and each key has an entry with
-- holders and waiters: Lock/Mode.antt and Lock/Entry.antt stand for LockMode and LockEntry
-- (crates/crabstash-lock/src/lock_mode.rs, lock_entry.rs). A wait registers edges in the graph of
-- WaitForGraph, Lock/WaitGraph.antt (deadlock.rs); a transaction with many key locks exchanges them
-- for one range lock, Lock/Escalation.antt (escalation.rs). Range locks stand in an interval tree,
-- Lock/Range.antt (range_lock.rs), whose vector of nodes is a list: Range/Order has what its bounds say,
-- Range/Paths and Descent the search and the insertion, Range/History any sequence of changes. The
-- entries, the tree, the graph and the escalation states make up LockTable, Lock/Table.antt
-- (lock_table.rs), and LockManager, Lock/Manager.antt (lib.rs), is its front. Serializable transactions
-- are validated at their commit by SSIManager, Lock/Ssi/ (ssi.rs): RwSet is ReadWriteSet, Manager the state with its
-- plain operations, Validate validate_and_commit_with_keys, Bloom the filter of written hashes; Accept
-- describes what it accepts, and Stale and History follow a committed write through later calls.
-- Txn/Timestamp.antt is TimestampOracle (crates/crabstash-txn/src/timestamp.rs), Txn/WriteSet.antt and
-- Txn/Transaction.antt the write set, Transaction and TransactionManager (transaction.rs), and
-- Txn/Engine.antt is MvccEngine (mvcc.rs), which calls the conflict manager and the transaction manager,
-- and the storage and the locks through the interfaces Storage and Locks; Engine/Stored has the contract
-- IsStore of a storage and what a commit leaves in it, Engine/Refused the commits that fail. Common/Simd.antt is
-- compare_bytes (crates/crabstash-common/src/simd.rs), Common/Key.antt the versions of a key (key.rs).
-- Storage/Wal.antt is Wal (crates/crabstash-storage/src/wal.rs): the records, append, append_batch, the
-- sync modes and recover; Storage/Batch.antt is WriteBatch (batch.rs). Storage/MemTable.antt is MemTable
-- with its iterator (memtable.rs), Storage/Table.antt the builder of sorted tables and the search of their
-- blocks, Storage/Bloom.antt the filter of their keys (bloom.rs), Storage/Table/Open and Read their
-- opening and reading (sstable.rs), Storage/Iterator.antt the iterators that are built from others
-- (iterator.rs), and Db/Prefix.antt the end of a prefix scan (crates/crabstash/src/lib.rs).
--
-- Conventions. State behind mutexes and atomics is a record that every operation takes and returns, one
-- operation at a time. A thread that waits on a condition variable goes through a list of wake-ups, each
-- with what the other threads did in between, so that interleavings are explicit; what they do to the rest
-- of the lock table during a wait is one function. Some loops have fuel: recovery has one round more
-- than there are bytes, and each round reads at least eight, and so does the search of a block; the
-- comparison by chunks has one round per byte, and each consumes sixteen; the insertion and the search of the interval tree have one round per
-- node, and a child stands behind its parent in the vector; a snapshot iterator has one more round than
-- there are versions. Hash maps and sets are lists in
-- Base/Map.antt and Base/Set.antt. Words wrap at 2^64. The hashes, the checksum, the compression, the
-- mask of two chunks, the ordered map of the memtable and binary searches, which other crates or the
-- standard library provide, are parameters; the clock is an argument. Where a table compares a key with
-- the one searched for, by bytes_equal, the model compares lists.
--
-- Not modelled: the search of deadlocks and its thread, the segments of the log, the iterator of the
-- tables and the tree of the storage crate; logging and messages, which nothing reads.
pub mod Base
pub mod Lock
pub mod Common
pub mod Txn
pub mod Db
pub mod Storage
pub mod Tests
