-- ===== src/Lock/Error.antt =====
-- crabstash-lock/src/lib.rs: `LockError`, and the results of the lock operations.
pub data LockError : Type 0 where
  timeout deadlock transaction_aborted lock_escalation_failed range_conflict : LockError
  range_locks_disabled not_held invalid_upgrade : LockError

pub data LockResult (A : Type 0) : Type 0 where
  ok : A → LockResult A
  err : LockError → LockResult A
