-- ===== src/Lock/Manager.antt =====
-- crabstash-lock/src/lib.rs: `LockManager`, the front of the lock table. A call without a time-out gets
-- the one of the configuration, so every wait has a deadline.
use crabstash.Base.{ℕ, Bytes, Bound, Bool, true}
use crabstash.Lock.Mode.{LockMode}
use crabstash.Lock.Error.{LockResult, ok, err}
use crabstash.Lock.Table
use crabstash.Lock.Table.{LockConfig, LockTable, Outcome, done, blocked, Others}

pub record LockManager : Type 0 where
  pub lock_table : LockTable
  pub config : LockConfig

unfoldable pub new : LockConfig → LockManager
new config = record { lock_table = Table.new config; config = config }

unfoldable pub with_default_config : LockManager
unfolding new
with_default_config = new Table.default_config

unfoldable pub register_txn : LockManager → ℕ → ℕ → LockManager
register_txn manager txn_id start_ts = record manager {
  lock_table = Table.register_txn manager.lock_table txn_id start_ts 0;
}

unfoldable pub register_txn_with_priority : LockManager → ℕ → ℕ → ℕ → LockManager
register_txn_with_priority manager txn_id start_ts priority = record manager {
  lock_table = Table.register_txn manager.lock_table txn_id start_ts priority;
}

pub record LockGuard : Type 0 where
  pub txn_id : ℕ
  pub key : Bytes
  pub mode : LockMode

pub record RangeLockGuard : Type 0 where
  pub txn_id : ℕ
  pub start : Bound
  pub end : Bound
  pub mode : LockMode

-- A call that returns, or one that still waits.
pub data ManagerOutcome (A : Type 0) : Type 0 where
  answered : LockResult A → LockManager → ManagerOutcome A
  pending : LockManager → ManagerOutcome A

abbrev pub map_ok : {A B : Type 0} → (A → B) → LockResult A → LockResult B
map_ok f (ok a) = ok (f a)
map_ok f (err e) = err e

abbrev pub lift_outcome : {A : Type 0} → LockManager → A → Outcome → ManagerOutcome A
lift_outcome manager guard (done r table) =
    answered (map_ok (λ u. guard) r) (record manager { lock_table = table })
lift_outcome manager guard (blocked table) = pending (record manager { lock_table = table })

unfoldable pub lock_key : LockManager → ℕ → Bytes → LockMode → Others → ManagerOutcome LockGuard
lock_key manager txn_id key mode others =
    lift_outcome manager (record { txn_id = txn_id; key = key; mode = mode })
      (Table.lock_key manager.lock_table txn_id key mode true others)

unfoldable pub lock_range :
    LockManager → ℕ → Bound → Bound → LockMode → LockManager × LockResult RangeLockGuard
lock_range manager txn_id start end mode =
    let (table, r) = Table.lock_range manager.lock_table txn_id start end mode in
    (
      record manager { lock_table = table },
      map_ok (λ u. record { txn_id = txn_id; start = start; end = end; mode = mode }) r,
    )

unfoldable pub upgrade_lock : LockManager → ℕ → Bytes → Others → ManagerOutcome (Unit {0})
upgrade_lock manager txn_id key others =
    lift_outcome manager tt (Table.upgrade_lock manager.lock_table txn_id key true others)

unfoldable pub release_all : LockManager → ℕ → LockManager
release_all manager txn_id = record manager {
  lock_table = Table.release_all manager.lock_table txn_id;
}

unfoldable pub check_conflict : LockManager → ℕ → Bytes → LockMode → Bool
check_conflict manager txn_id key mode = Table.check_conflict manager.lock_table txn_id key mode

unfoldable pub check_range_conflict : LockManager → ℕ → Bytes → LockMode → Bool
check_range_conflict manager txn_id key mode =
    Table.check_range_conflict manager.lock_table txn_id key mode
