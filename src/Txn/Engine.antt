-- ===== src/Txn/Engine.antt =====
-- crabstash-txn/src/mvcc.rs: the engine that joins the storage, the locks, the conflict manager and
-- the transaction manager. The storage (`Lsm`) and the lock manager are interfaces here; the clock is
-- an argument. A mutex guards each transaction, so a call takes it and returns it.
pub mod Commit
pub mod Stored
pub mod Refused
use crabstash.Base.{
  nat_eq, bytes_eq, ℕ, ◌+◌, ◌%◌, ◌^◌, Bytes, Bool, true, false, Option, none, some, List, [], ◌∷◌,
  if◌then◌else◌,
}
use crabstash.Base.Map.{Map}
use crabstash.Common.Error
use crabstash.Common.Error.{Error, Result, ok, err}
use crabstash.Lock.Mode.{LockMode}
use crabstash.Lock.Error.{LockError, LockResult}
use crabstash.Lock.Ssi.Manager
use crabstash.Lock.Ssi.Manager.{SsiManager}
use crabstash.Lock.Ssi.Validate.{SsiConflict, SsiResult, validate_and_commit}
use crabstash.Txn.Timestamp
use crabstash.Txn.Timestamp.{TimestampOracle, get_timestamp}
use crabstash.Txn.WriteSet
use crabstash.Txn.WriteSet.{WriteSet}
use crabstash.Txn.Transaction
use crabstash.Txn.Transaction.{
  Transaction, TransactionManager, IsolationLevel, is_plain_serializable,
}

-- What the engine asks of the storage.
pub record Storage (S : Type 0) : Type 0 where
  pub put : S → Bytes → Bytes → S × Result (Unit {0})
  pub delete : S → Bytes → S × Result (Unit {0})
  pub get_at_ts : S → Bytes → ℕ → Result (Option Bytes)

-- What the engine asks of the lock manager; `lock_key` waits with the time-out of the engine.
pub record Locks (K : Type 0) : Type 0 where
  pub register_txn : K → ℕ → ℕ → K
  pub lock_key : K → ℕ → Bytes → LockMode → K × LockResult (Unit {0})
  pub release_all : K → ℕ → K

pub record MvccEngine (S K : Type 0) : Type 0 where
  pub storage : S
  pub ts_oracle : TimestampOracle
  pub txn_manager : TransactionManager
  pub next_txn_id : ℕ
  pub lock_manager : K
  pub ssi_manager : SsiManager

abbrev pub new : {S K : Type 0} → S → K → MvccEngine S K
new storage locks = record {
  storage = storage;
  ts_oracle = Timestamp.new;
  txn_manager = Transaction.manager_new;
  next_txn_id = 1;
  lock_manager = locks;
  ssi_manager = Manager.new;
}

-- The engine and the transaction after a call, and its answer.
pub record Outcome (S K A : Type 0) : Type 0 where
  pub engine : MvccEngine S K
  pub txn : Transaction
  pub answer : Result A

abbrev pub lock_error_to_common : LockError → Error
lock_error_to_common LockError.timeout = Error.lock_timeout
lock_error_to_common LockError.deadlock = Error.deadlock
lock_error_to_common LockError.transaction_aborted = Error.transaction_aborted
lock_error_to_common LockError.lock_escalation_failed = Error.lock_conflict
lock_error_to_common LockError.range_conflict = Error.lock_conflict
lock_error_to_common LockError.range_locks_disabled = Error.lock_conflict
lock_error_to_common LockError.not_held = Error.lock_conflict
lock_error_to_common LockError.invalid_upgrade = Error.lock_conflict

abbrev pub ssi_error_to_common : SsiConflict → Error
ssi_error_to_common (SsiConflict.write_skew ts) = Error.write_skew
ssi_error_to_common (SsiConflict.phantom ts) = Error.phantom_read
ssi_error_to_common (SsiConflict.dangerous_structure a b) = Error.serializable_conflict
ssi_error_to_common SsiConflict.txn_not_found = Error.transaction_aborted

-- The safe snapshot of a deferrable transaction, if the wait for it found one.
abbrev pub start_at : Bool → Option ℕ → ℕ → ℕ
start_at true (some safe_ts) ts = safe_ts
start_at true none ts = ts
start_at false safe ts = ts

abbrev pub begin_ssi : IsolationLevel → SsiManager → ℕ → ℕ → SsiManager
begin_ssi IsolationLevel.snapshot m txn_id start_ts = m
begin_ssi IsolationLevel.serializable m txn_id start_ts =
    Manager.begin_txn_with_ts m txn_id start_ts
begin_ssi IsolationLevel.serializable_read_only m txn_id start_ts =
    Manager.begin_read_only_txn m txn_id start_ts
begin_ssi IsolationLevel.serializable_deferrable m txn_id start_ts =
    Manager.begin_read_only_txn m txn_id start_ts

module _ {S K : Type 0} (db : Storage S) (locks : Locks K) where
  -- `polls` is the conflict manager at each look of a deferrable transaction.
  unfoldable pub begin_with_isolation :
      MvccEngine S K → IsolationLevel → ℕ → List SsiManager → MvccEngine S K × Transaction
  begin_with_isolation e isolation now polls =
      let txn_id = e.next_txn_id in
      let (oracle, ts) = get_timestamp e.ts_oracle now in
      let start_ts =
        start_at (Transaction.is_deferrable isolation) (Manager.wait_for_safe_snapshot polls) ts in
      let (manager, txn) = Transaction.begin e.txn_manager txn_id start_ts isolation in
      (
        record {
          storage = e.storage;
          ts_oracle = oracle;
          txn_manager = manager;
          next_txn_id = (txn_id + 1) % 2 ^ 64;
          lock_manager = locks.register_txn e.lock_manager txn_id start_ts;
          ssi_manager = begin_ssi isolation e.ssi_manager txn_id start_ts;
        },
        txn,
      )

  module _ (hash_key : Bytes → ℕ) where
    unfoldable pub get_from :
        Option (Option Bytes) → MvccEngine S K → Transaction → Bytes → Outcome S K (Option Bytes)
    get_from (some local_value) e txn key = record {
      engine = e;
      txn = txn;
      answer = ok local_value;
    }
    get_from none e txn key = record {
      engine = record e {
        ssi_manager =
            if is_plain_serializable txn.isolation
            then Manager.record_read hash_key e.ssi_manager txn.id key
            else e.ssi_manager;
      };
      txn = Transaction.record_read txn key;
      answer = db.get_at_ts e.storage key txn.start_ts;
    }

    unfoldable pub get : MvccEngine S K → Transaction → Bytes → Outcome S K (Option Bytes)
    unfolding get_from
    get e txn key = get_from (WriteSet.get txn.write_set key) e txn key

    -- The end of `put` and `delete`, with the answer of the lock manager.
    unfoldable pub write_locked :
        (WriteSet → WriteSet)
        → MvccEngine S K
        → Transaction
        → Bytes
        → K × LockResult (Unit {0})
        → Outcome S K (Unit {0})
    write_locked write e txn key (k, LockResult.err x) = record {
      engine = record e { lock_manager = k };
      txn = txn;
      answer = err (lock_error_to_common x);
    }
    write_locked write e txn key (k, LockResult.ok u) = record {
      engine = record e {
        lock_manager = k;
        ssi_manager =
            if is_plain_serializable txn.isolation
            then Manager.record_write hash_key e.ssi_manager txn.id key
            else e.ssi_manager;
      };
      txn = record txn { write_set = write txn.write_set };
      answer = ok tt;
    }

    unfoldable pub write_key :
        (WriteSet → WriteSet) → MvccEngine S K → Transaction → Bytes → Outcome S K (Unit {0})
    unfolding write_locked
    write_key write e txn key =
        if Transaction.is_read_only txn.isolation
        then record { engine = e; txn = txn; answer = err Error.invalid_argument }
        else write_locked write e txn key (locks.lock_key e.lock_manager txn.id key LockMode.x)

    unfoldable pub put : MvccEngine S K → Transaction → Bytes → Bytes → Outcome S K (Unit {0})
    unfolding write_key
    put e txn key value = write_key (λ w. WriteSet.put w key value) e txn key

    unfoldable pub delete : MvccEngine S K → Transaction → Bytes → Outcome S K (Unit {0})
    unfolding write_key
    delete e txn key = write_key (λ w. WriteSet.delete w key) e txn key

  abbrev pub then_store :
      S × Result (Unit {0}) → (S → S × Result (Unit {0})) → S × Result (Unit {0})
  then_store (s, err x) f = (s, err x)
  then_store (s, ok u) f = f s

  -- The first error ends the loop, and the writes before it stay.
  unfoldable pub store_deletes : List Bytes → S → S × Result (Unit {0})
  store_deletes [] s = (s, ok tt)
  store_deletes (key ∷ deletes) s = then_store (db.delete s key) (store_deletes deletes)

  unfoldable pub store_puts :
      Map Bytes Bytes → (S → S × Result (Unit {0})) → S → S × Result (Unit {0})
  store_puts [] after s = after s
  store_puts ((key, value) ∷ puts) after s = then_store (db.put s key value) (store_puts puts after)

  unfoldable pub store_writes : WriteSet → S → S × Result (Unit {0})
  unfolding store_puts store_deletes
  store_writes w s = store_puts w.puts (store_deletes w.deletes) s

  unfoldable pub commit_read_only :
      Result (TransactionManager × Transaction)
      → MvccEngine S K
      → Transaction
      → Outcome S K (Unit {0})
  commit_read_only (err x) e txn = record { engine = e; txn = txn; answer = err x }
  commit_read_only (ok (manager, txn')) e txn = record {
    engine = record e {
      txn_manager = manager;
      ssi_manager =
          if Transaction.is_serializable txn.isolation
          then Manager.commit_read_only_txn e.ssi_manager txn.id
          else e.ssi_manager;
      lock_manager = locks.release_all e.lock_manager txn.id;
    };
    txn = txn';
    answer = ok tt;
  }

  unfoldable pub commit_last :
      Result (TransactionManager × Transaction)
      → MvccEngine S K
      → Transaction
      → Outcome S K (Unit {0})
  commit_last (err x) e txn = record { engine = e; txn = txn; answer = err x }
  commit_last (ok (manager, txn')) e txn = record {
    engine = record e {
      txn_manager = manager;
      lock_manager = locks.release_all e.lock_manager txn.id;
    };
    txn = txn';
    answer = ok tt;
  }

  unfoldable pub commit_stored :
      S × Result (Unit {0}) → MvccEngine S K → Transaction → Outcome S K (Unit {0})
  unfolding commit_last
  commit_stored (s, err x) e txn = record {
    engine = record e { storage = s };
    txn = txn;
    answer = err x;
  }
  commit_stored (s, ok u) e txn =
      commit_last (Transaction.commit e.txn_manager txn) (record e { storage = s }) txn

  unfoldable pub commit_prepared :
      Result Transaction → MvccEngine S K → Transaction → Outcome S K (Unit {0})
  unfolding commit_stored store_writes
  commit_prepared (err x) e txn = record { engine = e; txn = txn; answer = err x }
  commit_prepared (ok txn') e txn = commit_stored (store_writes txn'.write_set e.storage) e txn'

  unfoldable pub commit_validated :
      SsiManager × SsiResult → MvccEngine S K → Transaction → ℕ → Outcome S K (Unit {0})
  unfolding commit_prepared
  commit_validated (m, SsiResult.err c) e txn commit_ts = record {
    engine = record e { ssi_manager = m };
    txn = txn;
    answer = err (ssi_error_to_common c);
  }
  commit_validated (m, SsiResult.ok) e txn commit_ts =
      commit_prepared (Transaction.prepare_commit e.txn_manager txn commit_ts)
        (record e { ssi_manager = m }) txn

  abbrev pub validated : MvccEngine S K → Transaction → ℕ → SsiManager × SsiResult
  validated e txn commit_ts =
      if is_plain_serializable txn.isolation
      then validate_and_commit e.ssi_manager txn.id txn.start_ts commit_ts
      else (e.ssi_manager, SsiResult.ok)

  unfoldable pub commit : MvccEngine S K → Transaction → ℕ → Outcome S K (Unit {0})
  unfolding commit_read_only commit_validated
  commit e txn now =
      let (oracle, commit_ts) = get_timestamp e.ts_oracle now in
      let e' = record e { ts_oracle = oracle } in
      if Transaction.is_read_only txn.isolation
      then commit_read_only (Transaction.commit e.txn_manager txn) e' txn
      else commit_validated (validated e txn commit_ts) e' txn commit_ts

  unfoldable pub abort : MvccEngine S K → Transaction → MvccEngine S K × Transaction
  abort e txn =
      let (manager, txn') = Transaction.abort e.txn_manager txn in
      (
        record e {
          txn_manager = manager;
          ssi_manager =
              if Transaction.is_serializable txn.isolation
              then Manager.abort_txn e.ssi_manager txn.id
              else e.ssi_manager;
          lock_manager = locks.release_all e.lock_manager txn.id;
        },
        txn',
      )
