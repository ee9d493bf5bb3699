-- ===== src/Txn/Transaction.antt =====
-- crabstash-txn/src/transaction.rs: transactions, their states and isolation levels, and the
-- transaction manager. A transaction that the source shares by `Arc` is a value that each operation
-- takes and returns; the manager's map of active transactions, whose values nothing reads, is the
-- set of their identifiers.
pub mod Commit
use crabstash.Base.{
  nat_eq, bytes_eq, ℕ, Bytes, Bool, true, false, not, ◌&&◌, Option, none, some, List, [], ◌∷◌, ◌++◌,
  any, retain, if◌then◌else◌, ltb,
}
use crabstash.Base.Map.{Map}
use crabstash.Base.Set
use crabstash.Common.Error.{Result, ok, err, transaction_conflict, transaction_aborted}
use crabstash.Txn.WriteSet
use crabstash.Txn.WriteSet.{WriteSet}

pub data IsolationLevel : Type 0 where
  snapshot serializable serializable_read_only serializable_deferrable : IsolationLevel

abbrev pub is_serializable : IsolationLevel → Bool
is_serializable snapshot = false
is_serializable serializable = true
is_serializable serializable_read_only = true
is_serializable serializable_deferrable = true

abbrev pub is_read_only : IsolationLevel → Bool
is_read_only serializable_read_only = true
is_read_only serializable_deferrable = true
is_read_only snapshot = false
is_read_only serializable = false

abbrev pub is_deferrable : IsolationLevel → Bool
is_deferrable serializable_deferrable = true
is_deferrable snapshot = false
is_deferrable serializable = false
is_deferrable serializable_read_only = false

-- `isolation == IsolationLevel::Serializable`
abbrev pub is_plain_serializable : IsolationLevel → Bool
is_plain_serializable serializable = true
is_plain_serializable snapshot = false
is_plain_serializable serializable_read_only = false
is_plain_serializable serializable_deferrable = false

pub data TransactionState : Type 0 where
  active committed aborted : TransactionState

pub record Transaction : Type 0 where
  pub id : ℕ
  pub start_ts : ℕ
  pub commit_ts : Option ℕ
  pub isolation : IsolationLevel
  pub state : TransactionState
  pub write_set : WriteSet
  pub read_set : List Bytes

abbrev pub new : ℕ → ℕ → IsolationLevel → Transaction
new id start_ts isolation = record {
  id = id;
  start_ts = start_ts;
  commit_ts = none;
  isolation = isolation;
  state = active;
  write_set = WriteSet.new;
  read_set = [];
}

unfoldable pub record_read : Transaction → Bytes → Transaction
record_read txn key =
    if is_serializable txn.isolation && not (is_read_only txn.isolation)
    then record txn { read_set = Set.insert key txn.read_set }
    else txn

abbrev pub is_active_state : TransactionState → Bool
is_active_state active = true
is_active_state committed = false
is_active_state aborted = false

abbrev pub is_active : Transaction → Bool
is_active txn = is_active_state txn.state

-- The commit time, the start time and the keys that were written.
pub record CommittedEntry : Type 0 where
  pub commit_ts : ℕ
  pub start_ts : ℕ
  pub writes : List Bytes

pub record TransactionManager : Type 0 where
  pub active_txns : List ℕ
  pub committed_txns : List CommittedEntry

abbrev pub manager_new : TransactionManager
manager_new = record { active_txns = []; committed_txns = [] }

unfoldable pub begin :
    TransactionManager → ℕ → ℕ → IsolationLevel → TransactionManager × Transaction
begin m id start_ts isolation =
    (record m { active_txns = Set.insert id m.active_txns }, new id start_ts isolation)

-- The committed transaction overlaps with this one, and it wrote a key that this one has read.
abbrev pub invalidates : Transaction → ℕ → CommittedEntry → Bool
invalidates txn commit_ts other =
    ltb txn.start_ts other.commit_ts
    && ltb other.start_ts commit_ts
    && any (λ read_key. Set.contains read_key other.writes) txn.read_set

unfoldable pub validate_serializable : TransactionManager → Transaction → ℕ → Result (Unit {0})
validate_serializable m txn commit_ts =
    if any (invalidates txn commit_ts) m.committed_txns then err transaction_conflict else ok tt

abbrev pub stamped : Transaction → ℕ → Result (Unit {0}) → Result Transaction
stamped txn commit_ts (ok u) = ok (record txn { commit_ts = some commit_ts })
stamped txn commit_ts (err e) = err e

unfoldable pub prepare_commit : TransactionManager → Transaction → ℕ → Result Transaction
prepare_commit m txn commit_ts =
    if is_plain_serializable txn.isolation
    then stamped txn commit_ts (validate_serializable m txn commit_ts)
    else stamped txn commit_ts (ok tt)

keys : Map Bytes Bytes → List Bytes
keys [] = []
keys ((k, v) ∷ puts) = k ∷ keys puts

collect : List Bytes → List Bytes
collect [] = []
collect (k ∷ ks) = Set.insert k (collect ks)

unfoldable pub write_keys : WriteSet → List Bytes
unfolding keys collect
write_keys w = collect (keys w.puts ++ w.deletes)

unfoldable pub commit_at :
    Option ℕ → TransactionManager → Transaction → Result (TransactionManager × Transaction)
commit_at none m txn = err transaction_aborted
commit_at (some commit_ts) m txn = ok (
  record {
    active_txns = Set.remove txn.id m.active_txns;
    committed_txns =
        m.committed_txns
        ++ record {
          commit_ts = commit_ts;
          start_ts = txn.start_ts;
          writes = write_keys txn.write_set;
        }
          ∷ [];
  },
  record txn { state = committed },
)

unfoldable pub commit : TransactionManager → Transaction → Result (TransactionManager × Transaction)
unfolding commit_at
commit m txn =
    if not (is_active txn) then err transaction_aborted else commit_at txn.commit_ts m txn

unfoldable pub abort : TransactionManager → Transaction → TransactionManager × Transaction
abort m txn =
    (record m { active_txns = Set.remove txn.id m.active_txns }, record txn { state = aborted })

unfoldable pub gc : TransactionManager → ℕ → TransactionManager
gc m watermark = record m {
  committed_txns = retain (λ (e : CommittedEntry). ltb watermark e.commit_ts) m.committed_txns;
}
