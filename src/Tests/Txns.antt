-- ===== src/Tests/Txns.antt =====
-- Timestamps, write sets and commits, on small states.
use crabstash.Base.{
  nat_eq, bytes_eq, ◌≤◌, ◌≡◌, ◌↔◌, inl, refl, false, none, some, List, [], ◌∷◌, arith, bytes_beq,
}
use crabstash.Base.Map
use crabstash.Base.Set
use crabstash.Common.Error.{ok, err, transaction_conflict, transaction_aborted}
use crabstash.Txn.Timestamp.{TimestampOracle, get_timestamp, get_timestamp_ordered}
use crabstash.Txn.WriteSet
use crabstash.Txn.WriteSet.{WriteSet, Write, IsConsistent, last_write, get-run}
use crabstash.Txn.Transaction
use crabstash.Txn.Transaction.{
  Transaction, TransactionManager, IsolationLevel, TransactionState, commit, commit_at,
  prepare_commit, is_plain_serializable, write_keys,
}
use crabstash.Txn.Transaction.Commit.{
  Overwritten, first_committer_wins, prepare_commit-conflict_iff, commit_once,
}

-- The clock has shown 1000 milliseconds, and two timestamps were taken since.
abbrev oracle : TimestampOracle
oracle = record { logical = 2; last_physical = 1000 }

get_timestamp_ordered_example :
    (get_timestamp oracle 1000).1 ≤ (get_timestamp (get_timestamp oracle 1000).0 999).1
get_timestamp_ordered_example =
    get_timestamp_ordered oracle 1000 999 (omega arith) (omega arith) (omega arith) (omega arith)

new-IsConsistent : IsConsistent WriteSet.new
unfolding Map.get
new-IsConsistent = record { apart = λ k h. refl }

abbrev some_writes : List Write
some_writes = Write.put_key (1 ∷ []) (2 ∷ []) ∷ Write.delete_key (1 ∷ []) ∷ []

-- Transaction 1 has deleted the key 1, and is to commit at 20; transaction 2 has read that key.
abbrev deleter : Transaction
deleter = record (Transaction.new 1 10 IsolationLevel.snapshot) {
  commit_ts = some 20;
  write_set = record { puts = []; deletes = (1 ∷ []) ∷ [] };
}

abbrev reader : Transaction
reader = record (Transaction.new 2 11 IsolationLevel.serializable) { read_set = (1 ∷ []) ∷ [] }

abbrev manager : TransactionManager
manager = record { active_txns = 1 ∷ 2 ∷ []; committed_txns = [] }

abbrev after_commit : TransactionManager
after_commit = record {
  active_txns = 2 ∷ [];
  committed_txns =
      record { commit_ts = 20; start_ts = 10; writes = write_keys deleter.write_set } ∷ [];
}

abbrev deleted : Transaction
deleted = record deleter { state = TransactionState.committed }

deleter-committed : commit manager deleter ≡ ok (after_commit, deleted)
unfolding commit commit_at Set.remove
deleter-committed = refl

deleter-wrote : WriteSet.get deleter.write_set (1 ∷ []) ≡ some none
unfolding WriteSet.get Set.contains bytes_beq
deleter-wrote = refl

first_committer_wins_example : prepare_commit after_commit reader 21 ≡ err transaction_conflict
first_committer_wins_example =
    first_committer_wins manager after_commit deleter deleted reader 20 21 (1 ∷ []) none
      deleter-committed refl (omega arith) (omega arith) refl (inl refl) deleter-wrote

prepare_commit-conflict_iff_example :
    (prepare_commit after_commit reader 21 ≡ err transaction_conflict)
    ↔ Overwritten after_commit reader 21
prepare_commit-conflict_iff_example = prepare_commit-conflict_iff after_commit reader 21 refl

commit_once_example :
    (Set.contains 1 after_commit.active_txns ≡ false)
    × (commit after_commit deleted ≡ err transaction_aborted)
commit_once_example =
    commit_once manager after_commit after_commit deleter deleted deleter-committed
