-- ===== src/Tests/Engines.antt =====
-- The engine over an association list as its storage and locks that are always granted.
use crabstash.Base.{
  Option, none, List, inl, ap, sym, ◌∙◌, arith, nat_eq, bytes_eq, ℕ, ◌+◌, ◌≡◌, refl, Bytes, some,
  [], ◌∷◌,
}
use crabstash.Base.Map
use crabstash.Base.Set
use crabstash.Base.Map.{Map}
use crabstash.Common.Error.{Error, Result, ok, err}
use crabstash.Lock.Error.{LockResult}
use crabstash.Lock.Ssi.RwSet
use crabstash.Lock.Ssi.Manager
use crabstash.Txn.Timestamp.{get_timestamp}
use crabstash.Txn.Transaction
use crabstash.Txn.Transaction.{Transaction, IsolationLevel, TransactionState}
use crabstash.Txn.Engine
use crabstash.Txn.Engine.{
  Storage, Locks, MvccEngine, begin_with_isolation, get, put, commit, validated,
  ssi_error_to_common,
}
use crabstash.Txn.Engine.Commit.{reads, get-put_own, commit-begin_read_only}
use crabstash.Txn.Engine.Stored.{IsStore, after_commit, commit-ok}
use crabstash.Txn.Engine.Refused.{IsRefused, commit-IsRefused}
use crabstash.Lock.Ssi.RwSet.{ReadWriteSet}
use crabstash.Lock.Ssi.Accept.{IsSerializable}
use crabstash.Txn.WriteSet
use crabstash.Txn.WriteSet.{Write, last_write}

abbrev list_storage : Storage (Map Bytes Bytes)
list_storage = record {
  put = λ s key value. (Map.insert key value s, ok tt);
  delete = λ s key. (Map.remove key s, ok tt);
  get_at_ts = λ s key ts. ok (Map.get key s);
}

-- The number counts the calls of `release_all`.
abbrev free_locks : Locks ℕ
free_locks = record {
  register_txn = λ k txn_id start_ts. k;
  lock_key = λ k txn_id key mode. (k, LockResult.ok tt);
  release_all = λ k txn_id. k + 1;
}

abbrev first_byte : Bytes → ℕ
first_byte [] = 0
first_byte (b ∷ bs) = b

abbrev engine : MvccEngine (Map Bytes Bytes) ℕ
engine = Engine.new [] 0

abbrev writer : Transaction
writer = Transaction.new 1 10 IsolationLevel.snapshot

put_ok : (put list_storage free_locks first_byte engine writer (1 ∷ []) (2 ∷ [])).answer ≡ ok tt
unfolding put Engine.write_key Engine.write_locked
put_ok = refl

get-put_own_example :
    (get list_storage free_locks first_byte
      (put list_storage free_locks first_byte engine writer (1 ∷ []) (2 ∷ [])).engine
      (put list_storage free_locks first_byte engine writer (1 ∷ []) (2 ∷ [])).txn
      (1 ∷ [])).answer
    ≡ ok (some (2 ∷ []))
get-put_own_example =
    get-put_own list_storage free_locks first_byte engine writer (1 ∷ []) (2 ∷ []) put_ok

commit-begin_read_only_example :
    let (e₁, txn₁) =
      begin_with_isolation list_storage free_locks engine IsolationLevel.serializable_read_only 1000
        [] in
    let (e₂, txn₂) = reads list_storage free_locks first_byte e₁ txn₁ ((1 ∷ []) ∷ []) in
    ((commit list_storage free_locks e₂ txn₂ 1001).answer ≡ err Error.transaction_aborted)
    × ((commit list_storage free_locks e₂ txn₂ 1001).engine.lock_manager ≡ e₂.lock_manager)
    × ((commit list_storage free_locks e₂ txn₂ 1001).engine.ssi_manager ≡ e₂.ssi_manager)
commit-begin_read_only_example =
    commit-begin_read_only list_storage free_locks first_byte engine
      IsolationLevel.serializable_read_only 1000 1001 [] ((1 ∷ []) ∷ []) refl

-- Transaction 3 has read, at its snapshot 10, a key that was overwritten by a commit at 20.
abbrev skewed : MvccEngine (Map Bytes Bytes) ℕ
skewed = record engine {
  ssi_manager = record Manager.new {
    active_txns = (3, record RwSet.new { read_keys = 5 ∷ [] }) ∷ [];
    write_index = (5, record { commit_ts = 20; start_ts = 9 } ∷ []) ∷ [];
  };
}

abbrev stale_reader : Transaction
stale_reader = Transaction.new 3 10 IsolationLevel.serializable

abbrev stale_set : ReadWriteSet
stale_set = record RwSet.new { read_keys = 5 ∷ [] }

stale_reader-active : Map.get 3 skewed.ssi_manager.active_txns ≡ some stale_set
unfolding Map.get
stale_reader-active = refl

stale_reader-stale :
    ¬ IsSerializable skewed.ssi_manager stale_set 10 (get_timestamp skewed.ts_oracle 1000).1
unfolding Map.get get_timestamp
stale_reader-stale (a, fresh, p) = fresh (
  5,
  _,
  record { commit_ts = 20; start_ts = 9 },
  inl refl,
  refl,
  inl refl,
  omega arith,
  omega arith,
)

commit-IsRefused_example :
    IsRefused list_storage free_locks skewed stale_reader
      (commit list_storage free_locks skewed stale_reader 1000)
commit-IsRefused_example =
    commit-IsRefused list_storage free_locks skewed stale_reader 1000 stale_set refl
      stale_reader-active (inl stale_reader-stale)

-- A writer that puts one key and deletes another.
abbrev two_writes : List Write
two_writes = Write.put_key (1 ∷ []) (2 ∷ []) ∷ Write.delete_key (3 ∷ []) ∷ []

abbrev putter : Transaction
putter = record writer { write_set = WriteSet.run WriteSet.new two_writes }

-- The storage holds the key that is deleted.
abbrev filled : MvccEngine (Map Bytes Bytes) ℕ
filled = Engine.new ((3 ∷ [], 4 ∷ []) ∷ []) 0

abbrev list_look : Map Bytes Bytes → Bytes → Option Bytes
list_look s key = Map.get key s

list_storage-IsStore : IsStore list_storage list_look
list_storage-IsStore = record {
  look-put = λ s s' k v j h.
      ap (λ (p : Map Bytes Bytes × Result (Unit {0})). Map.get j p.0) (sym h)
      ∙ Map.get-insert k j v s;
  look-delete = λ s s' k j h.
      ap (λ (p : Map Bytes Bytes × Result (Unit {0})). Map.get j p.0) (sym h)
      ∙ Map.get-remove k j s;
}

putter-commits : (commit list_storage free_locks filled putter 1000).answer ≡ ok tt
unfolding commit Engine.commit_validated Engine.commit_prepared Engine.commit_stored
    Engine.commit_last Engine.store_writes Engine.store_puts Engine.store_deletes
    Transaction.prepare_commit Transaction.commit Transaction.commit_at WriteSet.put WriteSet.delete
    Map.insert Map.remove Set.insert Set.remove crabstash.Base.bytes_beq
putter-commits = refl

commit-ok_example :
    (list_look (commit list_storage free_locks filled putter 1000).engine.storage (3 ∷ [])
      ≡ after_commit (last_write none two_writes (3 ∷ [])) (list_look filled.storage (3 ∷ [])))
    × ((commit list_storage free_locks filled putter 1000).engine.lock_manager ≡ 1)
    × ((commit list_storage free_locks filled putter 1000).txn.state ≡ TransactionState.committed)
commit-ok_example =
    commit-ok list_storage free_locks list_look list_storage-IsStore filled putter 1000 two_writes
      (3 ∷ []) refl refl putter-commits
