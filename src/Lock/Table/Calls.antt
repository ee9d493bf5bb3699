-- ===== src/Lock/Table/Calls.antt =====
-- Any sequence of calls on a lock table keeps it sound.
use crabstash.Base.{
  nat_eq, ℕ, sym, ◌⊎◌, Bytes, bytes_eq, Bound, ◌≡◌, refl, inl, inr, Bool, Option, none, some, List,
  [], ◌∷◌, ◌==◌, All, Bool-cases, Option-cases,
}
use crabstash.Base.Map
use crabstash.Base.Map.{Map}
use crabstash.Lock.Mode.{LockMode}
use crabstash.Lock.Entry.{LockEntry, Progress, returned, waiting, release}
use crabstash.Lock.Entry.Safety.{IsCompatible, after, upgrade-IsCompatible, release-IsCompatible}
use crabstash.Lock.Range.Exact.{new-IsSearchable, remove_by_txn-IsSearchable}
use crabstash.Lock.Table
use crabstash.Lock.Table.{
  LockConfig, LockTable, register_txn, unregister_txn, any_range_clashes, key_clashes,
  check_range_conflict, lock_range, lock_bounding_range, escalate_if_needed, record_lock_acquired,
  Outcome, done, blocked, Others, put_entry, after_wait, wait_for_key, or_new, lock_entry, lock_key,
  after_upgrade, upgrade_entry, upgrade_lock, release_each, release_all,
}
use crabstash.Lock.Table.Safety.{
  IsSound, same-IsSound, lock_range-IsSound, put_entry-IsSound, table_after, Fair, lock_key-IsSound,
}

after_upgrade-IsSound :
    (p : Progress) (table : LockTable) (key : Bytes)
    → IsCompatible (after p)
    → IsSound table
    → IsSound (table_after (after_upgrade p table key))
after_upgrade-IsSound (returned r entry) table key c s = put_entry-IsSound table key entry c s
after_upgrade-IsSound (waiting entry) table key c s = put_entry-IsSound table key entry c s

upgrade_lock-IsSound :
    (table : LockTable) (txn_id : ℕ) (key : Bytes) (deadline : Bool) (others : Others)
    → Fair others
    → IsSound table
    → IsSound (table_after (upgrade_lock table txn_id key deadline others))
unfolding upgrade_lock upgrade_entry
upgrade_lock-IsSound table txn_id key deadline others (kb, kt, km, kw, ke) s =
    elim (Option-cases (Map.get key table.key_locks)) [
      | inl absent ↦ rw absent s
      | inr (entry, found) ↦ rw found (
          after_upgrade-IsSound _ _ key
            (upgrade-IsCompatible _ txn_id LockMode.x deadline others.meanwhile others.wakes km kw
              (kb _ (s.compatible key entry found)))
            (ke _ s))
    ]

abbrev released : Option LockEntry → ℕ → Option LockEntry
released none txn_id = none
released (some entry) txn_id = some (release entry txn_id).0

get-release_each :
    (locks : Map Bytes LockEntry) (txn_id : ℕ) (key : Bytes)
    → Map.get key (release_each locks txn_id) ≡ released (Map.get key locks) txn_id
unfolding Map.get
get-release_each [] txn_id key = refl
get-release_each ((k, e) ∷ locks) txn_id key = elim (Bool-cases (k == key)) [
  | inl same ↦ rw same refl
  | inr other ↦ rw other (get-release_each locks txn_id key)
]

release_all-IsSound :
    (table : LockTable) (txn_id : ℕ) → IsSound table → IsSound (release_all table txn_id)
unfolding release_all unregister_txn
release_all-IsSound table txn_id s = record {
  compatible = λ key entry g.
      of_found key entry (Option-cases (Map.get key table.key_locks))
        (rw (get-release_each table.key_locks txn_id key) at g);
  searchable = remove_by_txn-IsSearchable table.range_locks txn_id;
}
  where
    of_found :
        (key : Bytes) (entry : LockEntry)
        → (Map.get key table.key_locks ≡ none)
          ⊎ ((e : LockEntry) × (Map.get key table.key_locks ≡ some e))
        → released (Map.get key table.key_locks) txn_id ≡ some entry
        → IsCompatible entry
    of_found key entry (inl absent) g = let g' : none ≡ some entry = rw absent at g in cc
    of_found key entry (inr (e, found)) g =
        let g' : some (release e txn_id).0 ≡ some entry = rw found at g in
        let q : (release e txn_id).0 ≡ entry = cc in
        rw (sym q) (release-IsCompatible e txn_id (s.compatible key e found))

-- A call on the table.
pub data Call : Type 0 where
  registers : ℕ → ℕ → ℕ → Call
  locks_key : ℕ → Bytes → LockMode → Bool → Others → Call
  locks_range : ℕ → Bound → Bound → LockMode → Call
  upgrades : ℕ → Bytes → Bool → Others → Call
  releases : ℕ → Call
  unregisters : ℕ → Call

abbrev pub call : LockTable → Call → LockTable
call table (registers txn_id start_ts priority) = register_txn table txn_id start_ts priority
call table (locks_key txn_id key mode deadline others) =
    table_after (lock_key table txn_id key mode deadline others)
call table (locks_range txn_id start end mode) = (lock_range table txn_id start end mode).0
call table (upgrades txn_id key deadline others) =
    table_after (upgrade_lock table txn_id key deadline others)
call table (releases txn_id) = release_all table txn_id
call table (unregisters txn_id) = unregister_txn table txn_id

abbrev pub FairCall : Call → Type 0
FairCall (registers txn_id start_ts priority) = Unit
FairCall (locks_key txn_id key mode deadline others) = Fair others
FairCall (locks_range txn_id start end mode) = Unit
FairCall (upgrades txn_id key deadline others) = Fair others
FairCall (releases txn_id) = Unit
FairCall (unregisters txn_id) = Unit

call-IsSound : (table : LockTable) (c : Call) → FairCall c → IsSound table → IsSound (call table c)
unfolding register_txn unregister_txn
call-IsSound table (registers txn_id start_ts priority) f s = same-IsSound table _ refl refl s
call-IsSound table (locks_key txn_id key mode deadline others) f s =
    lock_key-IsSound table txn_id key mode deadline others f s
call-IsSound table (locks_range txn_id start end mode) f s =
    lock_range-IsSound table txn_id start end mode s
call-IsSound table (upgrades txn_id key deadline others) f s =
    upgrade_lock-IsSound table txn_id key deadline others f s
call-IsSound table (releases txn_id) f s = release_all-IsSound table txn_id s
call-IsSound table (unregisters txn_id) f s = same-IsSound table _ refl refl s

abbrev pub calls : LockTable → List Call → LockTable
calls table [] = table
calls table (c ∷ cs) = calls (call table c) cs

calls-keeps :
    (table : LockTable) (cs : List Call)
    → All FairCall cs
    → IsSound table
    → IsSound (calls table cs)
calls-keeps table [] f s = s
calls-keeps table (c ∷ cs) f s = calls-keeps (call table c) cs f.1 (call-IsSound table c f.0 s)

-- After any calls on a new table, whether they were granted, failed or still wait, two transactions
-- that hold the same key hold it in compatible modes, and a path leads to every range lock in the
-- interval tree, if what other threads do during a wait keeps this.
pub calls-IsSound :
    (config : LockConfig) (cs : List Call) → All FairCall cs → IsSound (calls (Table.new config) cs)
unfolding Map.get
calls-IsSound config cs f =
    calls-keeps (Table.new config) cs f
      (record { compatible = λ key entry g. cc; searchable = new-IsSearchable })
