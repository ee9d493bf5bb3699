-- ===== src/Lock/Table/Release.antt =====
-- `release_all` gives back every lock of a transaction and no other.
use crabstash.Base.{
  nat_eq, ℕ, Bytes, bytes_eq, ◌≡◌, refl, inl, inr, Option, none, some, List, [], ◌∷◌, arith, ◌==◌,
  Bool-cases, if◌then◌else◌,
}
use crabstash.Base.Map
use crabstash.Base.Map.{Map}
use crabstash.Lock.Mode.{LockMode}
use crabstash.Lock.Entry.{LockEntry, get_mode, release}
use crabstash.Lock.Range.{entries}
use crabstash.Lock.Range.Entries.{others, entries-remove_by_txn}
use crabstash.Lock.WaitGraph
use crabstash.Lock.WaitGraph.{WaitForGraph, remove_everywhere}
use crabstash.Lock.Table.{LockTable, unregister_txn, release_each, release_all}

abbrev mode_in : Option LockEntry → ℕ → Option LockMode
mode_in none txn_id = none
mode_in (some entry) txn_id = get_mode entry txn_id

-- The mode in which a transaction holds a key.
abbrev pub mode_of : LockTable → Bytes → ℕ → Option LockMode
mode_of table key txn_id = mode_in (Map.get key table.key_locks) txn_id

mode_in-release_each :
    (locks : Map Bytes LockEntry) (txn_id : ℕ) (key : Bytes) (j : ℕ)
    → mode_in (Map.get key (release_each locks txn_id)) j
      ≡ (if txn_id == j then none else mode_in (Map.get key locks) j)
unfolding Map.get get_mode release
mode_in-release_each [] txn_id key j = ground arith
mode_in-release_each ((k, entry) ∷ locks) txn_id key j = elim (Bool-cases (k == key)) [
  | inl same ↦ rw same (Map.get-remove txn_id j entry.holders)
  | inr other ↦ rw other (mode_in-release_each locks txn_id key j)
]

get-remove_everywhere-none :
    (edges : Map ℕ (List ℕ)) (txn_id j : ℕ)
    → Map.get j edges ≡ none
    → Map.get j (remove_everywhere txn_id edges) ≡ none
unfolding Map.get remove_everywhere
get-remove_everywhere-none [] txn_id j h = refl
get-remove_everywhere-none ((w, ws) ∷ edges) txn_id j h = elim (Bool-cases (w == j)) [
  | inl same ↦ let h' : some ws ≡ none = rw same at h in cc
  | inr other ↦ rw other (get-remove_everywhere-none edges txn_id j (rw other at h))
]

-- After `release_all` the transaction holds no key, every other transaction holds what it held, the
-- range locks are those of the other transactions, and the transaction waits for nothing and is not
-- registered any more.
pub release_all_lem :
    (table : LockTable) (txn_id : ℕ)
    → ((key : Bytes) (j : ℕ)
        → mode_of (release_all table txn_id) key j
          ≡ (if txn_id == j then none else mode_of table key j))
      × (entries (release_all table txn_id).range_locks ≡ others txn_id (entries table.range_locks))
      × (Map.get txn_id (release_all table txn_id).waiter_graph.edges ≡ none)
      × (Map.get txn_id (release_all table txn_id).waiter_graph.txn_info ≡ none)
      × (Map.get txn_id (release_all table txn_id).escalation_state ≡ none)
unfolding release_all unregister_txn WaitGraph.unregister_txn WaitGraph.remove_all_waits
release_all_lem table txn_id = (
  λ key j. mode_in-release_each table.key_locks txn_id key j,
  entries-remove_by_txn table.range_locks txn_id,
  get-remove_everywhere-none _ txn_id txn_id
      (Map.get-remove_self txn_id (Map.remove txn_id table.waiter_graph.edges)),
  Map.get-remove_self txn_id table.waiter_graph.txn_info,
  Map.get-remove_self txn_id table.escalation_state,
)
