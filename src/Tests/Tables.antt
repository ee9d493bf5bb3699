-- ===== src/Tests/Tables.antt =====
-- The interval tree of the range locks and the lock table, on small states.
use crabstash.Base.{
  nat_eq, bytes_eq, ℕ, Bytes, bytes_beq, bytes_cmp, bytes_le, included, excluded, unbounded,
  key_in_range, ◌≡◌, ◌↔◌, inl, refl, true, false, none, List, [], ◌∷◌, arith, In, if◌then◌else◌,
  ◌==◌, any, retain, All,
}
use crabstash.Base.Map
use crabstash.Lock.Mode.{LockMode, is_compatible}
use crabstash.Lock.Error.{ok, err, range_conflict}
use crabstash.Lock.Entry.{LockEntry, try_acquire}
use crabstash.Lock.Range
use crabstash.Lock.Range.{
  RangeLockEntry, IntervalTree, contains_key, overlaps, insert, remove_by_txn, entries,
  find_overlapping, find_containing_key, find_overlapping_recursive, insert_loop, insert_round,
  insert_all, unbounded_end, replicate, bound_less_than, bound_greater_than, bound_to_bytes,
  compare_starts, is_before, is_after, raise_max,
}
use crabstash.Lock.Range.Entries.{others}
use crabstash.Lock.Range.Exact.{IsSearchable, new-IsSearchable, insert-IsSearchable}
use crabstash.Lock.Range.History.{
  Change, inserted, removed, run, run_list, find_overlapping-run, find_containing_key-run,
}
use crabstash.Lock.Table
use crabstash.Lock.Table.{
  LockTable, Others, Outcome, done, lock_key, lock_range, release_all, upgrade_lock, check_conflict,
  check_range_conflict, key_clashes, put_entry, record_lock_acquired, or_new,
}
use crabstash.Lock.Table.Ranges.{RangesFree, KeysFree, lock_range_iff, lock_key-range_conflict}
use crabstash.Lock.Table.Check.{lock_key-check_conflict}
use crabstash.Lock.Table.Release.{mode_of, release_all_lem}
use crabstash.Lock.Table.Safety.{IsSound}
use crabstash.Lock.Table.Calls.{
  Call, locks_key, locks_range, releases, calls, FairCall, calls-IsSound,
}

-- Transaction n locks the keys from a to b.
abbrev lock_of : ℕ → ℕ → ℕ → RangeLockEntry
lock_of n a b = record {
  txn_id = n;
  mode = LockMode.x;
  start = included (a ∷ []);
  end = excluded (b ∷ []);
}

abbrev changes : List Change
changes =
    inserted (lock_of 1 40 60)
    ∷ inserted (lock_of 2 10 20)
    ∷ inserted (lock_of 3 70 90)
    ∷ inserted (lock_of 2 15 80)
    ∷ removed 1
    ∷ []

-- Two locks of three are found.
find_changes :
    find_containing_key (run Range.new changes) (17 ∷ []) ≡ lock_of 2 10 20 ∷ lock_of 2 15 80 ∷ []
unfolding find_containing_key find_overlapping find_overlapping_recursive insert insert_loop
    insert_round insert_all remove_by_txn retain bound_less_than bound_greater_than bound_to_bytes
    compare_starts is_before is_after raise_max overlaps bytes_cmp
find_changes = refl

in_reach : bound_less_than unbounded_end (included (17 ∷ [])) ≡ false
unfolding bound_less_than unbounded_end replicate bytes_cmp
in_reach = refl

key_in_reach : bytes_le (17 ∷ []) unbounded_end ≡ true
unfolding unbounded_end replicate bytes_cmp
key_in_reach = refl

find_overlapping-run_example :
    In (lock_of 2 15 80) (find_overlapping (run Range.new changes) (included (17 ∷ [])) unbounded)
    ↔ (In (lock_of 2 15 80) (run_list [] changes)
        × (overlaps (lock_of 2 15 80) (included (17 ∷ [])) unbounded ≡ true))
find_overlapping-run_example =
    find_overlapping-run changes (included (17 ∷ [])) unbounded (lock_of 2 15 80) in_reach

-- A lock on every key from 40 on.
abbrev open_lock : RangeLockEntry
open_lock = record { txn_id = 1; mode = LockMode.x; start = included (40 ∷ []); end = unbounded }

find_containing_key-run_example :
    In (lock_of 2 15 80) (find_containing_key (run Range.new changes) (17 ∷ [])) ↔ (
      In (lock_of 2 15 80) (run_list [] changes)
      × (contains_key (lock_of 2 15 80) (17 ∷ []) ≡ true))
find_containing_key-run_example =
    find_containing_key-run changes (17 ∷ []) (lock_of 2 15 80) key_in_reach

-- Transaction 1 holds the key 7, and the keys from 40 on.
abbrev key_entry : LockEntry
key_entry = record { key = 7 ∷ []; holders = (1, LockMode.x) ∷ []; wait_queue = [] }

abbrev table : LockTable
table = record (Table.new Table.default_config) {
  key_locks = (7 ∷ [], key_entry) ∷ [];
  range_locks = insert Range.new open_lock;
}

table-IsSearchable : IsSearchable table.range_locks
table-IsSearchable = insert-IsSearchable Range.new open_lock new-IsSearchable

lock_range_iff_example :
    ((lock_range table 2 (included (17 ∷ [])) (excluded (30 ∷ [])) LockMode.s).1 ≡ ok tt) ↔ (
      RangesFree table 2 (included (17 ∷ [])) (excluded (30 ∷ [])) LockMode.s
      × KeysFree table 2 (included (17 ∷ [])) (excluded (30 ∷ [])) LockMode.s)
lock_range_iff_example =
    lock_range_iff table 2 (included (17 ∷ [])) (excluded (30 ∷ [])) LockMode.s table-IsSearchable
      refl in_reach

abbrev alone : Others
alone = record {
  before = λ e. e;
  between = λ e. e;
  meanwhile = λ e. e;
  wakes = [];
  elsewhere = λ t. t;
}

open_lock-In : In open_lock (entries table.range_locks)
unfolding insert
open_lock-In = inl refl

key_50 : bytes_le (50 ∷ []) unbounded_end ≡ true
unfolding unbounded_end replicate bytes_cmp
key_50 = refl

open_lock-contains : contains_key open_lock (50 ∷ []) ≡ true
unfolding contains_key key_in_range bytes_cmp
open_lock-contains = refl

x_x : is_compatible LockMode.x LockMode.x ≡ false
unfolding is_compatible
x_x = refl

lock_key-range_conflict_example :
    lock_key table 2 (50 ∷ []) LockMode.x true alone ≡ done (err range_conflict) table
lock_key-range_conflict_example =
    lock_key-range_conflict table 2 (50 ∷ []) LockMode.x true alone open_lock table-IsSearchable
      refl key_50 open_lock-In open_lock-contains (omega arith) x_x

no_conflict : check_conflict table 2 (9 ∷ []) LockMode.x ≡ false
unfolding check_conflict check_range_conflict Map.get bytes_beq find_containing_key find_overlapping
    find_overlapping_recursive insert bound_less_than bound_greater_than bound_to_bytes is_before
    is_after overlaps unbounded_end replicate bytes_cmp any
no_conflict = refl

lock_key-check_conflict_example :
    lock_key table 2 (9 ∷ []) LockMode.x true alone
    ≡ done (ok tt) (
        record_lock_acquired
          (put_entry table
            (9 ∷ [])
            (try_acquire (or_new (Map.get (9 ∷ []) table.key_locks) (9 ∷ [])) 2 LockMode.x).0)
          2
          (9 ∷ []))
lock_key-check_conflict_example =
    lock_key-check_conflict table 2 (9 ∷ []) LockMode.x true alone no_conflict

release_all_lem_example :
    ((key : Bytes) (j : ℕ)
      → mode_of (release_all table 1) key j ≡ (if 1 == j then none else mode_of table key j))
    × (entries (release_all table 1).range_locks ≡ others 1 (entries table.range_locks))
    × (Map.get 1 (release_all table 1).waiter_graph.edges ≡ none)
    × (Map.get 1 (release_all table 1).waiter_graph.txn_info ≡ none)
    × (Map.get 1 (release_all table 1).escalation_state ≡ none)
release_all_lem_example = release_all_lem table 1

abbrev three_calls : List Call
three_calls =
    locks_key 1 (7 ∷ []) LockMode.x true alone
    ∷ locks_range 2 (included (40 ∷ [])) unbounded LockMode.s
    ∷ releases 1
    ∷ []

three_calls-FairCall : All FairCall three_calls
three_calls-FairCall = ((λ e c. c, λ e c. c, λ e c. c, tt, λ t s. s), (tt, (tt, tt)))

calls-IsSound_example : IsSound (calls (Table.new Table.default_config) three_calls)
calls-IsSound_example = calls-IsSound Table.default_config three_calls three_calls-FairCall
