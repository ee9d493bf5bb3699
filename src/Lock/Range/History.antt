-- ===== src/Lock/Range/History.antt =====
-- Any sequence of insertions and removals of an interval tree, against a list of locks.
use crabstash.Base.{
  key_in_range, subst, ℕ, ◌≡◌, ◌↔◌, refl, ap, ◌∙◌, Bytes, bytes_lt, bytes_le, bytes_lt-not_le,
  Bound, included, unbounded, true, false, List, [], ◌∷◌, ◌++◌, arith, In,
}
use crabstash.Lock.Range.{
  RangeLockEntry, contains_key, overlaps, IntervalTree, new, unbounded_end, bound_to_bytes,
  bound_less_than, insert, find_overlapping_recursive, find_overlapping, find_containing_key,
  entries, remove_by_txn,
}
use crabstash.Lock.Range.Order.{overlaps-contains_key}
use crabstash.Lock.Range.Exact.{
  IsSearchable, new-IsSearchable, insert-IsSearchable, remove_by_txn-IsSearchable,
  find_overlapping-IsSearchable,
}
use crabstash.Lock.Range.Entries.{others, entries-insert, entries-remove_by_txn}

-- A change of the tree.
pub data Change : Type 0 where
  inserted : RangeLockEntry → Change
  removed : ℕ → Change

abbrev pub change : IntervalTree → Change → IntervalTree
change tree (inserted entry) = insert tree entry
change tree (removed txn_id) = remove_by_txn tree txn_id

-- The same change of a plain list of locks.
abbrev pub change_list : List RangeLockEntry → Change → List RangeLockEntry
change_list es (inserted entry) = es ++ entry ∷ []
change_list es (removed txn_id) = others txn_id es

abbrev pub run : IntervalTree → List Change → IntervalTree
run tree [] = tree
run tree (c ∷ cs) = run (change tree c) cs

abbrev pub run_list : List RangeLockEntry → List Change → List RangeLockEntry
run_list es [] = es
run_list es (c ∷ cs) = run_list (change_list es c) cs

change-IsSearchable :
    (tree : IntervalTree) (c : Change) → IsSearchable tree → IsSearchable (change tree c)
change-IsSearchable tree (inserted entry) s = insert-IsSearchable tree entry s
change-IsSearchable tree (removed txn_id) s = remove_by_txn-IsSearchable tree txn_id

run-IsSearchable :
    (tree : IntervalTree) (cs : List Change) → IsSearchable tree → IsSearchable (run tree cs)
run-IsSearchable tree [] s = s
run-IsSearchable tree (c ∷ cs) s =
    run-IsSearchable (change tree c) cs (change-IsSearchable tree c s)

entries-change :
    (tree : IntervalTree) (c : Change) → entries (change tree c) ≡ change_list (entries tree) c
entries-change tree (inserted entry) = entries-insert tree entry
entries-change tree (removed txn_id) = entries-remove_by_txn tree txn_id

entries-run :
    (tree : IntervalTree) (cs : List Change) → entries (run tree cs) ≡ run_list (entries tree) cs
entries-run tree [] = refl
entries-run tree (c ∷ cs) =
    entries-run (change tree c) cs
    ∙ ap (λ (es : List RangeLockEntry). run_list es cs) (entries-change tree c)

-- After any sequence of insertions and removals the tree finds, for a range that does not start
-- above 256 bytes 0xFF, exactly the locks that a plain list of them holds and that overlap the range.
pub find_overlapping-run :
    (cs : List Change) (start end : Bound) (a : RangeLockEntry)
    → bound_less_than unbounded_end start ≡ false
    → In a (find_overlapping (run new cs) start end)
      ↔ (In a (run_list [] cs) × (overlaps a start end ≡ true))
find_overlapping-run cs start end a u =
    let exact =
      find_overlapping-IsSearchable (run new cs) start end a
        (run-IsSearchable new cs new-IsSearchable) u in
    subst
      (λ (es : List RangeLockEntry).
        In a (find_overlapping (run new cs) start end) ↔ (In a es × (overlaps a start end ≡ true)))
      (entries-run new cs) exact

included-unbounded_end :
    (key : Bytes)
    → bytes_le key unbounded_end ≡ true
    → bound_less_than unbounded_end (included key) ≡ false
unfolding bound_less_than
included-unbounded_end key le = ground (arith, bytes_lt-not_le unbounded_end key)

pub find_containing_key-IsSearchable :
    (tree : IntervalTree) (key : Bytes) (a : RangeLockEntry)
    → IsSearchable tree
    → bytes_le key unbounded_end ≡ true
    → In a (find_containing_key tree key) ↔ (In a (entries tree) × (contains_key a key ≡ true))
unfolding find_containing_key
find_containing_key-IsSearchable tree key a s le = rw (overlaps-contains_key a key) at (
    find_overlapping-IsSearchable tree (included key) (included key) a s
      (included-unbounded_end key le))

-- After any sequence of insertions and removals the tree finds, for a key that is not above 256
-- bytes 0xFF, exactly the locks that a plain list of them holds and whose range contains the key.
pub find_containing_key-run :
    (cs : List Change) (key : Bytes) (a : RangeLockEntry)
    → bytes_le key unbounded_end ≡ true
    → In a (find_containing_key (run new cs) key)
      ↔ (In a (run_list [] cs) × (contains_key a key ≡ true))
find_containing_key-run cs key a le =
    let exact =
      find_containing_key-IsSearchable (run new cs) key a (run-IsSearchable new cs new-IsSearchable)
        le in
    subst
      (λ (es : List RangeLockEntry).
        In a (find_containing_key (run new cs) key) ↔ (In a es × (contains_key a key ≡ true)))
      (entries-run new cs) exact

-- In a tree with one lock, on all keys, the lock contains a key above 256 bytes 0xFF, but the search for
-- this key does not find it.
all_keys-past_end :
    (entry : RangeLockEntry) (key : Bytes)
    → entry.start ≡ unbounded
    → entry.end ≡ unbounded
    → bytes_lt unbounded_end key ≡ true
    → (contains_key entry key ≡ true) × (find_containing_key (insert new entry) key ≡ [])
unfolding find_containing_key find_overlapping find_overlapping_recursive insert bound_to_bytes
    bound_less_than contains_key key_in_range
all_keys-past_end entry key b e lt = (rw (b, e) refl, rw (e, lt) refl)
