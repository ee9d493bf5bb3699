-- ===== src/Txn/WriteSet.antt =====
-- crabstash-txn/src/transaction.rs: `WriteSet`, the writes of a transaction before it commits.
use crabstash.Base.{
  bytes_eq, ◌≡◌, refl, Bytes, true, Option, none, some, List, [], ◌∷◌, if◌then◌else◌, arith, ◌==◌,
  Bool-cases, inl, inr, ap, ◌∙◌,
}
use mathlib.Core.Option
use crabstash.Base.Map
use crabstash.Base.Map.{Map}
use crabstash.Base.Set

pub record WriteSet : Type 0 where
  pub puts : Map Bytes Bytes
  pub deletes : List Bytes

abbrev pub new : WriteSet
new = record { puts = []; deletes = [] }

unfoldable pub put : WriteSet → Bytes → Bytes → WriteSet
put w key value = record { puts = Map.insert key value w.puts; deletes = Set.remove key w.deletes }

unfoldable pub delete : WriteSet → Bytes → WriteSet
delete w key = record { puts = Map.remove key w.puts; deletes = Set.insert key w.deletes }

-- The outer `none` means that the transaction has not written the key, the inner one a deletion.
unfoldable pub get : WriteSet → Bytes → Option (Option Bytes)
get w key = if Set.contains key w.deletes then some none else Option.map some (Map.get key w.puts)

pub get-put :
    (w : WriteSet) (k j v : Bytes) → get (put w k v) j ≡ (if k == j then some (some v) else get w j)
unfolding get put
get-put w k j v = elim (Bool-cases (bytes_eq.beq k j)) [
  | inl same ↦ rw (Set.contains-remove k j w.deletes, Map.get-insert k j v w.puts, same) refl
  | inr other ↦ rw (Set.contains-remove k j w.deletes, Map.get-insert k j v w.puts, other) refl
]

pub get-delete :
    (w : WriteSet) (k j : Bytes) → get (delete w k) j ≡ (if k == j then some none else get w j)
unfolding get delete
get-delete w k j = elim (Bool-cases (bytes_eq.beq k j)) [
  | inl same ↦ rw (Set.contains-insert k j w.deletes, same) refl
  | inr other ↦ rw (Set.contains-insert k j w.deletes, Map.get-remove k j w.puts, other) refl
]

-- No key is both put and deleted.
pub record IsConsistent (w : WriteSet) : Type 0 where
  pub apart : (k : Bytes) → Set.contains k w.deletes ≡ true → Map.get k w.puts ≡ none

pub put-IsConsistent : (w : WriteSet) (k v : Bytes) → IsConsistent w → IsConsistent (put w k v)
unfolding put
put-IsConsistent w k v c = record {
  apart = λ j h.
      ground (arith, Set.contains-remove k j w.deletes, Map.get-insert k j v w.puts, c.apart j);
}

pub delete-IsConsistent : (w : WriteSet) (k : Bytes) → IsConsistent w → IsConsistent (delete w k)
unfolding delete
delete-IsConsistent w k c = record {
  apart = λ j h.
      ground (arith, Set.contains-insert k j w.deletes, Map.get-remove k j w.puts, c.apart j);
}

-- One write of a transaction.
pub data Write : Type 0 where
  put_key : Bytes → Bytes → Write
  delete_key : Bytes → Write

abbrev pub run : WriteSet → List Write → WriteSet
run w [] = w
run w (put_key k v ∷ writes) = run (put w k v) writes
run w (delete_key k ∷ writes) = run (delete w k) writes

-- The last write to a key in the list, over what was known before.
abbrev pub last_write : Option (Option Bytes) → List Write → Bytes → Option (Option Bytes)
last_write o [] j = o
last_write o (put_key k v ∷ writes) j = last_write (if k == j then some (some v) else o) writes j
last_write o (delete_key k ∷ writes) j = last_write (if k == j then some none else o) writes j

-- After any writes on a write set in which no key is both put and deleted, the transaction reads, for every key, its own last write to that key; and
-- no key is both put and deleted, so that the order in which a commit applies the puts and the
-- deletions does not matter.
pub get-run :
    (w : WriteSet) (writes : List Write) (j : Bytes)
    → IsConsistent w
    → (get (run w writes) j ≡ last_write (get w j) writes j) × IsConsistent (run w writes)
get-run w [] j c = (refl, c)
get-run w (put_key k v ∷ writes) j c =
    let ih = get-run (put w k v) writes j (put-IsConsistent w k v c) in
    (ih.0 ∙ ap (λ o. last_write o writes j) (get-put w k j v), ih.1)
get-run w (delete_key k ∷ writes) j c =
    let ih = get-run (delete w k) writes j (delete-IsConsistent w k c) in
    (ih.0 ∙ ap (λ o. last_write o writes j) (get-delete w k j), ih.1)
