-- ===== src/Lock/Ssi/RwSet.antt =====
-- crabstash-lock/src/ssi.rs: `ReadWriteSet`, what one transaction has read and written, and the
-- conflicts that were found for it. `hash_key`, the hash of the crate rapidhash, is a parameter.
use crabstash.Base.{
  nat_eq, ℕ, Bytes, Bound, key_in_range, Bool, false, not, ◌||◌, List, [], ◌∷◌, ◌++◌, any, map,
  is_empty, if◌then◌else◌,
}
use crabstash.Base.Set
use crabstash.Base.Set.{is_disjoint→, is_disjoint-false}

pub data ConflictType : Type 0 where
  read_write write_read : ConflictType

pub record RwConflict : Type 0 where
  pub from_txn : ℕ
  pub to_txn : ℕ
  pub conflict_type : ConflictType

pub record ReadWriteSet : Type 0 where
  pub read_keys : List ℕ
  pub write_keys : List ℕ
  pub read_ranges : List (Bound × Bound)
  pub inbound_conflicts : List RwConflict
  pub outbound_conflicts : List RwConflict

abbrev pub new : ReadWriteSet
new = record {
  read_keys = [];
  write_keys = [];
  read_ranges = [];
  inbound_conflicts = [];
  outbound_conflicts = [];
}

module _ (hash_key : Bytes → ℕ) where
  unfoldable pub record_read : ReadWriteSet → Bytes → ReadWriteSet
  record_read s key = record s { read_keys = Set.insert (hash_key key) s.read_keys }

  unfoldable pub record_write : ReadWriteSet → Bytes → ReadWriteSet
  record_write s key = record s { write_keys = Set.insert (hash_key key) s.write_keys }

unfoldable pub record_range_read : ReadWriteSet → Bound → Bound → ReadWriteSet
record_range_read s start end = record s { read_ranges = s.read_ranges ++ (start, end) ∷ [] }

abbrev pub add_inbound_conflict : ReadWriteSet → RwConflict → ReadWriteSet
add_inbound_conflict s conflict = record s {
  inbound_conflicts = s.inbound_conflicts ++ conflict ∷ [];
}

abbrev pub add_outbound_conflict : ReadWriteSet → RwConflict → ReadWriteSet
add_outbound_conflict s conflict = record s {
  outbound_conflicts = s.outbound_conflicts ++ conflict ∷ [];
}

abbrev pub has_inbound_conflict : ReadWriteSet → Bool
has_inbound_conflict s = not (is_empty s.inbound_conflicts)

abbrev pub has_outbound_conflict : ReadWriteSet → Bool
has_outbound_conflict s = not (is_empty s.outbound_conflicts)

unfoldable pub has_dangerous_structure : ReadWriteSet → Bool
has_dangerous_structure s =
    if not (has_inbound_conflict s) || not (has_outbound_conflict s)
    then false
    else Set.is_disjoint (map (λ (c : RwConflict). c.from_txn) s.inbound_conflicts)
        (map (λ (c : RwConflict). c.to_txn) s.outbound_conflicts)

unfoldable pub has_read_write_overlap : ReadWriteSet → List ℕ → Bool
has_read_write_overlap s other_writes = not (Set.is_disjoint s.read_keys other_writes)

unfoldable pub has_write_read_overlap : ReadWriteSet → List ℕ → Bool
has_write_read_overlap s other_reads = not (Set.is_disjoint s.write_keys other_reads)

-- `key_in_ranges` of the manager is the same test.
unfoldable pub key_in_ranges : Bytes → List (Bound × Bound) → Bool
key_in_ranges key ranges = any (λ (r : Bound × Bound). key_in_range key r.0 r.1) ranges

unfoldable pub has_range_overlap : ReadWriteSet → Bytes → Bool
unfolding key_in_ranges
has_range_overlap s key = key_in_ranges key s.read_ranges
