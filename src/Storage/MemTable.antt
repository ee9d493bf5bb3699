-- ===== src/Storage/MemTable.antt =====
-- crabstash-storage/src/memtable.rs: the versions that are not yet in a table of their own. The map is
-- `SkipMap` of the crate crossbeam-skiplist, a parameter: what the source uses of it are its
-- insertion, its lookup, and its iteration in the order of the keys, whole and from a key on.
pub mod Newest
pub mod Cursor
use crabstash.Base.{
  bytes_eq, nat_eq, ℕ, suc, zero, ◌+◌, ◌%◌, ◌^◌, Bytes, bytes_cmp, ◌≡◌, ◌↔◌, Bool, true, false, not,
  ◌&&◌, Ordering, Option, none, some, List, [], ◌∷◌, length, is_empty, get_or, ltb, leb, ◌==◌,
  retain, In, All, if◌then◌else◌,
}
use crabstash.Common.Error.{Result, ok}
use crabstash.Common.Key.{Key, newest_first}
use crabstash.Storage.Iterator.{StorageIterator}

abbrev pub Entry : Type 0
Entry = Key × Option Bytes

-- The order of versions, by the slices of bytes.
abbrev pub key_cmp : Key → Key → Ordering
key_cmp a b = newest_first (bytes_cmp a.bytes b.bytes) a.timestamp b.timestamp

abbrev pub Ascending : List Entry → Type 0
Ascending [] = Unit
Ascending (e ∷ es) = All (λ (x : Entry). key_cmp e.0 x.0 ≡ Ordering.lt) es × Ascending es

abbrev pub not_before : Key → Entry → Bool
not_before k e = elim (key_cmp k e.0) [ Ordering.gt ↦ false | _ ↦ true ]

-- What the source uses of the map, and what it relies on.
pub record SkipMap (M : Type 0) : Type 0 where
  pub empty : M
  pub insert : M → Key → Option Bytes → M
  pub get : M → Key → Option (Option Bytes)
  pub iter : M → List Entry
  pub range_from : M → Key → List Entry
  pub get_empty : (k : Key) → get empty k ≡ none
  pub get-insert_self : (m : M) (k : Key) (v : Option Bytes) → get (insert m k v) k ≡ some v
  pub get-insert_ne :
      (m : M) (k j : Key) (v : Option Bytes) → (k ≡ j → ⊥) → get (insert m k v) j ≡ get m j
  pub iter_iff : (m : M) (k : Key) (v : Option Bytes) → In (k, v) (iter m) ↔ (get m k ≡ some v)
  pub iter_ascending : (m : M) → Ascending (iter m)
  pub range_from-iter : (m : M) (k : Key) → range_from m k ≡ retain (not_before k) (iter m)

module _ {M : Type 0} (skip : SkipMap M) where
  pub record MemTable : Type 0 where
    pub map : M
    pub size : ℕ

  abbrev pub new : MemTable
  new = record { map = skip.empty; size = 0 }

  unfoldable pub get : MemTable → Key → Option (Option Bytes)
  get table key = skip.get table.map key

  -- The loop over the entries from the searched key on.
  unfoldable pub first_visible : Bytes → ℕ → List Entry → Option (Option Bytes)
  first_visible key_data ts [] = none
  first_visible key_data ts (entry ∷ rest) =
      let later = first_visible key_data ts rest in
      if not (entry.0.bytes == key_data)
      then none
      else if leb entry.0.timestamp ts
      then some entry.1
      else later

  unfoldable pub get_at_ts : MemTable → Bytes → ℕ → Option (Option Bytes)
  unfolding first_visible
  get_at_ts table key_data ts =
      first_visible key_data ts
        (skip.range_from table.map (record { bytes = key_data; timestamp = ts }))

  -- The counter of the size is a machine word.
  unfoldable pub put : MemTable → Key → Bytes → MemTable
  put table key value = record {
    map = skip.insert table.map key (some value);
    size = (table.size + (length key.bytes + length value)) % 2 ^ 64;
  }

  unfoldable pub delete : MemTable → Key → MemTable
  delete table key = record {
    map = skip.insert table.map key none;
    size = (table.size + length key.bytes) % 2 ^ 64;
  }

  unfoldable pub len : MemTable → ℕ
  len table = length (skip.iter table.map)

  pub record MemTableIterator : Type 0 where
    pub entries : List Entry
    pub index : ℕ

  unfoldable pub new_iterator : MemTable → MemTableIterator
  new_iterator table = record { entries = skip.iter table.map; index = 0 }

  abbrev pub default_entry : Entry
  default_entry = (record { bytes = []; timestamp = 0 }, none)

  unfoldable pub iterator : StorageIterator MemTableIterator
  iterator = record {
    key = λ i. (get_or i.entries i.index default_entry).0;
    value = λ i. (get_or i.entries i.index default_entry).1;
    is_valid = λ i. ltb i.index (length i.entries);
    next = λ i. (record i { index = i.index + 1 }, ok tt);
  }

  -- `binary_search_by` may answer the place of any version of the key, so it is an argument.
  unfoldable pub seek : (List Entry → Bytes → ℕ) → MemTableIterator → Bytes → MemTableIterator
  seek binary_search i target = record i { index = binary_search i.entries target }

  unfoldable pub seek_to_first : MemTableIterator → MemTableIterator
  seek_to_first i = record i { index = 0 }
