-- ===== src/Storage/MemTable/Cursor.antt =====
-- The iterator of a memtable runs through its versions in order.
use crabstash.Base.{ℕ, suc, ◌+◌, ◌≡◌, refl, List, [], ◌∷◌, length, get_or, arith}
use crabstash.Storage.Iterator.Denotes.{Denotes}
use crabstash.Storage.MemTable.{Entry, SkipMap, MemTable, new_iterator, default_entry, iterator}

module _ {M : Type 0} (skip : SkipMap M) where
  from_index :
      (rest es : List Entry) (i : ℕ)
      → length es ≡ i + length rest
      → ((j : ℕ) → get_or es (i + j) (default_entry skip) ≡ get_or rest j (default_entry skip))
      → Denotes (iterator skip) (record { entries = es; index = i }) rest
  unfolding iterator
  from_index [] es i len h = ground arith
  from_index ((k, v) ∷ rest) es i len h =
      let zero_more : i + 0 ≡ i = omega arith in
      let here : get_or es i (default_entry skip) ≡ (k, v) = rw zero_more at (h 0) in
      (
        ground arith,
        rw here refl,
        rw here refl,
        refl,
        from_index rest es (i + 1) (omega arith)
            (λ j. let shift : i + 1 + j ≡ i + suc j = omega arith in rw shift (h (suc j))),
      )

  -- The iterator of a memtable runs through the versions of its map in their order.
  pub iterator-Denotes :
      (table : MemTable skip)
      → Denotes (iterator skip) (new_iterator skip table) (skip.iter table.map)
  unfolding new_iterator
  iterator-Denotes table =
      from_index (skip.iter table.map) (skip.iter table.map) 0 (omega arith)
        (λ j. let none_before : 0 + j ≡ j = omega arith in rw none_before refl)
