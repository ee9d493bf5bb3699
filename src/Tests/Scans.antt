-- ===== src/Tests/Scans.antt =====
-- Iterators over two small memtables, and the scan of a prefix.
use crabstash.Base.{
  ◌<◌, ◌≡◌, refl, bytes_cmp, bytes_beq, retain, excluded, Bool, true, false, none, Ordering,
  included, key_in_range, [], ◌∷◌, length, arith,
}
use crabstash.Common.Key.{Key}
use crabstash.Storage.Iterator.{two_merge_iterator, new_two_merge, snapshot_iterator, new_snapshot}
use crabstash.Storage.Iterator.Denotes.{Denotes, merge_two, two_merge-Denotes}
use crabstash.Storage.Iterator.Snapshots.{firsts, up_to, snapshot-Denotes}
use crabstash.Storage.MemTable
use crabstash.Storage.MemTable.{key_cmp, MemTable, iterator, new_iterator}
use crabstash.Storage.MemTable.Cursor.{iterator-Denotes}
use crabstash.Tests.SkipMaps.{sorted_map, versions}
use crabstash.Db.Prefix.{
  prefix_end_bound, prefix_end_scan, starts_with, prefix_end_bound-starts_with,
}

-- The versions of another table.
abbrev other_versions : MemTable sorted_map
other_versions =
    MemTable.put sorted_map
      (MemTable.put sorted_map (MemTable.new sorted_map) (record { bytes = 7 ∷ []; timestamp = 5 })
        (4 ∷ []))
      (record { bytes = 8 ∷ []; timestamp = 1 }) (5 ∷ [])

abbrev key_le : Key → Key → Bool
key_le a b = elim (key_cmp a b) [ Ordering.gt ↦ false | _ ↦ true ]

two_merge-Denotes_example :
    Denotes
      (two_merge_iterator key_le (iterator sorted_map) (iterator sorted_map))
      (new_two_merge key_le
        (iterator sorted_map)
        (iterator sorted_map)
        (new_iterator sorted_map versions)
        (new_iterator sorted_map other_versions))
      (merge_two key_le (sorted_map.iter versions.map) (sorted_map.iter other_versions.map))
two_merge-Denotes_example =
    two_merge-Denotes key_le (iterator sorted_map) (iterator sorted_map)
      (sorted_map.iter versions.map) (sorted_map.iter other_versions.map)
      (new_iterator sorted_map versions) (new_iterator sorted_map other_versions)
      (iterator-Denotes sorted_map versions) (iterator-Denotes sorted_map other_versions)

few_versions : length (sorted_map.iter versions.map) < 9
unfolding MemTable.put MemTable.delete bytes_cmp
few_versions = omega arith

-- The key 7 has a version of the time 9, but a snapshot of the time 10 does not show it, since the
-- newest version is of the time 12.
snapshot-Denotes_example :
    Denotes
      (snapshot_iterator (iterator sorted_map) 9)
      (new_snapshot (iterator sorted_map) 9 (new_iterator sorted_map versions) 10)
      (up_to 10 (firsts none (sorted_map.iter versions.map)))
snapshot-Denotes_example =
    snapshot-Denotes (iterator sorted_map) 9 10 (sorted_map.iter versions.map)
      (new_iterator sorted_map versions) few_versions (iterator-Denotes sorted_map versions)

nothing_shown : up_to 10 (firsts none (sorted_map.iter versions.map)) ≡ []
unfolding MemTable.put MemTable.delete bytes_cmp bytes_beq retain
nothing_shown = refl

prefix_end_bound-starts_with_example :
    key_in_range (3 ∷ 255 ∷ 9 ∷ []) (included (3 ∷ 255 ∷ [])) (prefix_end_bound (3 ∷ 255 ∷ []))
    ≡ starts_with (3 ∷ 255 ∷ []) (3 ∷ 255 ∷ 9 ∷ [])
prefix_end_bound-starts_with_example =
    prefix_end_bound-starts_with (3 ∷ 255 ∷ []) (3 ∷ 255 ∷ 9 ∷ [])
      (omega arith, (omega arith, (omega arith, tt)))

end_of_prefix : prefix_end_bound (3 ∷ 255 ∷ []) ≡ excluded (4 ∷ [])
unfolding prefix_end_bound prefix_end_scan
end_of_prefix = refl
