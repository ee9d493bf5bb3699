-- ===== src/Tests/SortedTables.antt =====
-- A small sorted table.
use crabstash.Base.{
  bytes_beq, bytes_eq, nat_eq, Bytes, ◌≡◌, none, some, List, [], ◌∷◌, ◌++◌, All, length, Option,
  arith, ◌<◌, ◌^◌, refl, ◌%◌, ℕ,
}
use crabstash.Common.Key.{Key}
use crabstash.Storage.Table.{
  lz4, Filter, new_with_compression, search_block, answer, flush_last, finish, add, flush_block,
  encode_entry, SsTableBuilder,
}
use crabstash.Storage.Codec.{put_le}
use crabstash.Storage.Table.Open.{opened, open_with_cache}
use crabstash.Storage.Table.Read.{block, read_block_from_disk, read_block_from_disk-frames}
use crabstash.Storage.Table.WholeFile.{metadata_of, open_with_cache-finish}
use crabstash.Storage.Table.Blocks.{Row, encode_all, Fits, search_block-encode_all}
use crabstash.Storage.Table.Layout.{
  IsLaidOut, add_all, rows_of, add_all-IsLaidOut, frames, meta_of, end_of,
}

-- Two rows and a deletion.
abbrev rows : List Row
rows = (1 ∷ [], some (5 ∷ 6 ∷ [])) ∷ (2 ∷ [], none) ∷ (3 ∷ [], some []) ∷ []

rows-Fits : All Fits rows
rows-Fits = ((omega arith, omega arith), ((omega arith, tt), ((omega arith, omega arith), tt)))

search_block-encode_all_example :
    search_block (encode_all rows) (1 ∷ []) ≡ answer (some (5 ∷ 6 ∷ []))
unfolding bytes_beq
search_block-encode_all_example = search_block-encode_all rows (1 ∷ []) rows-Fits

-- A filter that remembers the bytes of the keys.
abbrev key_filter : Filter Bytes
key_filter = record { insert = λ b k. b ++ k; num_hashes = λ b. 1; bits = λ b. b }

abbrev versions : List (Key × Option Bytes)
versions =
    (record { bytes = 1 ∷ []; timestamp = 4 }, some (5 ∷ 6 ∷ []))
    ∷ (record { bytes = 2 ∷ []; timestamp = 3 }, none)
    ∷ []

add_all-IsLaidOut_example :
    IsLaidOut key_filter length
      (λ b. b)
      lz4
      (add_all key_filter length
        (λ b. b)
        lz4
        (new_with_compression key_filter length (λ b. b) [] lz4)
        versions)
      (rows_of key_filter length (λ b. b) lz4 versions)
add_all-IsLaidOut_example = add_all-IsLaidOut key_filter length (λ b. b) lz4 [] versions

abbrev built : SsTableBuilder key_filter length (λ b. b)
built =
    add_all key_filter length (λ b. b) lz4 (new_with_compression key_filter length (λ b. b) [] lz4)
      versions

built-small : length (flush_last key_filter length (λ b. b) built).written < 2 ^ 32
unfolding flush_block add new_with_compression encode_entry put_le
built-small = omega arith

built-bits : length (flush_last key_filter length (λ b. b) built).bloom < 2 ^ 32
unfolding flush_block add new_with_compression encode_entry put_le
built-bits = omega arith

open_with_cache-finish_example :
    open_with_cache (finish key_filter length (λ b. b) built)
    ≡ opened (metadata_of key_filter length (λ b. b) (flush_last key_filter length (λ b. b) built))
open_with_cache-finish_example =
    open_with_cache-finish key_filter length (λ b. b) lz4 [] versions built
      (omega arith, (omega arith, tt)) refl built-small (omega arith) built-bits

abbrev small_hash : Bytes → ℕ
small_hash bytes = length bytes % 2 ^ 32

abbrev frames_of : List (List Row) → Bytes
frames_of = frames key_filter small_hash (λ b. b) lz4

frames-small : length (frames_of (rows ∷ rows ∷ [])) < 2 ^ 32
unfolding encode_entry put_le
frames-small = omega arith

rows-small : length (encode_all rows) < 2 ^ 32
unfolding encode_entry put_le
rows-small = omega arith

read_block_from_disk-frames_example :
    read_block_from_disk small_hash
      (λ b n. some b)
      lz4
      (frames_of (rows ∷ rows ∷ []) ++ 9 ∷ [])
      (meta_of key_filter small_hash
        (λ b. b)
        lz4
        (end_of key_filter small_hash (λ b. b) lz4 0 (rows ∷ []))
        rows)
    ≡ block (encode_all rows)
read_block_from_disk-frames_example =
    read_block_from_disk-frames key_filter small_hash (λ b. b) (λ b n. some b) lz4 (rows ∷ []) rows
      [] (9 ∷ []) (λ x. omega arith) (λ x. refl) frames-small rows-small
