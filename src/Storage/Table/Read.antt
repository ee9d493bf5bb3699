-- ===== src/Storage/Table/Read.antt =====
-- crabstash-storage/src/sstable.rs: a block is read from the file of a table and searched. The cache of
-- blocks is an argument that answers for some blocks; what a read puts into it is left out.
use crabstash.Base.{
  ℕ, ◌+◌, ◌-◌, ◌%◌, ◌<◌, ◌^◌, Bytes, ◌≡◌, refl, sym, ap, ◌∙◌, Bool, true, false, not, Option, none,
  some, List, [], ◌∷◌, ◌++◌, length, length-append, take, drop, take-length, drop-length, get_or,
  ltb, leb, eqb, arith, if◌then◌else◌,
}
use crabstash.Common.Error.{Error}
use crabstash.Storage.Codec.{
  put_le, get_le, read_exact, length-put_le, get_le-put_le, read_exact-append,
}
use crabstash.Storage.Table.{
  CompressionType, uncompressed, lz4, BlockMeta, Filter, Searched, search_block,
}
use crabstash.Storage.Table.Blocks.{Row, encode_all}
use crabstash.Storage.Table.Layout.{append_assoc, frame, frames, meta_of, end_of, offset_after}

-- The bytes of a block, an error, or a panic.
pub data BlockRead : Type 0 where
  block : Bytes → BlockRead
  failed : Error → BlockRead
  panicked : BlockRead

abbrev pub or_corrupt : Option Bytes → BlockRead
or_corrupt none = failed Error.corruption
or_corrupt (some data') = block data'

module _ (hash : Bytes → ℕ) (decompress_into : Bytes → ℕ → Option Bytes) where
  abbrev pub decompress_block : CompressionType → Bytes → ℕ → BlockRead
  decompress_block uncompressed bytes uncompressed_len = block bytes
  decompress_block lz4 bytes uncompressed_len = or_corrupt (decompress_into bytes uncompressed_len)

  -- The last four bytes are the checksum of the others.
  unfoldable pub check_block : CompressionType → ℕ → Option (Bytes × Bytes) → BlockRead
  check_block compression uncompressed_len none = failed Error.io
  check_block compression uncompressed_len (some (bytes, rest)) =
      let checksum_start = length bytes - 4 in
      if ltb (length bytes) 4
      then panicked
      else if not (eqb (get_le (drop checksum_start bytes)) (hash (take checksum_start bytes)))
      then failed Error.corruption
      else decompress_block compression (take checksum_start bytes) uncompressed_len

  unfoldable pub read_block_from_disk : CompressionType → Bytes → BlockMeta → BlockRead
  unfolding check_block
  read_block_from_disk compression file meta =
      check_block compression meta.uncompressed_length
        (read_exact meta.length_of_block (drop meta.offset file))

  module _ (compress : Bytes → Bytes) where
    -- What is read of a framed block.
    check_block-frame :
        {B : Type 0} (filter : Filter B) (compression : CompressionType) (rows : List Row)
        (rest : Bytes)
        → ((x : Bytes) → hash x < 2 ^ 32)
        → ((x : Bytes) → decompress_into (compress x) (length x) ≡ some x)
        → check_block compression
            (length (encode_all rows))
            (some (frame filter hash compress compression rows, rest))
          ≡ block (encode_all rows)
    unfolding check_block
    check_block-frame filter compression rows rest small inverse = framed compression
      where
        by_output :
            (c : CompressionType) (output : Bytes)
            → decompress_block c output (length (encode_all rows)) ≡ block (encode_all rows)
            → check_block c
                (length (encode_all rows))
                (some (output ++ put_le 4 (hash output), rest))
              ≡ block (encode_all rows)
        by_output c output back =
            let total : length (output ++ put_le 4 (hash output)) ≡ length output + 4 = omega (
              arith,
              length-append {0} output (put_le 4 (hash output)),
              length-put_le 4 (hash output),
            ) in
            let start : length (output ++ put_le 4 (hash output)) - 4 ≡ length output =
              omega (arith, total) in
            let long : ltb (length (output ++ put_le 4 (hash output))) 4 ≡ false =
              ground (arith, total) in
            let same : eqb (hash output) (hash output) ≡ true = ground arith in
            rw
              (
                long,
                start,
                drop-length output (put_le 4 (hash output)),
                take-length output (put_le 4 (hash output)),
                get_le-put_le 4 (hash output) (small output),
                same,
              )
              back

        framed :
            (c : CompressionType)
            → check_block c
                (length (encode_all rows))
                (some (frame filter hash compress c rows, rest))
              ≡ block (encode_all rows)
        framed uncompressed = by_output uncompressed (encode_all rows) refl
        framed lz4 =
            by_output lz4 (compress (encode_all rows)) (ap or_corrupt (inverse (encode_all rows)))

frames-split :
    {B : Type 0} (filter : Filter B) (hash : Bytes → ℕ) (compress : Bytes → Bytes)
    (compression : CompressionType) (before : List (List Row)) (rows : List Row)
    (behind : List (List Row)) (tail : Bytes)
    → frames filter hash compress compression (before ++ rows ∷ behind) ++ tail
      ≡ frames filter hash compress compression before
        ++ (frame filter hash compress compression rows
            ++ (frames filter hash compress compression behind ++ tail))
frames-split filter hash compress compression [] rows behind tail =
    append_assoc (frame filter hash compress compression rows)
      (frames filter hash compress compression behind) tail
frames-split filter hash compress compression (b ∷ before) rows behind tail =
    append_assoc (frame filter hash compress compression b)
      (frames filter hash compress compression (before ++ rows ∷ behind)) tail
    ∙ ap (λ (x : Bytes). frame filter hash compress compression b ++ x)
        (frames-split filter hash compress compression before rows behind tail)
    ∙ sym (
        append_assoc (frame filter hash compress compression b)
          (frames filter hash compress compression before)
          (frame filter hash compress compression rows
            ++ (frames filter hash compress compression behind ++ tail)))

end_of-frames :
    {B : Type 0} (filter : Filter B) (hash : Bytes → ℕ) (compress : Bytes → Bytes)
    (compression : CompressionType) (before : List (List Row)) (offset : ℕ)
    → offset + length (frames filter hash compress compression before) < 2 ^ 32
    → end_of filter hash compress compression offset before
      ≡ offset + length (frames filter hash compress compression before)
end_of-frames filter hash compress compression [] offset small = omega arith
end_of-frames filter hash compress compression (b ∷ before) offset small =
    let sum =
      length-append {0} (frame filter hash compress compression b)
        (frames filter hash compress compression before) in
    let next : offset_after filter hash compress compression offset b
        ≡ offset + length (frame filter hash compress compression b) =
      omega (arith, sum) in
    let rest =
      end_of-frames filter hash compress compression before
        (offset_after filter hash compress compression offset b) (omega (arith, sum, next)) in
    omega (arith, sum, next, rest)

-- In a file that starts with framed blocks, each block is read back, and its checksum accepted, by the
-- meta data that the builder keeps for it, if the blocks stay below 4 GiB, the checksum fits four bytes
-- and the decompression undoes the compression.
pub read_block_from_disk-frames :
    {B : Type 0} (filter : Filter B) (hash : Bytes → ℕ) (compress : Bytes → Bytes)
    (decompress_into : Bytes → ℕ → Option Bytes) (compression : CompressionType)
    (before : List (List Row)) (rows : List Row) (behind : List (List Row)) (tail : Bytes)
    → ((x : Bytes) → hash x < 2 ^ 32)
    → ((x : Bytes) → decompress_into (compress x) (length x) ≡ some x)
    → length (frames filter hash compress compression (before ++ rows ∷ behind)) < 2 ^ 32
    → length (encode_all rows) < 2 ^ 32
    → read_block_from_disk hash decompress_into compression
        (frames filter hash compress compression (before ++ rows ∷ behind) ++ tail)
        (meta_of filter hash compress compression
          (end_of filter hash compress compression 0 before)
          rows)
      ≡ block (encode_all rows)
unfolding read_block_from_disk
read_block_from_disk-frames filter hash compress decompress_into compression before rows behind tail
      small_hash inverse small short =
    let whole = ap length (frames-split filter hash compress compression before rows behind []) in
    let first = length-append {0} (frames filter hash compress compression before) (
      frame filter hash compress compression rows
      ++ (frames filter hash compress compression behind ++ [])) in
    let second =
      length-append {0} (frame filter hash compress compression rows)
        (frames filter hash compress compression behind ++ []) in
    let none_more =
      length-append {0} (frames filter hash compress compression (before ++ rows ∷ behind)) [] in
    let at : end_of filter hash compress compression 0 before
        ≡ length (frames filter hash compress compression before) =
      omega (
        arith,
        end_of-frames filter hash compress compression before 0
            (omega (arith, whole, first, second, none_more)),
      ) in
    let len : length (frame filter hash compress compression rows) % 2 ^ 32
        ≡ length (frame filter hash compress compression rows) =
      omega (arith, whole, first, second, none_more) in
    let raw : length (encode_all rows) % 2 ^ 32 ≡ length (encode_all rows) = omega arith in
    rw
      (
        frames-split filter hash compress compression before rows behind tail,
        at,
        len,
        raw,
        drop-length (frames filter hash compress compression before) (
            frame filter hash compress compression rows
            ++ (frames filter hash compress compression behind ++ tail)),
        read_exact-append (frame filter hash compress compression rows)
            (frames filter hash compress compression behind ++ tail),
      )
      (check_block-frame hash decompress_into compress filter compression rows
        (frames filter hash compress compression behind ++ tail) small_hash inverse)

-- What the standard library's `binary_search_by` answers, for the first keys of the blocks.
pub data Position : Type 0 where
  found : ℕ → Position
  insertion_point : ℕ → Position

-- `unwrap_or_else(|idx| idx.saturating_sub(1))`
abbrev pub or_before : Position → ℕ
or_before (found i) = i
or_before (insertion_point i) = i - 1

-- The search may answer the place of any block whose first key is the one searched for, so it is an
-- argument.
unfoldable pub find_block : (List BlockMeta → Bytes → Position) → List BlockMeta → Bytes → ℕ
find_block binary_search metas key = or_before (binary_search metas key)

-- What `get` answers.
pub data TableRead : Type 0 where
  read : Option Bytes → TableRead
  read_failed : Error → TableRead
  read_panicked read_endless : TableRead

abbrev pub of_searched : Searched → TableRead
of_searched (Searched.answer value) = read value
of_searched Searched.panicked = read_panicked
of_searched Searched.unfinished = read_endless

abbrev pub search_read : BlockRead → Bytes → TableRead
search_read (block bytes) key = of_searched (search_block bytes key)
search_read (failed e) key = read_failed e
search_read panicked key = read_panicked

abbrev pub cached_or : Option Bytes → BlockRead → BlockRead
cached_or none from_disk = from_disk
cached_or (some bytes) from_disk = block bytes

abbrev pub default_meta : BlockMeta
default_meta = record {
  offset = 0;
  length_of_block = 0;
  uncompressed_length = 0;
  first_key = [];
  last_key = [];
}

module _ (hash : Bytes → ℕ) (decompress_into : Bytes → ℕ → Option Bytes)
    (binary_search : List BlockMeta → Bytes → Position) (may_contain : Bytes → Bool)
    (cached : ℕ → Option Bytes) where
  unfoldable pub read_block : CompressionType → Bytes → List BlockMeta → ℕ → BlockRead
  unfolding read_block_from_disk
  read_block compression file metas idx =
      cached_or (cached idx)
        (read_block_from_disk hash decompress_into compression file (get_or metas idx default_meta))

  unfoldable pub get : CompressionType → Bytes → List BlockMeta → Bytes → TableRead
  unfolding read_block find_block
  get compression file metas key =
      let block_idx = find_block binary_search metas key in
      if not (may_contain key)
      then read none
      else if leb (length metas) block_idx
      then read none
      else search_read (read_block compression file metas block_idx) key
