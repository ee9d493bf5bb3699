-- ===== src/Storage/Table.antt =====
-- crabstash-storage/src/sstable.rs: sorted tables, the builder that writes one and the search of a
-- block. The file is the list of the bytes that are written to it; the checksum of crc32fast, the
-- compression of lz4_flex and the Bloom filter are parameters. Writes are taken to succeed.
pub mod Blocks
pub mod Layout
pub mod Open
pub mod WholeFile
pub mod Read
use crabstash.Base.{
  bytes_eq, ℕ, zero, suc, ◌+◌, ◌%◌, ◌^◌, Bytes, Bool, true, false, Option, none, some, List, [],
  ◌∷◌, ◌++◌, length, is_empty, if◌then◌else◌, ◌==◌, eqb, leb,
}
use crabstash.Common.Key.{Key}
use crabstash.Storage.Codec.{put_le, get_le, and_then, read_exact}

-- `SSTABLE_MAGIC`
abbrev pub sstable_magic : ℕ
sstable_magic = 0x53535442

-- `BLOCK_SIZE`
abbrev pub block_size : ℕ
block_size = 4096

-- `u32::MAX`, the length of the value of a deletion.
abbrev pub tombstone_len : ℕ
tombstone_len = 0xFFFFFFFF

pub data CompressionType : Type 0 where
  uncompressed lz4 : CompressionType

unfoldable pub to_u8 : CompressionType → ℕ
to_u8 uncompressed = 0
to_u8 lz4 = 1

unfoldable pub from_u8 : ℕ → CompressionType
from_u8 v = if eqb v 1 then lz4 else uncompressed

pub record BlockMeta : Type 0 where
  pub offset : ℕ
  pub length_of_block : ℕ
  pub uncompressed_length : ℕ
  pub first_key : Bytes
  pub last_key : Bytes

abbrev pub put_value : Option Bytes → Bytes
put_value (some v) = put_le 4 (length v) ++ v
put_value none = put_le 4 tombstone_len

-- What `add` appends to the block.
unfoldable pub encode_entry : Bytes → Option Bytes → Bytes
encode_entry key value = put_le 4 (length key) ++ (key ++ put_value value)

-- The first entry of a block and the rest of it; `none` is a panic of `get_u32_le`, of `advance` or of
-- a slice.
abbrev pub parse_value : Bytes → ℕ → Bytes → Option (Bytes × Option Bytes × Bytes)
parse_value key value_len buf =
    if eqb value_len tombstone_len
    then some (key, none, buf)
    else and_then (read_exact value_len buf) λ (value, rest). some (key, some value, rest)

unfoldable pub parse_entry : Bytes → Option (Bytes × Option Bytes × Bytes)
parse_entry block = and_then (read_exact 4 block) λ (key_len, buf).
    and_then (read_exact (get_le key_len) buf) λ (key, rest).
      and_then (read_exact 4 rest) λ (value_len, tail). parse_value key (get_le value_len) tail

pub data Searched : Type 0 where
  answer : Option Bytes → Searched
  panicked : Searched
  unfinished : Searched

abbrev pub match_entry :
    Bytes → Option (Bytes × Option Bytes × Bytes) → (Bytes → Searched) → Searched
match_entry search_key none search_on = panicked
match_entry search_key (some (key, value, rest)) search_on =
    if key == search_key then answer value else search_on rest

-- The loop has fuel for one more round than there are bytes.
unfoldable pub search_loop : ℕ → Bytes → Bytes → Searched
unfolding parse_entry
search_loop zero block search_key = unfinished
search_loop (suc fuel) block search_key =
    if is_empty block
    then answer none
    else match_entry search_key (parse_entry block) (λ rest. search_loop fuel rest search_key)

unfoldable pub search_block : Bytes → Bytes → Searched
unfolding search_loop
search_block block search_key = search_loop (suc (length block)) block search_key

abbrev pub last_of_metas : List BlockMeta → Bytes
last_of_metas [] = []
last_of_metas (m ∷ []) = m.last_key
last_of_metas (m ∷ n ∷ metas) = last_of_metas (n ∷ metas)

unfoldable pub encode_meta : BlockMeta → Bytes
encode_meta m =
    put_le 8 m.offset
    ++ (put_le 4 m.length_of_block
        ++ (put_le 4 m.uncompressed_length
            ++ (put_le 4 (length m.first_key)
                ++ (m.first_key ++ (put_le 4 (length m.last_key) ++ m.last_key)))))

unfoldable pub encode_metas : List BlockMeta → Bytes
unfolding encode_meta
encode_metas [] = []
encode_metas (m ∷ metas) = encode_meta m ++ encode_metas metas

unfoldable pub encode_metadata : CompressionType → List BlockMeta → ℕ → Bytes → Bytes
unfolding encode_metas to_u8
encode_metadata compression metas num_hashes bits =
    to_u8 compression
    ∷ (put_le 4 (length metas)
        ++ (encode_metas metas ++ (put_le 4 num_hashes ++ (put_le 4 (length bits) ++ bits))))

-- What the builder uses of a Bloom filter.
pub record Filter (B : Type 0) : Type 0 where
  pub insert : B → Bytes → B
  pub num_hashes : B → ℕ
  pub bits : B → Bytes

module _ {B : Type 0} (filter : Filter B) (hash : Bytes → ℕ) (compress : Bytes → Bytes) where
  pub record SsTableBuilder : Type 0 where
    pub written : Bytes
    pub block_metas : List BlockMeta
    pub current_block : Bytes
    pub block_first_key : Option Bytes
    pub block_offset : ℕ
    pub bloom : B
    pub compression : CompressionType
    pub num_keys : ℕ

  unfoldable pub new_with_compression : B → CompressionType → SsTableBuilder
  new_with_compression bloom compression = record {
    written = [];
    block_metas = [];
    current_block = [];
    block_first_key = none;
    block_offset = 0;
    bloom = bloom;
    compression = compression;
    num_keys = 0;
  }

  abbrev pub compress_block : CompressionType → Bytes → Bytes
  compress_block uncompressed block = block
  compress_block lz4 block = compress block

  abbrev pub with_checksum : Bytes → Bytes
  with_checksum output = output ++ put_le 4 (hash output)

  abbrev pub or_empty : Option Bytes → Bytes
  or_empty none = []
  or_empty (some k) = k

  -- The first key of a block that is not empty is set; the offset is a machine word.
  unfoldable pub flush_block : SsTableBuilder → Bytes → SsTableBuilder
  flush_block b last_key =
      let output = with_checksum (compress_block b.compression b.current_block) in
      if is_empty b.current_block then b else record b {
        written = b.written ++ output;
        block_metas =
            b.block_metas
            ++ record {
              offset = b.block_offset;
              length_of_block = length output % 2 ^ 32;
              uncompressed_length = length b.current_block % 2 ^ 32;
              first_key = or_empty b.block_first_key;
              last_key = last_key;
            }
              ∷ [];
        block_first_key = none;
        block_offset = (b.block_offset + length output % 2 ^ 32) % 2 ^ 64;
        current_block = [];
      }

  abbrev pub first_key_or : Option Bytes → Bytes → Option Bytes
  first_key_or none key = some key
  first_key_or (some k) key = some k

  unfoldable pub add : SsTableBuilder → Key → Option Bytes → SsTableBuilder
  unfolding encode_entry flush_block
  add b key value =
      let b' = record b {
        bloom = filter.insert b.bloom key.bytes;
        block_first_key = first_key_or b.block_first_key key.bytes;
        current_block = b.current_block ++ encode_entry key.bytes value;
        num_keys = b.num_keys + 1;
      } in
      if leb block_size (length b'.current_block) then flush_block b' key.bytes else b'

  -- The last block gets the last key of the block before it.
  abbrev pub flush_last : SsTableBuilder → SsTableBuilder
  flush_last b = if is_empty b.current_block then b else flush_block b (last_of_metas b.block_metas)

  unfoldable pub finish : SsTableBuilder → Bytes
  unfolding encode_metadata
  finish b =
      let b' = flush_last b in
      b'.written
      ++ (encode_metadata b'.compression b'.block_metas (filter.num_hashes b'.bloom)
            (filter.bits b'.bloom)
          ++ (put_le 8 b'.block_offset ++ put_le 4 sstable_magic))
