-- ===== src/Storage/Table/WholeFile.antt =====
-- A table that the builder has finished is opened with the meta data that the builder had.
use crabstash.Base.{
  ℕ, ◌+◌, ◌%◌, ◌<◌, ◌≤◌, ◌^◌, Bytes, ◌≡◌, refl, ap, ◌∙◌, inl, inr, Option, none, some, List, [],
  ◌∷◌, ◌++◌, All, length, length-append, is_empty, leb, arith, Bool-cases,
}
use crabstash.Common.Key.{Key}
use crabstash.Storage.Codec.{put_le, length-put_le}
use crabstash.Storage.Table.{
  CompressionType, BlockMeta, sstable_magic, block_size, encode_entry, last_of_metas,
  encode_metadata, Filter, SsTableBuilder, new_with_compression, compress_block, with_checksum,
  or_empty, flush_block, first_key_or, add, flush_last, finish,
}
use crabstash.Storage.Table.Layout.{add_all}
use crabstash.Storage.Table.Open.{
  FitsMeta, first_of_metas, Metadata, decode_metadata-encode_metadata, opened, of_metadata,
  open_with_cache, open-file,
}

All-append_one :
    (ms : List BlockMeta) (m : BlockMeta)
    → All FitsMeta ms
    → FitsMeta m
    → All FitsMeta (ms ++ m ∷ [])
All-append_one [] m h f = (f, tt)
All-append_one (n ∷ ms) m h f = (h.0, All-append_one ms m h.1 f)

last_of_metas-fits : (ms : List BlockMeta) → All FitsMeta ms → length (last_of_metas ms) < 2 ^ 32
last_of_metas-fits [] h = omega arith
last_of_metas-fits (m ∷ []) h = h.0.last_fits
last_of_metas-fits (m ∷ n ∷ ms) h = last_of_metas-fits (n ∷ ms) h.1

module _ {B : Type 0} (filter : Filter B) (hash : Bytes → ℕ) (compress : Bytes → Bytes) where
  record IsSane (b : SsTableBuilder filter hash compress) : Type 0 where
    offset_at : length b.written < 2 ^ 32 → b.block_offset ≡ length b.written
    offset_fits : b.block_offset < 2 ^ 64
    metas_fit : All FitsMeta b.block_metas
    first_fits : length (or_empty filter hash compress b.block_first_key) < 2 ^ 32
    few_metas : length b.block_metas ≤ length b.written

  new-IsSane :
      (bloom : B) (c : CompressionType) → IsSane (new_with_compression filter hash compress bloom c)
  unfolding new_with_compression
  new-IsSane bloom c = record {
    offset_at = λ h. refl;
    offset_fits = omega arith;
    metas_fit = tt;
    first_fits = omega arith;
    few_metas = omega arith;
  }

  abbrev output_of : SsTableBuilder filter hash compress → Bytes
  output_of b =
      with_checksum filter hash compress
        (compress_block filter hash compress b.compression b.current_block)

  length-output : (b : SsTableBuilder filter hash compress) → 4 ≤ length (output_of b)
  length-output b = omega (
    arith,
    length-append {0} (compress_block filter hash compress b.compression b.current_block)
        (put_le 4 (hash (compress_block filter hash compress b.compression b.current_block))),
    length-put_le 4 (hash (compress_block filter hash compress b.compression b.current_block)),
  )

  flush_block-IsSane :
      (b : SsTableBuilder filter hash compress) (last_key : Bytes)
      → length last_key < 2 ^ 32
      → IsSane b
      → IsSane (flush_block filter hash compress b last_key)
  unfolding flush_block
  flush_block-IsSane b last_key fits s = elim (Bool-cases (is_empty b.current_block)) [
    | inl none_left ↦ rw none_left s
    | inr some_left ↦ rw some_left record {
      offset_at = λ h.
          let sum = length-append {0} b.written (output_of b) in
          let before : b.block_offset ≡ length b.written = s.offset_at (omega arith) in
          omega (arith, sum, before, h);
      offset_fits = omega arith;
      metas_fit =
          All-append_one b.block_metas
            (record {
              offset = b.block_offset;
              length_of_block = length (output_of b) % 2 ^ 32;
              uncompressed_length = length b.current_block % 2 ^ 32;
              first_key = or_empty filter hash compress b.block_first_key;
              last_key = last_key;
            })
            s.metas_fit
            (record {
              offset_fits = s.offset_fits;
              length_fits = omega arith;
              uncompressed_fits = omega arith;
              first_fits = s.first_fits;
              last_fits = fits;
            });
      first_fits = omega arith;
      few_metas = omega (
        arith,
        s.few_metas,
        length-append {0} b.written (output_of b),
        length-output b,
        length-append-one b.block_metas,
      );
    }
  ]
    where
      length-append-one :
          (ms : List BlockMeta) (m : BlockMeta) → length (ms ++ m ∷ []) ≡ length ms + 1
      length-append-one ms m = length-append {0} ms (m ∷ [])

  first_key_or-fits :
      (o : Option Bytes) (k : Bytes)
      → length (or_empty filter hash compress o) < 2 ^ 32
      → length k < 2 ^ 32
      → length (or_empty filter hash compress (first_key_or filter hash compress o k)) < 2 ^ 32
  first_key_or-fits none k h f = f
  first_key_or-fits (some j) k h f = h

  add-IsSane :
      (b : SsTableBuilder filter hash compress) (key : Key) (value : Option Bytes)
      → length key.bytes < 2 ^ 32
      → IsSane b
      → IsSane (add filter hash compress b key value)
  unfolding add
  add-IsSane b key value fits s =
      let with_it = record b {
        bloom = filter.insert b.bloom key.bytes;
        block_first_key = first_key_or filter hash compress b.block_first_key key.bytes;
        current_block = b.current_block ++ encode_entry key.bytes value;
        num_keys = b.num_keys + 1;
      } in
      let s' : IsSane with_it = record {
        offset_at = s.offset_at;
        offset_fits = s.offset_fits;
        metas_fit = s.metas_fit;
        first_fits = first_key_or-fits b.block_first_key key.bytes s.first_fits fits;
        few_metas = s.few_metas;
      } in
      elim (Bool-cases
        (leb block_size (length (b.current_block ++ encode_entry key.bytes value)))) [
          | inl full ↦ rw full (flush_block-IsSane with_it key.bytes fits s')
          | inr room ↦ rw room s'
        ]

  add_all-IsSane :
      (c : CompressionType) (b : SsTableBuilder filter hash compress)
      (es : List (Key × Option Bytes))
      → All (λ (e : Key × Option Bytes). length e.0.bytes < 2 ^ 32) es
      → IsSane b
      → IsSane (add_all filter hash compress c b es)
  add_all-IsSane c b [] fits s = s
  add_all-IsSane c b ((key, value) ∷ es) fits s =
      add_all-IsSane c (add filter hash compress b key value) es fits.1
        (add-IsSane b key value fits.0 s)

  flush_last-IsSane :
      (b : SsTableBuilder filter hash compress)
      → IsSane b
      → IsSane (flush_last filter hash compress b)
  flush_last-IsSane b s = elim (Bool-cases (is_empty b.current_block)) [
    | inl none_left ↦ rw none_left s
    | inr some_left ↦ rw some_left (
        flush_block-IsSane b (last_of_metas b.block_metas)
          (last_of_metas-fits b.block_metas s.metas_fit) s)
  ]

  -- What a reader keeps of the file of a builder.
  abbrev pub metadata_of : SsTableBuilder filter hash compress → Metadata
  metadata_of b = record {
    block_metas = b.block_metas;
    bits = filter.bits b.bloom;
    num_hashes = filter.num_hashes b.bloom;
    compression = b.compression;
    min_key = first_of_metas b.block_metas;
    max_key = last_of_metas b.block_metas;
  }

  opens :
      (b : SsTableBuilder filter hash compress)
      → IsSane b
      → length b.written < 2 ^ 32
      → filter.num_hashes b.bloom < 2 ^ 32
      → length (filter.bits b.bloom) < 2 ^ 32
      → open_with_cache (
          b.written
          ++ (encode_metadata b.compression b.block_metas
                (filter.num_hashes b.bloom)
                (filter.bits b.bloom)
              ++ (put_le 8 b.block_offset ++ put_le 4 sstable_magic)))
        ≡ opened (metadata_of b)
  opens b s small hashes bits =
      open-file b.written
        (encode_metadata b.compression b.block_metas (filter.num_hashes b.bloom)
          (filter.bits b.bloom))
        b.block_offset (s.offset_at small) s.offset_fits
      ∙ ap of_metadata (
          decode_metadata-encode_metadata b.compression b.block_metas (filter.num_hashes b.bloom)
            (filter.bits b.bloom) s.metas_fit (omega (arith, s.few_metas)) hashes bits)

  -- A table of any rows with keys below 4 GiB is opened from the bytes that `finish` leaves, with the
  -- meta data of the builder, its filter and its compression, if its blocks stay below 4 GiB and the
  -- filter's numbers fit their four bytes.
  pub open_with_cache-finish :
      (c : CompressionType) (bloom : B) (es : List (Key × Option Bytes))
      (b : SsTableBuilder filter hash compress)
      → All (λ (e : Key × Option Bytes). length e.0.bytes < 2 ^ 32) es
      → b ≡ add_all filter hash compress c (new_with_compression filter hash compress bloom c) es
      → length (flush_last filter hash compress b).written < 2 ^ 32
      → filter.num_hashes (flush_last filter hash compress b).bloom < 2 ^ 32
      → length (filter.bits (flush_last filter hash compress b).bloom) < 2 ^ 32
      → open_with_cache (finish filter hash compress b)
        ≡ opened (metadata_of (flush_last filter hash compress b))
  unfolding finish
  open_with_cache-finish c bloom es b fits built small hashes bits =
      let s : IsSane b = rw built (add_all-IsSane c _ es fits (new-IsSane bloom c)) in
      opens (flush_last filter hash compress b) (flush_last-IsSane b s) small hashes bits
