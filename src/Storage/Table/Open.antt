-- ===== src/Storage/Table/Open.antt =====
-- crabstash-storage/src/sstable.rs: a table is opened from its file by the footer and the meta data.
use crabstash.Base.{
  ℕ, zero, suc, ◌+◌, ◌-◌, ◌<◌, ◌^◌, Bytes, ◌≡◌, refl, sym, ap, ◌∙◌, false, Option, none, some, List,
  [], ◌∷◌, ◌++◌, All, length, length-append, drop, take, drop-length, take-length, not, ltb, eqb,
  arith, if◌then◌else◌,
}
use crabstash.Common.Error.{Error}
use crabstash.Storage.Codec.{
  put_le, get_le, and_then, read_exact, prepend, length-put_le, get_le-put_le, read_exact-append,
  read_exact-put_le,
}
use crabstash.Storage.Table.{
  CompressionType, uncompressed, lz4, to_u8, from_u8, BlockMeta, sstable_magic, last_of_metas,
  encode_meta, encode_metas, encode_metadata,
}

unfoldable pub decode_meta : Bytes → Option (BlockMeta × Bytes)
decode_meta buf = and_then (read_exact 8 buf) λ (offset, r1).
    and_then (read_exact 4 r1) λ (block_len, r2).
      and_then (read_exact 4 r2) λ (uncompressed_len, r3).
        and_then (read_exact 4 r3) λ (first_len, r4).
          and_then (read_exact (get_le first_len) r4) λ (first_key, r5).
            and_then (read_exact 4 r5) λ (last_len, r6).
              and_then (read_exact (get_le last_len) r6) λ (last_key, rest). some (
                record {
                  offset = get_le offset;
                  length_of_block = get_le block_len;
                  uncompressed_length = get_le uncompressed_len;
                  first_key = first_key;
                  last_key = last_key;
                },
                rest,
              )

-- The loop over the blocks.
unfoldable pub decode_metas : ℕ → Bytes → Option (List BlockMeta × Bytes)
unfolding decode_meta
decode_metas zero buf = some ([], buf)
decode_metas (suc n) buf =
    and_then (decode_meta buf)
      λ (m, rest). and_then (decode_metas n rest) λ (metas, tail). some (m ∷ metas, tail)

abbrev pub first_of_metas : List BlockMeta → Bytes
first_of_metas [] = []
first_of_metas (m ∷ metas) = m.first_key

-- What `open` keeps of a table.
pub record Metadata : Type 0 where
  pub block_metas : List BlockMeta
  pub bits : Bytes
  pub num_hashes : ℕ
  pub compression : CompressionType
  pub min_key : Bytes
  pub max_key : Bytes

-- `none` is a panic of `get_u8`, of `get_u32_le`, of `get_u64_le` or of a slice.
unfoldable pub decode_metadata : Bytes → Option Metadata
unfolding decode_metas from_u8
decode_metadata [] = none
decode_metadata (v ∷ buf) = and_then (read_exact 4 buf) λ (num_blocks, r1).
    and_then (decode_metas (get_le num_blocks) r1) λ (metas, r2).
      and_then (read_exact 4 r2) λ (num_hashes, r3). and_then (read_exact 4 r3) λ (bloom_len, r4).
        and_then (read_exact (get_le bloom_len) r4) λ (bits, rest). some (record {
          block_metas = metas;
          bits = bits;
          num_hashes = get_le num_hashes;
          compression = from_u8 v;
          min_key = first_of_metas metas;
          max_key = last_of_metas metas;
        })

-- The fields of the meta data of a block fit their words.
pub record FitsMeta (m : BlockMeta) : Type 0 where
  pub offset_fits : m.offset < 2 ^ 64
  pub length_fits : m.length_of_block < 2 ^ 32
  pub uncompressed_fits : m.uncompressed_length < 2 ^ 32
  pub first_fits : length m.first_key < 2 ^ 32
  pub last_fits : length m.last_key < 2 ^ 32

append_assoc : (xs ys zs : Bytes) → (xs ++ ys) ++ zs ≡ xs ++ (ys ++ zs)
append_assoc [] ys zs = refl
append_assoc (x ∷ xs) ys zs = ap (◌∷◌ x) (append_assoc xs ys zs)

meta_assoc :
    (a b c d k e l rest : Bytes)
    → (a ++ (b ++ (c ++ (d ++ (k ++ (e ++ l)))))) ++ rest
      ≡ a ++ (b ++ (c ++ (d ++ (k ++ (e ++ (l ++ rest))))))
meta_assoc a b c d k e l rest =
    rw
      (
        append_assoc a (b ++ (c ++ (d ++ (k ++ (e ++ l))))) rest,
        append_assoc b (c ++ (d ++ (k ++ (e ++ l)))) rest,
        append_assoc c (d ++ (k ++ (e ++ l))) rest,
        append_assoc d (k ++ (e ++ l)) rest,
        append_assoc k (e ++ l) rest,
        append_assoc e l rest,
      )
      refl

read_exact-all : (xs : Bytes) → read_exact (length xs) xs ≡ some (xs, [])
unfolding read_exact
read_exact-all [] = refl
read_exact-all (x ∷ xs) = ap (prepend x) (read_exact-all xs)

decode_meta-encode_meta :
    (m : BlockMeta) (rest : Bytes)
    → FitsMeta m
    → decode_meta (encode_meta m ++ rest) ≡ some (m, rest)
unfolding decode_meta encode_meta and_then
decode_meta-encode_meta m rest f =
    rw
      (
        meta_assoc (put_le 8 m.offset) (put_le 4 m.length_of_block) (put_le 4 m.uncompressed_length)
            (put_le 4 (length m.first_key)) m.first_key (put_le 4 (length m.last_key)) m.last_key
            rest,
        read_exact-put_le 8 m.offset (
            put_le 4 m.length_of_block
            ++ (put_le 4 m.uncompressed_length
                ++ (put_le 4 (length m.first_key)
                    ++ (m.first_key ++ (put_le 4 (length m.last_key) ++ (m.last_key ++ rest)))))),
        read_exact-put_le 4 m.length_of_block (
            put_le 4 m.uncompressed_length
            ++ (put_le 4 (length m.first_key)
                ++ (m.first_key ++ (put_le 4 (length m.last_key) ++ (m.last_key ++ rest))))),
        read_exact-put_le 4 m.uncompressed_length (
            put_le 4 (length m.first_key)
            ++ (m.first_key ++ (put_le 4 (length m.last_key) ++ (m.last_key ++ rest)))),
        read_exact-put_le 4 (length m.first_key)
            (m.first_key ++ (put_le 4 (length m.last_key) ++ (m.last_key ++ rest))),
        get_le-put_le 4 (length m.first_key) f.first_fits,
        read_exact-append m.first_key (put_le 4 (length m.last_key) ++ (m.last_key ++ rest)),
        read_exact-put_le 4 (length m.last_key) (m.last_key ++ rest),
        get_le-put_le 4 (length m.last_key) f.last_fits,
        read_exact-append m.last_key rest,
        get_le-put_le 8 m.offset f.offset_fits,
        get_le-put_le 4 m.length_of_block f.length_fits,
        get_le-put_le 4 m.uncompressed_length f.uncompressed_fits,
      )
      refl

decode_metas-encode_metas :
    (metas : List BlockMeta) (rest : Bytes)
    → All FitsMeta metas
    → decode_metas (length metas) (encode_metas metas ++ rest) ≡ some (metas, rest)
unfolding decode_metas encode_metas and_then
decode_metas-encode_metas [] rest fits = refl
decode_metas-encode_metas (m ∷ metas) rest fits =
    rw
      (
        append_assoc (encode_meta m) (encode_metas metas) rest,
        decode_meta-encode_meta m (encode_metas metas ++ rest) fits.0,
        decode_metas-encode_metas metas rest fits.1,
      )
      refl

from_u8-to_u8 : (c : CompressionType) → from_u8 (to_u8 c) ≡ c
unfolding from_u8 to_u8
from_u8-to_u8 uncompressed = refl
from_u8-to_u8 lz4 = refl

pub decode_metadata-encode_metadata :
    (c : CompressionType) (metas : List BlockMeta) (num_hashes : ℕ) (bits : Bytes)
    → All FitsMeta metas
    → length metas < 2 ^ 32
    → num_hashes < 2 ^ 32
    → length bits < 2 ^ 32
    → decode_metadata (encode_metadata c metas num_hashes bits)
      ≡ some (record {
        block_metas = metas;
        bits = bits;
        num_hashes = num_hashes;
        compression = c;
        min_key = first_of_metas metas;
        max_key = last_of_metas metas;
      })
unfolding decode_metadata encode_metadata and_then
decode_metadata-encode_metadata c metas num_hashes bits fits few hashes short =
    rw
      (
        read_exact-put_le 4 (length metas)
            (encode_metas metas ++ (put_le 4 num_hashes ++ (put_le 4 (length bits) ++ bits))),
        get_le-put_le 4 (length metas) few,
        decode_metas-encode_metas metas (put_le 4 num_hashes ++ (put_le 4 (length bits) ++ bits))
            fits,
        read_exact-put_le 4 num_hashes (put_le 4 (length bits) ++ bits),
        read_exact-put_le 4 (length bits) bits,
        get_le-put_le 4 (length bits) short,
        read_exact-all bits,
        get_le-put_le 4 num_hashes hashes,
        from_u8-to_u8 c,
      )
      refl

pub data Opened : Type 0 where
  opened : Metadata → Opened
  failed : Error → Opened
  panicked : Opened

abbrev pub of_metadata : Option Metadata → Opened
of_metadata none = panicked
of_metadata (some m) = opened m

-- The meta data without the footer; a subtraction below 0 wraps, and then nothing is cut off.
unfoldable pub open_metadata : Bytes → Opened
unfolding decode_metadata
open_metadata meta_data = of_metadata (
    decode_metadata
      (if ltb (length meta_data) 12 then meta_data else take (length meta_data - 12) meta_data))

-- `open_with_cache`, of the bytes of the file.
unfoldable pub open_with_cache : Bytes → Opened
unfolding open_metadata
open_with_cache file =
    if ltb (length file) 4
    then failed Error.io
    else if not (eqb (get_le (drop (length file - 4) file)) sstable_magic)
    then failed Error.corruption
    else if ltb (length file) 12
    then failed Error.io
    else open_metadata (drop (get_le (take 8 (drop (length file - 12) file))) file)

drop_front : (xs ys : Bytes) (n : ℕ) → n ≡ length xs → drop n (xs ++ ys) ≡ ys
drop_front xs ys n h = rw h (drop-length xs ys)

take_front : (xs ys : Bytes) (n : ℕ) → n ≡ length xs → take n (xs ++ ys) ≡ xs
take_front xs ys n h = rw h (take-length xs ys)

module _ (written meta_data : Bytes) (offset : ℕ) where
  abbrev footer : Bytes
  footer = put_le 8 offset ++ put_le 4 sstable_magic

  abbrev file : Bytes
  file = written ++ (meta_data ++ footer)

  length-footer : length footer ≡ 12
  length-footer = omega (
    arith,
    length-append {0} (put_le 8 offset) (put_le 4 sstable_magic),
    length-put_le 8 offset,
    length-put_le 4 sstable_magic,
  )

  length-file : length file ≡ length written + (length meta_data + 12)
  length-file = omega (
    arith,
    length-append {0} written (meta_data ++ footer),
    length-append {0} meta_data footer,
    length-footer,
  )

  drop-footer : drop (length file - 12) file ≡ footer
  drop-footer =
      ap (λ (f : Bytes). drop (length file - 12) f) (sym (append_assoc written meta_data footer))
      ∙ drop_front (written ++ meta_data) footer (length file - 12)
          (omega (arith, length-file, length-append {0} written meta_data))

  drop-magic : drop (length file - 4) file ≡ put_le 4 sstable_magic
  drop-magic =
      ap (λ (f : Bytes). drop (length file - 4) f)
        (sym (append_assoc written meta_data footer)
          ∙ sym (append_assoc (written ++ meta_data) (put_le 8 offset) (put_le 4 sstable_magic)))
      ∙ drop_front ((written ++ meta_data) ++ put_le 8 offset) (put_le 4 sstable_magic)
          (length file - 4)
          (omega (
            arith,
            length-file,
            length-append {0} written meta_data,
            length-append {0} (written ++ meta_data) (put_le 8 offset),
            length-put_le 8 offset,
          ))

  pub open-file :
      offset ≡ length written
      → offset < 2 ^ 64
      → open_with_cache file ≡ of_metadata (decode_metadata meta_data)
  unfolding open_with_cache open_metadata
  open-file at_end fits =
      let long : ltb (length file) 4 ≡ false = ground (arith, length-file) in
      let longer : ltb (length file) 12 ≡ false = ground (arith, length-file) in
      let with_footer : length (meta_data ++ footer) ≡ length meta_data + 12 =
        omega (arith, length-append {0} meta_data footer, length-footer) in
      let enough : ltb (length (meta_data ++ footer)) 12 ≡ false = ground (arith, with_footer) in
      let stored : get_le (take 8 footer) ≡ offset =
        rw
          (take_front (put_le 8 offset) (put_le 4 sstable_magic) 8
            (omega (arith, length-put_le 8 offset)))
          (get_le-put_le 8 offset fits) in
      let rest : drop offset file ≡ meta_data ++ footer =
        drop_front written (meta_data ++ footer) offset at_end in
      let body : take (length (meta_data ++ footer) - 12) (meta_data ++ footer) ≡ meta_data =
        take_front meta_data footer (length (meta_data ++ footer) - 12)
          (omega (arith, with_footer)) in
      rw
        (
          long,
          drop-magic,
          get_le-put_le 4 sstable_magic (omega arith),
          longer,
          drop-footer,
          stored,
          rest,
          enough,
          body,
        )
        refl
