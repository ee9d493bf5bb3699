-- ===== src/Storage/Table/Layout.antt =====
-- How the builder of a table lays its rows out in blocks.
use crabstash.Base.{
  bytes_eq, nat_eq, ℕ, ◌+◌, ◌%◌, ◌^◌, Bytes, ◌≡◌, refl, sym, ap, subst, ◌∙◌, inl, inr, true, false,
  Option, none, some, List, [], ◌∷◌, ◌++◌, length, is_empty, leb, arith, Bool-cases,
}
use crabstash.Common.Key.{Key}
use crabstash.Storage.Table.{
  CompressionType, BlockMeta, block_size, encode_entry, Filter, SsTableBuilder,
  new_with_compression, compress_block, with_checksum, or_empty, flush_block, first_key_or, add,
}
use crabstash.Storage.Table.Blocks.{Row, encode_all}

-- The first and the last key of a block.
abbrev pub first_of : List Row → Option Bytes
first_of [] = none
first_of (r ∷ rows) = some r.0

abbrev pub last_of : List Row → Bytes
last_of [] = []
last_of (r ∷ []) = r.0
last_of (r ∷ s ∷ rows) = last_of (s ∷ rows)

abbrev pub concat : List (List Row) → List Row
concat [] = []
concat (b ∷ blocks) = b ++ concat blocks

module _ {A : Type 0} where
  append_nil : (xs : List A) → xs ++ [] ≡ xs
  append_nil [] = refl
  append_nil (x ∷ xs) = ap (◌∷◌ x) (append_nil xs)

  pub append_assoc : (xs ys zs : List A) → (xs ++ ys) ++ zs ≡ xs ++ (ys ++ zs)
  append_assoc [] ys zs = refl
  append_assoc (x ∷ xs) ys zs = ap (◌∷◌ x) (append_assoc xs ys zs)

concat-append : (bs : List (List Row)) (b : List Row) → concat (bs ++ b ∷ []) ≡ concat bs ++ b
concat-append [] b = append_nil b
concat-append (a ∷ bs) b =
    ap (λ (x : List Row). a ++ x) (concat-append bs b) ∙ sym (append_assoc a (concat bs) b)

encode_all-append :
    (rows : List Row) (k : Bytes) (v : Option Bytes)
    → encode_all (rows ++ (k, v) ∷ []) ≡ encode_all rows ++ encode_entry k v
encode_all-append [] k v = append_nil (encode_entry k v)
encode_all-append ((j, w) ∷ rows) k v =
    ap (λ (x : Bytes). encode_entry j w ++ x) (encode_all-append rows k v)
    ∙ sym (append_assoc (encode_entry j w) (encode_all rows) (encode_entry k v))

last_of-append :
    (rows : List Row) (k : Bytes) (v : Option Bytes) → last_of (rows ++ (k, v) ∷ []) ≡ k
last_of-append [] k v = refl
last_of-append (r ∷ []) k v = refl
last_of-append (r ∷ s ∷ rows) k v = last_of-append (s ∷ rows) k v

is_empty-full : (block : Bytes) → leb block_size (length block) ≡ true → is_empty block ≡ false
is_empty-full [] h = ground arith
is_empty-full (b ∷ block) h = refl

module _ {B : Type 0} (filter : Filter B) (hash : Bytes → ℕ) (compress : Bytes → Bytes)
    (compression : CompressionType) where
  first_key_or-append :
      (rows : List Row) (k : Bytes) (v : Option Bytes)
      → first_key_or filter hash compress (first_of rows) k ≡ first_of (rows ++ (k, v) ∷ [])
  first_key_or-append [] k v = refl
  first_key_or-append (r ∷ rows) k v = refl

  -- A block in the file.
  abbrev pub frame : List Row → Bytes
  frame rows =
      with_checksum filter hash compress
        (compress_block filter hash compress compression (encode_all rows))

  abbrev pub meta_of : ℕ → List Row → BlockMeta
  meta_of offset rows = record {
    offset = offset;
    length_of_block = length (frame rows) % 2 ^ 32;
    uncompressed_length = length (encode_all rows) % 2 ^ 32;
    first_key = or_empty filter hash compress (first_of rows);
    last_key = last_of rows;
  }

  abbrev pub offset_after : ℕ → List Row → ℕ
  offset_after offset rows = (offset + length (frame rows) % 2 ^ 32) % 2 ^ 64

  abbrev pub frames : List (List Row) → Bytes
  frames [] = []
  frames (b ∷ blocks) = frame b ++ frames blocks

  abbrev pub metas : ℕ → List (List Row) → List BlockMeta
  metas offset [] = []
  metas offset (b ∷ blocks) = meta_of offset b ∷ metas (offset_after offset b) blocks

  abbrev pub end_of : ℕ → List (List Row) → ℕ
  end_of offset [] = offset
  end_of offset (b ∷ blocks) = end_of (offset_after offset b) blocks

  -- The rows stand in blocks that are written, each with its meta data, and in the current block.
  pub record IsLaidOut (b : SsTableBuilder filter hash compress) (rows : List Row) : Type 0 where
    pub blocks : List (List Row)
    pub current : List Row
    pub all_rows : concat blocks ++ current ≡ rows
    pub written_blocks : b.written ≡ frames blocks
    pub described : b.block_metas ≡ metas 0 blocks
    pub offset_at : b.block_offset ≡ end_of 0 blocks
    pub current_bytes : b.current_block ≡ encode_all current
    pub current_first : b.block_first_key ≡ first_of current
    pub same_compression : b.compression ≡ compression

  new-IsLaidOut :
      (bloom : B) → IsLaidOut (new_with_compression filter hash compress bloom compression) []
  unfolding new_with_compression
  new-IsLaidOut bloom = record {
    blocks = [];
    current = [];
    all_rows = refl;
    written_blocks = refl;
    described = refl;
    offset_at = refl;
    current_bytes = refl;
    current_first = refl;
    same_compression = refl;
  }

  frames-append :
      (bs : List (List Row)) (b : List Row) → frames (bs ++ b ∷ []) ≡ frames bs ++ frame b
  frames-append [] b = append_nil (frame b)
  frames-append (a ∷ bs) b =
      ap (λ (x : Bytes). frame a ++ x) (frames-append bs b)
      ∙ sym (append_assoc (frame a) (frames bs) (frame b))

  metas-append :
      (o : ℕ) (bs : List (List Row)) (b : List Row)
      → metas o (bs ++ b ∷ []) ≡ metas o bs ++ meta_of (end_of o bs) b ∷ []
  metas-append o [] b = refl
  metas-append o (a ∷ bs) b = ap (◌∷◌ (meta_of o a)) (metas-append (offset_after o a) bs b)

  end_of-append :
      (o : ℕ) (bs : List (List Row)) (b : List Row)
      → end_of o (bs ++ b ∷ []) ≡ offset_after (end_of o bs) b
  end_of-append o [] b = refl
  end_of-append o (a ∷ bs) b = end_of-append (offset_after o a) bs b

  flush_block-IsLaidOut :
      (b : SsTableBuilder filter hash compress) (rows : List Row) (last_key : Bytes)
      (l : IsLaidOut b rows)
      → is_empty b.current_block ≡ false
      → last_of l.current ≡ last_key
      → IsLaidOut (flush_block filter hash compress b last_key) rows
  unfolding flush_block
  flush_block-IsLaidOut b rows last_key l some_bytes last = rw some_bytes record {
    blocks = l.blocks ++ l.current ∷ [];
    current = [];
    all_rows =
        append_nil (concat (l.blocks ++ l.current ∷ []))
        ∙ concat-append l.blocks l.current
        ∙ l.all_rows;
    written_blocks =
        rw (l.written_blocks, l.same_compression, l.current_bytes)
          (sym (frames-append l.blocks l.current));
    described =
        rw
          (l.described, l.offset_at, l.same_compression, l.current_bytes, l.current_first, sym last)
          (sym (metas-append 0 l.blocks l.current));
    offset_at =
        rw (l.offset_at, l.same_compression, l.current_bytes)
          (sym (end_of-append 0 l.blocks l.current));
    current_bytes = refl;
    current_first = refl;
    same_compression = l.same_compression;
  }

  -- The row in the current block, before the block may be written.
  abbrev with_row :
      SsTableBuilder filter hash compress → Key → Option Bytes → SsTableBuilder filter hash compress
  with_row b key value = record b {
    bloom = filter.insert b.bloom key.bytes;
    block_first_key = first_key_or filter hash compress b.block_first_key key.bytes;
    current_block = b.current_block ++ encode_entry key.bytes value;
    num_keys = b.num_keys + 1;
  }

  with_row-IsLaidOut :
      (b : SsTableBuilder filter hash compress) (rows : List Row) (key : Key) (value : Option Bytes)
      → IsLaidOut b rows
      → (l : IsLaidOut (with_row b key value) (rows ++ (key.bytes, value) ∷ [])) × (last_of
            l.current
          ≡ key.bytes)
  with_row-IsLaidOut b rows key value l = (
    record {
      blocks = l.blocks;
      current = l.current ++ (key.bytes, value) ∷ [];
      all_rows =
          sym (append_assoc (concat l.blocks) l.current ((key.bytes, value) ∷ []))
          ∙ ap (λ (x : List Row). x ++ (key.bytes, value) ∷ []) l.all_rows;
      written_blocks = l.written_blocks;
      described = l.described;
      offset_at = l.offset_at;
      current_bytes = rw l.current_bytes (sym (encode_all-append l.current key.bytes value));
      current_first = rw l.current_first (first_key_or-append l.current key.bytes value);
      same_compression = l.same_compression;
    },
    last_of-append l.current key.bytes value,
  )

  pub add-IsLaidOut :
      (b : SsTableBuilder filter hash compress) (rows : List Row) (key : Key) (value : Option Bytes)
      → IsLaidOut b rows
      → IsLaidOut (add filter hash compress b key value) (rows ++ (key.bytes, value) ∷ [])
  unfolding add
  add-IsLaidOut b rows key value l =
      let (with_it, last) = with_row-IsLaidOut b rows key value l in
      elim (Bool-cases
        (leb block_size (length (b.current_block ++ encode_entry key.bytes value)))) [
          | inl full ↦ rw full (
              flush_block-IsLaidOut (with_row b key value) (rows ++ (key.bytes, value) ∷ [])
                key.bytes with_it
                (is_empty-full (b.current_block ++ encode_entry key.bytes value) full) last)
          | inr room ↦ rw room with_it
        ]

  abbrev pub add_all :
      SsTableBuilder filter hash compress
      → List (Key × Option Bytes)
      → SsTableBuilder filter hash compress
  add_all b [] = b
  add_all b ((key, value) ∷ es) = add_all (add filter hash compress b key value) es

  abbrev pub rows_of : List (Key × Option Bytes) → List Row
  rows_of [] = []
  rows_of ((key, value) ∷ es) = (key.bytes, value) ∷ rows_of es

  add_all-keeps :
      (b : SsTableBuilder filter hash compress) (rows : List Row) (es : List (Key × Option Bytes))
      → IsLaidOut b rows
      → IsLaidOut (add_all b es) (rows ++ rows_of es)
  add_all-keeps b rows [] l = subst (IsLaidOut b) (sym (append_nil rows)) l
  add_all-keeps b rows ((key, value) ∷ es) l =
      subst (IsLaidOut (add_all (add filter hash compress b key value) es))
        (append_assoc rows ((key.bytes, value) ∷ []) (rows_of es))
        (add_all-keeps (add filter hash compress b key value) (rows ++ (key.bytes, value) ∷ []) es
          (add-IsLaidOut b rows key value l))

  -- After any additions the rows stand in their order in written blocks and in the current one: the
  -- file is the blocks with their checksums, one after the other, and the meta data say for each block
  -- where it starts, how long it is, and its first and last key. Lengths are words of 32 bits, places
  -- of 64.
  pub add_all-IsLaidOut :
      (bloom : B) (es : List (Key × Option Bytes))
      → IsLaidOut
          (add_all (new_with_compression filter hash compress bloom compression) es)
          (rows_of es)
  add_all-IsLaidOut bloom es = add_all-keeps _ [] es (new-IsLaidOut bloom)
