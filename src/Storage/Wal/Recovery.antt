-- ===== src/Storage/Wal/Recovery.antt =====
-- Recovery reads back what was appended.
use mathlib.Core.List.{append_assoc, append-nil}
use Prim.Native.Nat.{bit_or}
use crabstash.Base.{
  ℕ, zero, suc, ◌^◌, ◌<◌, ◌≤◌, ◌≡◌, ◌∙◌, refl, ap, sym, Bytes, true, ◌&&◌, Option, none, some, List,
  [], ◌∷◌, ◌++◌, All, length, length-append, arith, leb, ltb, Bool-cases, inl, inr, eqb_iff,
}
use crabstash.Storage.Codec.{
  put_le, get_le, and_then, read_exact, prepend, get_le-put_le, read_exact-append,
  read_exact-put_le, read_exact-short,
}
use crabstash.Storage.Wal.{
  RecordType, put, delete, WalRecord, WalOptions, WalInner, SyncMode, value_bytes, payload_of,
  encode_record, sync_inner, maybe_sync, frame, write_record, append, write_records, append_batch,
  try_from, type_byte, parse_value, parse_payload, decode_record, decode_body, checked, read_body,
  next_record, after_step, recover_loop, recover, ok, found, Step, compression_flag,
  compression_threshold, create,
}

-- A put has a value of less than 2^32 bytes, and a deletion has none.
abbrev pub HasValue : RecordType → Option Bytes → Type 0
HasValue put (some value) = length value < 2 ^ 32
HasValue put none = ⊥
HasValue delete (some value) = ⊥
HasValue delete none = Unit

-- The sizes fit into the fields of the format.
pub record IsEncodable (compress : Bytes → Bytes) (options : WalOptions) (r : WalRecord)
    : Type 0 where
  pub typed : HasValue r.record_type r.value
  pub time : r.timestamp < 2 ^ 64
  pub key_size : length r.key < 2 ^ 32
  pub size : length (encode_record compress options r) < 2 ^ 32

read_exact-all : (xs : Bytes) → read_exact (length xs) xs ≡ some (xs, [])
unfolding read_exact
read_exact-all [] = refl
read_exact-all (x ∷ xs) = ap (prepend x) (read_exact-all xs)

parse_value-value_bytes :
    (ty : RecordType) (v : Option Bytes) → HasValue ty v → parse_value ty (value_bytes v) ≡ some v
unfolding parse_value and_then
parse_value-value_bytes put (some value) h =
    rw
      (
        read_exact-put_le 4 (length value) value,
        get_le-put_le 4 (length value) h,
        read_exact-all value,
      )
      refl
parse_value-value_bytes put none h = absurd h
parse_value-value_bytes delete (some value) h = absurd h
parse_value-value_bytes delete none h = refl

parse_payload-payload_of :
    (r : WalRecord)
    → HasValue r.record_type r.value
    → r.timestamp < 2 ^ 64
    → length r.key < 2 ^ 32
    → parse_payload r.record_type (payload_of r) ≡ some r
unfolding parse_payload payload_of and_then
parse_payload-payload_of r v t k =
    rw
      (
        read_exact-put_le 8 r.timestamp (put_le 4 (length r.key) ++ (r.key ++ value_bytes r.value)),
        read_exact-put_le 4 (length r.key) (r.key ++ value_bytes r.value),
        get_le-put_le 4 (length r.key) k,
        read_exact-append r.key (value_bytes r.value),
        parse_value-value_bytes r.record_type r.value v,
        get_le-put_le 8 r.timestamp t,
      )
      refl

-- One call that writes to the log.
pub data LogCall : Type 0 where
  one : WalRecord → LogCall
  batch : List WalRecord → LogCall

abbrev pub records_of : List LogCall → List WalRecord
records_of [] = []
records_of (one r ∷ calls) = r ∷ records_of calls
records_of (batch records ∷ calls) = records ++ records_of calls

abbrev pub run : (Bytes → ℕ) → (Bytes → Bytes) → WalOptions → WalInner → List LogCall → WalInner
run hash compress options inner [] = inner
run hash compress options inner (one r ∷ calls) =
    run hash compress options (append hash compress options inner r) calls
run hash compress options inner (batch records ∷ calls) =
    run hash compress options (append_batch hash compress options inner records) calls

module _ (hash : Bytes → ℕ) (compress : Bytes → Bytes) (decompress : Bytes → Option Bytes)
    (hash_size : (b : Bytes) → hash b < 2 ^ 32)
    (decompress-compress : (b : Bytes) → decompress (compress b) ≡ some b)
    (options : WalOptions) where
  decode-plain :
      (ty : RecordType) (r : WalRecord) (rest : Bytes)
      → parse_payload ty (payload_of r) ≡ some r
      → decode_record hash decompress true (type_byte ty ∷ payload_of r) rest ≡ found r rest
  unfolding decode_record decode_body try_from
  decode-plain put r rest h = rw h refl
  decode-plain delete r rest h = rw h refl

  decode-compressed :
      (ty : RecordType) (r : WalRecord) (rest : Bytes)
      → parse_payload ty (payload_of r) ≡ some r
      → decode_record hash decompress true
          (bit_or (type_byte ty) compression_flag ∷ compress (payload_of r))
          rest
        ≡ found r rest
  unfolding decode_record decode_body try_from
  decode-compressed put r rest h = rw (decompress-compress (payload_of r), h) refl
  decode-compressed delete r rest h = rw (decompress-compress (payload_of r), h) refl

  decode_record-encode_record :
      (r : WalRecord) (rest : Bytes)
      → IsEncodable compress options r
      → decode_record hash decompress true (encode_record compress options r) rest ≡ found r rest
  unfolding encode_record
  decode_record-encode_record r rest e =
      let parsed = parse_payload-payload_of r e.typed e.time e.key_size in
      elim (Bool-cases (
        options.enable_compression
        && leb compression_threshold (length (payload_of r))
        && ltb (length (compress (payload_of r))) (length (payload_of r)))) [
          | inl c ↦ rw c (decode-compressed r.record_type r rest parsed)
          | inr p ↦ rw p (decode-plain r.record_type r rest parsed)
        ]

  -- The bytes of the records, one behind the other.
  abbrev pub frames : List WalRecord → Bytes
  frames [] = []
  frames (r ∷ records) = frame hash compress (encode_record compress options r) ++ frames records

  next_record-header :
      (buf rest : Bytes)
      → length buf < 2 ^ 32
      → next_record hash decompress true (frame hash compress buf ++ rest)
        ≡ checked hash decompress true (hash buf) (some (buf, rest))
  unfolding next_record read_body frame read_exact put_le
  next_record-header buf rest h =
      let sum : get_le (put_le 4 (hash buf)) ≡ hash buf =
        get_le-put_le 4 (hash buf) (hash_size buf) in
      let size : get_le (put_le 4 (length buf)) ≡ length buf = get_le-put_le 4 (length buf) h in
      rw (sum, size, read_exact-append buf rest) refl

  next_record-frame :
      (r : WalRecord) (rest : Bytes)
      → IsEncodable compress options r
      → next_record hash decompress true
          (frame hash compress (encode_record compress options r) ++ rest)
        ≡ found r rest
  next_record-frame r rest e =
      let buf = encode_record compress options r in
      next_record-header buf rest e.size
      ∙ unfold checked in
        rw ((eqb_iff (hash buf) (hash buf)).1 refl) (decode_record-encode_record r rest e)

  next_record-torn :
      (tail : Bytes) → length tail < 8 → next_record hash decompress true tail ≡ Step.finished
  unfolding next_record read_body
  next_record-torn tail h = rw (read_exact-short 8 tail h) refl

  recover_loop-frames :
      (fuel : ℕ) (records : List WalRecord) (tail : Bytes)
      → All (IsEncodable compress options) records
      → length tail < 8
      → length records < fuel
      → recover_loop hash decompress true fuel (frames records ++ tail) ≡ ok records
  unfolding recover_loop after_step
  recover_loop-frames zero records tail e t f = absurd (omega arith)
  recover_loop-frames (suc n) [] tail e t f = rw (next_record-torn tail t) refl
  recover_loop-frames (suc n) (r ∷ records) tail e t f =
      rw
        (
          append_assoc (frame hash compress (encode_record compress options r)) (frames records)
              tail,
          next_record-frame r (frames records ++ tail) e.0,
          recover_loop-frames n records tail e.1 t (omega arith),
        )
        refl

  le-length-frames : (records : List WalRecord) → length records ≤ length (frames records)
  unfolding frame put_le
  le-length-frames [] = omega arith
  le-length-frames (r ∷ records) = omega (
    arith,
    le-length-frames records,
    length-append (encode_record compress options r) (frames records),
  )

  recover-frames :
      (records : List WalRecord) (tail : Bytes)
      → All (IsEncodable compress options) records
      → length tail < 8
      → recover hash decompress true (frames records ++ tail) ≡ ok records
  unfolding recover
  recover-frames records tail e t =
      recover_loop-frames (suc (length (frames records ++ tail))) records tail e t
        (omega (arith, le-length-frames records, length-append (frames records) tail))

  written-maybe_sync :
      (mode : SyncMode) (inner : WalInner) → (maybe_sync options mode inner).written ≡ inner.written
  unfolding maybe_sync sync_inner
  written-maybe_sync SyncMode.no_sync inner = refl
  written-maybe_sync SyncMode.sync inner = refl
  written-maybe_sync SyncMode.data_sync inner = refl
  written-maybe_sync SyncMode.group_sync inner = ground arith

  written-write_records :
      (records : List WalRecord) (inner : WalInner)
      → (write_records hash compress options inner records).written
        ≡ inner.written ++ frames records
  unfolding write_records write_record
  written-write_records [] inner = sym (append-nil inner.written)
  written-write_records (r ∷ records) inner =
      written-write_records records (write_record hash compress options inner r)
      ∙ append_assoc inner.written (frame hash compress (encode_record compress options r))
          (frames records)

  frames-append : (xs ys : List WalRecord) → frames (xs ++ ys) ≡ frames xs ++ frames ys
  frames-append [] ys = refl
  frames-append (r ∷ xs) ys =
      ap (λ rest. frame hash compress (encode_record compress options r) ++ rest)
        (frames-append xs ys)
      ∙ sym (
          append_assoc (frame hash compress (encode_record compress options r)) (frames xs)
            (frames ys))

  written-append :
      (r : WalRecord) (inner : WalInner)
      → (append hash compress options inner r).written
        ≡ inner.written ++ frame hash compress (encode_record compress options r)
  unfolding append write_record
  written-append r inner = written-maybe_sync options.sync_mode _

  written-append_batch :
      (records : List WalRecord) (inner : WalInner)
      → (append_batch hash compress options inner records).written ≡ inner.written ++ frames records
  unfolding append_batch
  written-append_batch records inner =
      written-maybe_sync options.sync_mode _ ∙ written-write_records records inner

  written-run :
      (calls : List LogCall) (inner : WalInner)
      → (run hash compress options inner calls).written ≡ inner.written ++ frames (records_of calls)
  written-run [] inner = sym (append-nil inner.written)
  written-run (one r ∷ calls) inner =
      written-run calls (append hash compress options inner r)
      ∙ ap (λ bytes. bytes ++ frames (records_of calls)) (written-append r inner)
      ∙ append_assoc inner.written (frame hash compress (encode_record compress options r)) _
  written-run (batch records ∷ calls) inner =
      written-run calls (append_batch hash compress options inner records)
      ∙ ap (λ bytes. bytes ++ frames (records_of calls)) (written-append_batch records inner)
      ∙ append_assoc inner.written (frames records) _
      ∙ ap (λ bytes. inner.written ++ bytes) (sym (frames-append records (records_of calls)))

  -- If the checksum is a 32-bit word, decompression undoes compression and every record fits into
  -- the format: whatever calls have written to a new log, compressed or not, recovery of the whole
  -- file returns exactly their records in order, also if a torn header of less than eight bytes
  -- follows.
  pub recover-run :
      (calls : List LogCall) (tail : Bytes)
      → All (IsEncodable compress options) (records_of calls)
      → length tail < 8
      → recover hash decompress true ((run hash compress options create calls).written ++ tail)
        ≡ ok (records_of calls)
  recover-run calls tail e t =
      rw (written-run calls create) (recover-frames (records_of calls) tail e t)

  -- The mode syncs every call.
  abbrev pub IsDurable : SyncMode → Type 0
  IsDurable SyncMode.sync = Unit
  IsDurable SyncMode.data_sync = Unit
  IsDurable SyncMode.no_sync = ⊥
  IsDurable SyncMode.group_sync = ⊥

  durable-maybe_sync :
      (mode : SyncMode) (inner : WalInner)
      → IsDurable mode
      → (maybe_sync options mode inner).durable ≡ (maybe_sync options mode inner).written
  unfolding maybe_sync sync_inner
  durable-maybe_sync SyncMode.no_sync inner d = absurd d
  durable-maybe_sync SyncMode.sync inner d = refl
  durable-maybe_sync SyncMode.data_sync inner d = refl
  durable-maybe_sync SyncMode.group_sync inner d = absurd d

  durable-run :
      (calls : List LogCall) (inner : WalInner)
      → IsDurable options.sync_mode
      → inner.durable ≡ inner.written
      → (run hash compress options inner calls).durable
        ≡ (run hash compress options inner calls).written
  durable-run [] inner d h = h
  durable-run (one r ∷ calls) inner d h =
      durable-run calls (append hash compress options inner r) d
        (unfold append in durable-maybe_sync options.sync_mode _ d)
  durable-run (batch records ∷ calls) inner d h =
      durable-run calls (append_batch hash compress options inner records) d
        (unfold append_batch in durable-maybe_sync options.sync_mode _ d)

  -- If the checksum is a 32-bit word, decompression undoes compression and every record fits into
  -- the format: in the modes that sync every call, the bytes that are durable after any calls on a
  -- new log recover to exactly the records of these calls.
  pub recover-durable :
      (calls : List LogCall)
      → IsDurable options.sync_mode
      → All (IsEncodable compress options) (records_of calls)
      → recover hash decompress true (run hash compress options create calls).durable
        ≡ ok (records_of calls)
  recover-durable calls d e =
      rw
        (
          durable-run calls create d refl,
          sym (append-nil (run hash compress options create calls).written),
        )
        (recover-run calls [] e (omega arith))
