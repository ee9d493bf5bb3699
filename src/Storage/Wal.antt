-- ===== src/Storage/Wal.antt =====
-- crabstash-storage/src/wal.rs: the write-ahead log, a file of records with a checksum and a length
-- each. The crates crc32fast and lz4_flex are parameters: `hash`, `compress` and `decompress`. Writes
-- to the file are taken to succeed.
pub mod Recovery
pub mod Ending
use Prim.Native.Nat.{bit_and, bit_or}
use crabstash.Base.{
  ℕ, zero, suc, ◌+◌, Bytes, Bool, true, false, not, ◌&&◌, Option, none, some, List, [], ◌∷◌, ◌++◌,
  length, take, drop, if◌then◌else◌, leb, ltb, eqb,
}
use crabstash.Common.Error.{Error}
use crabstash.Storage.Codec.{put_le, get_le, and_then, read_exact}

abbrev pub compression_flag : ℕ
compression_flag = 0x80

abbrev pub compression_threshold : ℕ
compression_threshold = 64

pub data SyncMode : Type 0 where
  no_sync sync data_sync group_sync : SyncMode

pub data RecordType : Type 0 where
  put delete : RecordType

-- `record_type as u8`
abbrev pub type_byte : RecordType → ℕ
type_byte put = 1
type_byte delete = 2

-- `RecordType::try_from`; an error is `none`.
unfoldable pub try_from : ℕ → Option RecordType
try_from value =
    let kind = bit_and value 0x7F in
    if eqb kind 1 then some put else if eqb kind 2 then some delete else none

pub record WalRecord : Type 0 where
  pub record_type : RecordType
  pub key : Bytes
  pub value : Option Bytes
  pub timestamp : ℕ

pub record WalOptions : Type 0 where
  pub sync_mode : SyncMode
  pub enable_compression : Bool
  pub group_commit_size_bytes : ℕ

-- The bytes that were written, those of them that a sync has made durable, and the count of the bytes
-- that wait for a sync.
pub record WalInner : Type 0 where
  pub written : Bytes
  pub durable : Bytes
  pub pending_bytes : ℕ

abbrev pub create : WalInner
create = record { written = []; durable = []; pending_bytes = 0 }

abbrev pub value_bytes : Option Bytes → Bytes
value_bytes none = []
value_bytes (some value) = put_le 4 (length value) ++ value

unfoldable pub payload_of : WalRecord → Bytes
payload_of r = put_le 8 r.timestamp ++ (put_le 4 (length r.key) ++ (r.key ++ value_bytes r.value))

module _ (compress : Bytes → Bytes) where
  unfoldable pub encode_record : WalOptions → WalRecord → Bytes
  unfolding payload_of
  encode_record options r =
      let payload = payload_of r in
      if options.enable_compression
        && leb compression_threshold (length payload)
        && ltb (length (compress payload)) (length payload)
      then bit_or (type_byte r.record_type) compression_flag ∷ compress payload
      else type_byte r.record_type ∷ payload

-- `flush` and `sync_all`. The sequence numbers of the group commit, which nothing advances, are left
-- out.
unfoldable pub sync_inner : WalInner → WalInner
sync_inner inner = record { written = inner.written; durable = inner.written; pending_bytes = 0 }

unfoldable pub maybe_sync : WalOptions → SyncMode → WalInner → WalInner
unfolding sync_inner
maybe_sync options no_sync inner = inner
maybe_sync options sync inner = sync_inner inner
maybe_sync options data_sync inner = sync_inner inner
maybe_sync options group_sync inner =
    if leb options.group_commit_size_bytes inner.pending_bytes then sync_inner inner else inner

module _ (hash : Bytes → ℕ) (compress : Bytes → Bytes) where
  -- The length is cut to 32 bits.
  unfoldable pub frame : Bytes → Bytes
  frame buf = put_le 4 (hash buf) ++ (put_le 4 (length buf) ++ buf)

  unfoldable pub write_record : WalOptions → WalInner → WalRecord → WalInner
  unfolding frame
  write_record options inner r =
      let buf = encode_record compress options r in
      record inner {
        written = inner.written ++ frame buf;
        pending_bytes = inner.pending_bytes + (8 + length buf);
      }

  unfoldable pub append : WalOptions → WalInner → WalRecord → WalInner
  unfolding write_record maybe_sync
  append options inner r = maybe_sync options options.sync_mode (write_record options inner r)

  unfoldable pub write_records : WalOptions → WalInner → List WalRecord → WalInner
  unfolding write_record
  write_records options inner [] = inner
  write_records options inner (r ∷ records) =
      write_records options (write_record options inner r) records

  unfoldable pub append_batch : WalOptions → WalInner → List WalRecord → WalInner
  unfolding write_records maybe_sync
  append_batch options inner records =
      maybe_sync options options.sync_mode (write_records options inner records)

-- What reading one record comes to: the log ends, the record is there with the bytes behind it, an
-- error is returned, or an access out of bounds panics.
pub data Step : Type 0 where
  finished : Step
  found : WalRecord → Bytes → Step
  failed : Error → Step
  panicked : Step

pub data Recovered : Type 0 where
  ok : List WalRecord → Recovered
  err : Error → Recovered
  panic : Recovered
  unfinished : Recovered

unfoldable pub parse_value : RecordType → Bytes → Option (Option Bytes)
parse_value put buf =
    and_then (read_exact 4 buf)
      λ (size, rest). and_then (read_exact (get_le size) rest) λ (value, _). some (some value)
parse_value delete buf = some none

-- `none` is a panic of `get_u64_le`, of `get_u32_le` or of a slice.
unfoldable pub parse_payload : RecordType → Bytes → Option WalRecord
parse_payload record_type payload = and_then (read_exact 8 payload) λ (timestamp, buf).
    and_then (read_exact 4 buf) λ (key_len, rest).
      and_then (read_exact (get_le key_len) rest) λ (key, tail).
        and_then (parse_value record_type tail) λ value. some (record {
          record_type = record_type;
          key = key;
          value = value;
          timestamp = get_le timestamp;
        })

abbrev pub step_of : Bytes → Option WalRecord → Step
step_of rest none = panicked
step_of rest (some r) = found r rest

abbrev pub corrupt_or : (Bytes → Option WalRecord) → Bytes → Option Bytes → Step
corrupt_or parse rest none = failed Error.corruption
corrupt_or parse rest (some payload) = step_of rest (parse payload)

module _ (hash : Bytes → ℕ) (decompress : Bytes → Option Bytes) (flag : Bool) where
  unfoldable pub decode_body : Option RecordType → ℕ → Bytes → Bytes → Step
  decode_body none b body rest = failed Error.corruption
  decode_body (some record_type) b body rest =
      corrupt_or (parse_payload record_type) rest
        (if not (eqb (bit_and b compression_flag) 0) && flag then decompress body else some body)

  unfoldable pub decode_record : Bytes → Bytes → Step
  unfolding decode_body
  decode_record [] rest = panicked
  decode_record (b ∷ body) rest = decode_body (try_from b) b body rest

  unfoldable pub checked : ℕ → Option (Bytes × Bytes) → Step
  unfolding decode_record
  checked checksum none = failed Error.io
  checked checksum (some (buf, rest)) =
      if eqb (hash buf) checksum then decode_record buf rest else failed Error.corruption

  unfoldable pub read_body : Option (Bytes × Bytes) → Step
  unfolding checked
  read_body none = finished
  read_body (some (header, rest)) =
      checked (get_le (take 4 header)) (read_exact (get_le (drop 4 header)) rest)

  unfoldable pub next_record : Bytes → Step
  unfolding read_body
  next_record bytes = read_body (read_exact 8 bytes)

  abbrev pub push : WalRecord → Recovered → Recovered
  push r (ok records) = ok (r ∷ records)
  push r (err e) = err e
  push r panic = panic
  push r unfinished = unfinished

  unfoldable pub after_step : Step → (Bytes → Recovered) → Recovered
  after_step finished loop = ok []
  after_step (failed e) loop = err e
  after_step panicked loop = panic
  after_step (found r rest) loop = push r (loop rest)

  -- The loop has fuel for one more round than there are bytes.
  unfoldable pub recover_loop : ℕ → Bytes → Recovered
  unfolding next_record after_step
  recover_loop zero bytes = unfinished
  recover_loop (suc n) bytes = after_step (next_record bytes) (recover_loop n)

  unfoldable pub recover : Bytes → Recovered
  unfolding recover_loop
  recover bytes = recover_loop (suc (length bytes)) bytes
