-- ===== src/Tests/Logs.antt =====
-- A small write-ahead log, a small batch and a small filter.
use crabstash.Base.{
  inl, inr, false, ℕ, ◌%◌, ◌^◌, ◌<◌, ◌≡◌, ◌≢◌, refl, Bytes, true, none, some, List, [], ◌∷◌, ◌++◌,
  All, length, arith,
}
use crabstash.Storage.Bloom
use crabstash.Storage.Bloom.{from_bytes, insert_all, may_contain, may_contain-from_bytes}
use crabstash.Storage.Batch
use crabstash.Storage.Batch.{
  BatchCall, BatchOperation, apply_all, expected, total_size, apply_all-new,
}
use crabstash.Storage.Codec.{put_le}
use crabstash.Storage.Wal.{
  WalRecord, WalOptions, RecordType, SyncMode, encode_record, payload_of, create, recover, ok,
  unfinished,
}
use crabstash.Storage.Wal.Ending.{recover_ends}
use crabstash.Storage.Wal.Recovery.{
  IsEncodable, LogCall, records_of, run, recover-run, recover-durable,
}

-- A checksum, and a compression that leaves the bytes as they are.
abbrev length_hash : Bytes → ℕ
length_hash bytes = length bytes % 2 ^ 32

length_hash-size : (b : Bytes) → length_hash b < 2 ^ 32
length_hash-size b = omega arith

abbrev options : WalOptions
options = record {
  sync_mode = SyncMode.sync;
  enable_compression = true;
  group_commit_size_bytes = 0;
}

abbrev put_one : WalRecord
put_one = record {
  record_type = RecordType.put;
  key = 1 ∷ 2 ∷ [];
  value = some (3 ∷ []);
  timestamp = 9;
}

abbrev delete_one : WalRecord
delete_one = record {
  record_type = RecordType.delete;
  key = 1 ∷ 2 ∷ [];
  value = none;
  timestamp = 10;
}

abbrev calls : List LogCall
calls = LogCall.one put_one ∷ LogCall.batch (delete_one ∷ put_one ∷ []) ∷ []

put_one-IsEncodable : IsEncodable (λ b. b) options put_one
unfolding encode_record payload_of put_le
put_one-IsEncodable = record {
  typed = omega arith;
  time = omega arith;
  key_size = omega arith;
  size = omega arith;
}

delete_one-IsEncodable : IsEncodable (λ b. b) options delete_one
unfolding encode_record payload_of put_le
delete_one-IsEncodable = record {
  typed = tt;
  time = omega arith;
  key_size = omega arith;
  size = omega arith;
}

calls-IsEncodable : All (IsEncodable (λ b. b) options) (records_of calls)
calls-IsEncodable = (put_one-IsEncodable, (delete_one-IsEncodable, (put_one-IsEncodable, tt)))

recover-run_example :
    recover length_hash some true
      ((run length_hash (λ b. b) options create calls).written ++ (1 ∷ 0 ∷ []))
    ≡ ok (put_one ∷ delete_one ∷ put_one ∷ [])
recover-run_example =
    recover-run length_hash (λ b. b) some length_hash-size (λ b. refl) options calls (1 ∷ 0 ∷ [])
      calls-IsEncodable (omega arith)

recover-durable_example :
    recover length_hash some true (run length_hash (λ b. b) options create calls).durable
    ≡ ok (put_one ∷ delete_one ∷ put_one ∷ [])
recover-durable_example =
    recover-durable length_hash (λ b. b) some length_hash-size (λ b. refl) options calls tt
      calls-IsEncodable

abbrev batch_calls : List BatchCall
batch_calls =
    BatchCall.clear_all
    ∷ BatchCall.record_of (BatchOperation.put (1 ∷ []) (2 ∷ 3 ∷ []))
    ∷ BatchCall.record_of (BatchOperation.delete (4 ∷ []))
    ∷ []

batch_size : (apply_all Batch.new batch_calls).approximate_size ≡ 4
unfolding Batch.add_put Batch.add_delete
batch_size = refl

recover_ends_example : recover length_hash (λ b. some b) true (7 ∷ 0 ∷ 9 ∷ []) ≢ unfinished
recover_ends_example = recover_ends length_hash (λ b. some b) true (7 ∷ 0 ∷ 9 ∷ [])

abbrev filtered : Bloom.BloomFilter
filtered = insert_all (Bloom.new 2 10 7) ((1 ∷ 2 ∷ 3 ∷ 4 ∷ 5 ∷ []) ∷ (9 ∷ []) ∷ [])

hash_of_five : Bloom.hash (1 ∷ 2 ∷ 3 ∷ 4 ∷ 5 ∷ []) ≡ 1429793236
unfolding Bloom.hash
hash_of_five = refl

other_key : may_contain filtered (8 ∷ 8 ∷ []) ≡ false
unfolding may_contain Bloom.new Bloom.insert crabstash.Base.all
other_key = refl

may_contain-from_bytes_example :
    may_contain (from_bytes filtered.bits filtered.num_hashes) (9 ∷ []) ≡ true
may_contain-from_bytes_example =
    may_contain-from_bytes 2 10 7 ((1 ∷ 2 ∷ 3 ∷ 4 ∷ 5 ∷ []) ∷ (9 ∷ []) ∷ []) (9 ∷ [])
      (inr (inl refl))
