-- ===== src/Lock/Ssi/Manager.antt =====
-- crabstash-lock/src/ssi.rs: the state of `SSIManager`, and its operations except the validation.
-- Each operation is one step: the maps and counters are locked or atomic, and a commit holds
-- `commit_lock`. A set that the source shares by `Arc` is kept in `active_txns` alone.
use crabstash.Base.{
  nat_eq, ℕ, ◌+◌, ◌-◌, ◌%◌, ◌^◌, Bytes, Bound, Bool, true, false, not, Option, none, some, List, [],
  ◌∷◌, any, retain, is_empty, if◌then◌else◌, ltb, leb, min,
}
use crabstash.Base.Map
use crabstash.Base.Map.{Map}
use crabstash.Lock.Ssi.Bloom
use crabstash.Lock.Ssi.Bloom.{BloomFilter}
use crabstash.Lock.Ssi.RwSet
use crabstash.Lock.Ssi.RwSet.{ReadWriteSet}

pub record CommittedTxn : Type 0 where
  pub start_ts : ℕ
  pub read_set : List ℕ
  pub write_set : List ℕ
  pub write_keys : List Bytes

pub record WriteIndexEntry : Type 0 where
  pub commit_ts : ℕ
  pub start_ts : ℕ

pub record SsiStats : Type 0 where
  pub commits : ℕ
  pub aborts_write_skew : ℕ
  pub aborts_phantom : ℕ
  pub aborts_dangerous_structure : ℕ
  pub conflicts_detected : ℕ

abbrev pub stats_new : SsiStats
stats_new = record {
  commits = 0;
  aborts_write_skew = 0;
  aborts_phantom = 0;
  aborts_dangerous_structure = 0;
  conflicts_detected = 0;
}

-- `fetch_add(1)` and `fetch_sub(1)` on a machine word.
abbrev pub bump : ℕ → ℕ
bump n = (n + 1) % 2 ^ 64

abbrev pub drop_one : ℕ → ℕ
drop_one n = (n + (2 ^ 64 - 1)) % 2 ^ 64

abbrev pub u64_max : ℕ
u64_max = 2 ^ 64 - 1

pub record SsiManager : Type 0 where
  pub committed_txns : Map ℕ CommittedTxn
  pub active_txns : Map ℕ ReadWriteSet
  pub active_start_ts : Map ℕ ℕ
  pub read_only_txns : Map ℕ Bool
  pub active_writers : ℕ
  pub write_bloom : BloomFilter
  pub write_index : Map ℕ (List WriteIndexEntry)
  pub watermark : ℕ
  pub safe_snapshot : ℕ
  pub stats : SsiStats
  pub recently_committed : List (ℕ × ℕ)

abbrev pub new : SsiManager
new = record {
  committed_txns = [];
  active_txns = [];
  active_start_ts = [];
  read_only_txns = [];
  active_writers = 0;
  write_bloom = Bloom.new;
  write_index = [];
  watermark = 0;
  safe_snapshot = 0;
  stats = stats_new;
  recently_committed = [];
}

-- `iter().map(…).min().unwrap_or(u64::MAX)`; a start time is a word.
unfoldable pub min_start_ts : Map ℕ ℕ → Option ℕ
min_start_ts [] = none
min_start_ts ((t, ts) ∷ m) =
    let rest = min_start_ts m in elim rest [ none ↦ some ts | some n ↦ some (min ts n) ]

abbrev pub or_max : Option ℕ → ℕ
or_max none = u64_max
or_max (some ts) = ts

unfoldable pub update_safe_snapshot : SsiManager → SsiManager
update_safe_snapshot m = record m { safe_snapshot = or_max (min_start_ts m.active_start_ts) }

unfoldable pub begin_read_only_txn : SsiManager → ℕ → ℕ → SsiManager
unfolding update_safe_snapshot
begin_read_only_txn m txn_id start_ts = update_safe_snapshot (record m {
  active_start_ts = Map.insert txn_id start_ts m.active_start_ts;
  read_only_txns = Map.insert txn_id true m.read_only_txns;
})

unfoldable pub is_read_only : SsiManager → ℕ → Bool
is_read_only m txn_id = Map.contains_key txn_id m.read_only_txns

abbrev pub active_writer_count : SsiManager → ℕ
active_writer_count m = m.active_writers

abbrev pub has_active_writers : SsiManager → Bool
has_active_writers m = ltb 0 (active_writer_count m)

unfoldable pub begin_txn_with_ts : SsiManager → ℕ → ℕ → SsiManager
unfolding update_safe_snapshot
begin_txn_with_ts m txn_id start_ts = update_safe_snapshot (record m {
  active_txns = Map.insert txn_id RwSet.new m.active_txns;
  active_start_ts = Map.insert txn_id start_ts m.active_start_ts;
})

unfoldable pub begin_txn : SsiManager → ℕ → SsiManager
unfolding begin_txn_with_ts
begin_txn m txn_id = begin_txn_with_ts m txn_id txn_id

module _ (hash_key : Bytes → ℕ) where
  unfoldable pub record_read_in : Option ReadWriteSet → SsiManager → ℕ → Bytes → SsiManager
  record_read_in none m txn_id key = m
  record_read_in (some s) m txn_id key = record m {
    active_txns = Map.insert txn_id (RwSet.record_read hash_key s key) m.active_txns;
  }

  unfoldable pub record_read : SsiManager → ℕ → Bytes → SsiManager
  unfolding record_read_in
  record_read m txn_id key = record_read_in (Map.get txn_id m.active_txns) m txn_id key

  unfoldable pub record_write_in : Option ReadWriteSet → SsiManager → ℕ → Bytes → SsiManager
  record_write_in none m txn_id key = m
  record_write_in (some s) m txn_id key = record m {
    active_txns = Map.insert txn_id (RwSet.record_write hash_key s key) m.active_txns;
    active_writers = if is_empty s.write_keys then bump m.active_writers else m.active_writers;
    write_bloom = Bloom.insert m.write_bloom (hash_key key);
  }

  unfoldable pub record_write : SsiManager → ℕ → Bytes → SsiManager
  unfolding record_write_in
  record_write m txn_id key = record_write_in (Map.get txn_id m.active_txns) m txn_id key

unfoldable pub record_range_read_in :
    Option ReadWriteSet → SsiManager → ℕ → Bound → Bound → SsiManager
record_range_read_in none m txn_id start end = m
record_range_read_in (some s) m txn_id start end = record m {
  active_txns = Map.insert txn_id (RwSet.record_range_read s start end) m.active_txns;
}

unfoldable pub record_range_read : SsiManager → ℕ → Bound → Bound → SsiManager
unfolding record_range_read_in
record_range_read m txn_id start end =
    record_range_read_in (Map.get txn_id m.active_txns) m txn_id start end

-- The set of a transaction has writes, so the transaction is counted as a writer.
abbrev pub is_writer : Option ReadWriteSet → Bool
is_writer none = false
is_writer (some s) = not (is_empty s.write_keys)

unfoldable pub abort_txn : SsiManager → ℕ → SsiManager
unfolding update_safe_snapshot
abort_txn m txn_id = update_safe_snapshot (record m {
  active_txns = Map.remove txn_id m.active_txns;
  active_writers =
      if is_writer (Map.get txn_id m.active_txns)
      then drop_one m.active_writers
      else m.active_writers;
  active_start_ts = Map.remove txn_id m.active_start_ts;
  read_only_txns = Map.remove txn_id m.read_only_txns;
})

unfoldable pub commit_read_only_txn : SsiManager → ℕ → SsiManager
unfolding update_safe_snapshot
commit_read_only_txn m txn_id =
    let m' = update_safe_snapshot (record m {
      active_start_ts = Map.remove txn_id m.active_start_ts;
      read_only_txns = Map.remove txn_id m.read_only_txns;
    }) in
    record m' { stats = record m.stats { commits = bump m.stats.commits } }

unfoldable pub may_have_write_conflict : SsiManager → List ℕ → Bool
may_have_write_conflict m read_keys = any (Bloom.may_contain m.write_bloom) read_keys

-- `retain(|_, entries| { entries.retain(…); !entries.is_empty() })`
unfoldable pub prune_index : ℕ → Map ℕ (List WriteIndexEntry) → Map ℕ (List WriteIndexEntry)
prune_index w [] = []
prune_index w ((k, entries) ∷ index) =
    let rest = prune_index w index in
    let kept = retain (λ (e : WriteIndexEntry). leb w e.commit_ts) entries in
    if is_empty kept then rest else (k, kept) ∷ rest

unfoldable pub advance_watermark : SsiManager → ℕ → SsiManager
unfolding prune_index
advance_watermark m new_watermark =
    if ltb m.watermark new_watermark
    then record m {
      watermark = new_watermark;
      committed_txns = retain (λ (c : ℕ × CommittedTxn). leb new_watermark c.0) m.committed_txns;
      write_index = prune_index new_watermark m.write_index;
    }
    else m

-- The rounds of the polling loop: what the manager is when it is looked at, until the deadline.
unfoldable pub wait_for_safe_snapshot : List SsiManager → Option ℕ
wait_for_safe_snapshot [] = none
wait_for_safe_snapshot (m ∷ later) =
    let rest = wait_for_safe_snapshot later in
    if not (has_active_writers m) then some m.safe_snapshot else rest
