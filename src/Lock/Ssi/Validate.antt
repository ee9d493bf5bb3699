-- ===== src/Lock/Ssi/Validate.antt =====
-- crabstash-lock/src/ssi.rs: the validation of a commit.
use crabstash.Base.{
  nat_eq, Bound, ℕ, Bytes, Bool, not, ◌&&◌, Option, none, some, List, [], ◌∷◌, ◌++◌, any, is_empty,
  if◌then◌else◌, ltb, length,
}
use crabstash.Base.Map
use crabstash.Base.Map.{Map}
use crabstash.Lock.Ssi.RwSet
use crabstash.Lock.Ssi.RwSet.{ReadWriteSet, RwConflict, read_write, write_read}
use crabstash.Lock.Ssi.Manager.{
  SsiManager, SsiStats, CommittedTxn, WriteIndexEntry, bump, drop_one, update_safe_snapshot,
}

pub data SsiConflict : Type 0 where
  write_skew phantom : ℕ → SsiConflict
  dangerous_structure : ℕ → ℕ → SsiConflict
  txn_not_found : SsiConflict

pub data SsiResult : Type 0 where
  ok : SsiResult
  err : SsiConflict → SsiResult

-- An index entry of a write that the reader has not seen, by a transaction that ran at the same time.
abbrev pub is_conflicting : ℕ → ℕ → WriteIndexEntry → Bool
is_conflicting read_ts commit_ts e = ltb read_ts e.commit_ts && ltb e.start_ts commit_ts

-- `writers.iter()`, for the writers of one key that was read.
unfoldable pub conflicts_with : ℕ → ℕ → ℕ → List WriteIndexEntry → List RwConflict
conflicts_with txn_id read_ts commit_ts [] = []
conflicts_with txn_id read_ts commit_ts (e ∷ writers) =
    let rest = conflicts_with txn_id read_ts commit_ts writers in
    if is_conflicting read_ts commit_ts e
    then record { from_txn = e.commit_ts; to_txn = txn_id; conflict_type = read_write } ∷ rest
    else rest

abbrev pub entries_of : Option (List WriteIndexEntry) → List WriteIndexEntry
entries_of none = []
entries_of (some writers) = writers

-- The loop over the keys that were read.
unfoldable pub inbound : ℕ → ℕ → ℕ → Map ℕ (List WriteIndexEntry) → List ℕ → List RwConflict
unfolding conflicts_with
inbound txn_id read_ts commit_ts index [] = []
inbound txn_id read_ts commit_ts index (k ∷ read_set) =
    conflicts_with txn_id read_ts commit_ts (entries_of (Map.get k index))
    ++ inbound txn_id read_ts commit_ts index read_set

abbrev pub count_conflicts : SsiStats → List RwConflict → SsiStats
count_conflicts stats [] = stats
count_conflicts stats (c ∷ conflicts) =
    count_conflicts (record stats { conflicts_detected = bump stats.conflicts_detected }) conflicts

abbrev pub in_window : ℕ → ℕ → ℕ → Bool
in_window read_ts commit_ts ts = ltb read_ts ts && ltb ts commit_ts

-- One committed transaction with a commit time in the window.
unfoldable pub note_outbound :
    ℕ → ℕ → CommittedTxn → ReadWriteSet × SsiStats → ReadWriteSet × SsiStats
note_outbound txn_id ts committed (s, stats) =
    if RwSet.has_write_read_overlap s committed.read_set
    then (
      RwSet.add_outbound_conflict s
          (record { from_txn = txn_id; to_txn = ts; conflict_type = write_read }),
      record stats { conflicts_detected = bump stats.conflicts_detected },
    )
    else (s, stats)

unfoldable pub note_committed :
    ℕ → ℕ → ℕ → ℕ → CommittedTxn → ReadWriteSet × SsiStats → ReadWriteSet × SsiStats
unfolding note_outbound
note_committed txn_id read_ts commit_ts ts committed acc =
    if in_window read_ts commit_ts ts then note_outbound txn_id ts committed acc else acc

-- The test for a phantom, of the ranges that were read.
abbrev pub is_phantom : ℕ → ℕ → List (Bound × Bound) → ℕ → CommittedTxn → Bool
is_phantom read_ts commit_ts ranges ts committed =
    in_window read_ts commit_ts ts
    && any (λ write_key. RwSet.key_in_ranges write_key ranges) committed.write_keys

pub record Scan : Type 0 where
  pub s : ReadWriteSet
  pub stats : SsiStats
  pub found : Option SsiConflict

-- The loop over the committed transactions, which a phantom ends early.
unfoldable pub scan_committed : ℕ → ℕ → ℕ → Map ℕ CommittedTxn → ReadWriteSet × SsiStats → Scan
unfolding note_committed
scan_committed txn_id read_ts commit_ts [] acc = record { s = acc.0; stats = acc.1; found = none }
scan_committed txn_id read_ts commit_ts ((ts, committed) ∷ rest) acc =
    let acc' = note_committed txn_id read_ts commit_ts ts committed acc in
    let later = scan_committed txn_id read_ts commit_ts rest acc' in
    if is_phantom read_ts commit_ts acc'.0.read_ranges ts committed
    then record {
      s = acc'.0;
      stats = record acc'.1 { aborts_phantom = bump acc'.1.aborts_phantom };
      found = some (phantom ts);
    }
    else later

abbrev pub first_or_zero : (RwConflict → ℕ) → List RwConflict → ℕ
first_or_zero f [] = 0
first_or_zero f (c ∷ conflicts) = f c

-- The two tests after the scan.
unfoldable pub verdict : ReadWriteSet → SsiStats → SsiStats × SsiResult
verdict s stats =
    if RwSet.has_dangerous_structure s
    then (
      record stats { aborts_dangerous_structure = bump stats.aborts_dangerous_structure },
      err (
          dangerous_structure (first_or_zero (λ c. c.from_txn) s.inbound_conflicts)
            (first_or_zero (λ c. c.to_txn) s.outbound_conflicts)),
    )
    else if RwSet.has_inbound_conflict s
    then (
      record stats { aborts_write_skew = bump stats.aborts_write_skew },
      err (write_skew (first_or_zero (λ c. c.from_txn) s.inbound_conflicts)),
    )
    else (stats, ok)

-- `entry(k).or_default().push(entry)`, for every hash that was written.
unfoldable pub index_writes :
    WriteIndexEntry → List ℕ → Map ℕ (List WriteIndexEntry) → Map ℕ (List WriteIndexEntry)
index_writes entry [] index = index
index_writes entry (k ∷ write_set) index =
    index_writes entry write_set (Map.insert k (entries_of (Map.get k index) ++ entry ∷ []) index)

abbrev pub max_recently_committed : ℕ
max_recently_committed = 1000

-- `while recent.len() > MAX { recent.pop_front() }`
unfoldable pub trim : List (ℕ × ℕ) → List (ℕ × ℕ)
trim [] = []
trim (c ∷ recent) =
    if ltb max_recently_committed (length (c ∷ recent)) then trim recent else c ∷ recent

abbrev pub start_or : Option ℕ → ℕ → ℕ
start_or none read_ts = read_ts
start_or (some start_ts) read_ts = start_ts

-- What a successful validation writes.
unfoldable pub install : SsiManager → SsiStats → ReadWriteSet → ℕ → ℕ → ℕ → List Bytes → SsiManager
unfolding index_writes trim update_safe_snapshot
install m stats s txn_id read_ts commit_ts written_keys =
    let start_ts = start_or (Map.get txn_id m.active_start_ts) read_ts in
    let m' = update_safe_snapshot (record m {
      write_index =
          index_writes (record { commit_ts = commit_ts; start_ts = start_ts }) s.write_keys
            m.write_index;
      committed_txns =
          Map.insert commit_ts
            (record {
              start_ts = start_ts;
              read_set = s.read_keys;
              write_set = s.write_keys;
              write_keys = written_keys;
            })
            m.committed_txns;
      recently_committed = trim (m.recently_committed ++ (txn_id, commit_ts) ∷ []);
      active_txns = Map.remove txn_id m.active_txns;
      active_start_ts = Map.remove txn_id m.active_start_ts;
      active_writers =
          if not (is_empty s.write_keys) then drop_one m.active_writers else m.active_writers;
    }) in
    record m' { stats = record stats { commits = bump stats.commits } }

-- What a failed validation writes: the conflicts stay in the set of the transaction, which stays
-- active.
abbrev pub keep_active : SsiManager → SsiStats → ReadWriteSet → ℕ → SsiManager
keep_active m stats s txn_id = record m {
  active_txns = Map.insert txn_id s m.active_txns;
  stats = stats;
}

unfoldable pub finish :
    SsiManager
    → SsiStats × SsiResult
    → ReadWriteSet
    → ℕ
    → ℕ
    → ℕ
    → List Bytes
    → SsiManager × SsiResult
finish m (stats, ok) s txn_id read_ts commit_ts written_keys =
    (install m stats s txn_id read_ts commit_ts written_keys, ok)
finish m (stats, err c) s txn_id read_ts commit_ts written_keys =
    (keep_active m stats s txn_id, err c)

-- A phantom ends the call before the two tests.
unfoldable pub decide :
    SsiManager
    → Option SsiConflict
    → SsiStats
    → ReadWriteSet
    → ℕ
    → ℕ
    → ℕ
    → List Bytes
    → SsiManager × SsiResult
unfolding finish verdict
decide m (some c) stats s txn_id read_ts commit_ts written_keys =
    (keep_active m stats s txn_id, err c)
decide m none stats s txn_id read_ts commit_ts written_keys =
    finish m (verdict s stats) s txn_id read_ts commit_ts written_keys

-- The set with the conflicts of the reads, before the scan.
abbrev pub with_inbound : SsiManager → ReadWriteSet → ℕ → ℕ → ℕ → ReadWriteSet
with_inbound m s txn_id read_ts commit_ts = record s {
  inbound_conflicts =
      s.inbound_conflicts ++ inbound txn_id read_ts commit_ts m.write_index s.read_keys;
}

unfoldable pub validate_from :
    Option ReadWriteSet → SsiManager → ℕ → ℕ → ℕ → List Bytes → SsiManager × SsiResult
unfolding decide scan_committed
validate_from none m txn_id read_ts commit_ts written_keys = (m, err txn_not_found)
validate_from (some s) m txn_id read_ts commit_ts written_keys =
    let conflicts = inbound txn_id read_ts commit_ts m.write_index s.read_keys in
    let scan =
      scan_committed txn_id read_ts commit_ts m.committed_txns
        (with_inbound m s txn_id read_ts commit_ts, count_conflicts m.stats conflicts) in
    decide m scan.found scan.stats scan.s txn_id read_ts commit_ts written_keys

unfoldable pub validate_and_commit_with_keys :
    SsiManager → ℕ → ℕ → ℕ → List Bytes → SsiManager × SsiResult
unfolding validate_from
validate_and_commit_with_keys m txn_id read_ts commit_ts written_keys =
    validate_from (Map.get txn_id m.active_txns) m txn_id read_ts commit_ts written_keys

unfoldable pub validate_and_commit : SsiManager → ℕ → ℕ → ℕ → SsiManager × SsiResult
unfolding validate_and_commit_with_keys
validate_and_commit m txn_id read_ts commit_ts =
    validate_and_commit_with_keys m txn_id read_ts commit_ts []
