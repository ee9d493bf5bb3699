-- ===== src/Lock/Table/Ranges.antt =====
-- What a lock on a range excludes, and what excludes it.
use crabstash.Base.{
  nat_eq, ℕ, Bytes, bytes_le, bytes_eq, Bound, key_in_range, ◌≡◌, ◌≢◌, ◌↔◌, refl, inl, inr, Bool,
  true, false, ◌&&◌, any, any-In, any_witness, List, arith, In, Bool-cases,
}
use crabstash.Lock.Mode.{LockMode, is_compatible}
use crabstash.Lock.Error.{ok, err, range_conflict}
use crabstash.Lock.Entry.{LockEntry}
use crabstash.Lock.Range.{
  RangeLockEntry, contains_key, overlaps, entries, unbounded_end, bound_less_than, find_overlapping,
  find_containing_key,
}
use crabstash.Lock.Range.Exact.{IsSearchable, find_overlapping-IsSearchable}
use crabstash.Lock.Range.History.{find_containing_key-IsSearchable}
use crabstash.Lock.Table.{
  LockTable, clashes, any_range_clashes, any_holder_clashes, check_range_conflict, key_clashes,
  lock_range, lock_key, done, Others,
}

any-false_iff :
    {A : Type 0} (p : A → Bool) (xs : List A)
    → (any p xs ≡ false) ↔ ((a : A) → In a xs → p a ≡ false)
any-false_iff p xs = (
  λ h a m. elim (Bool-cases (p a)) [ inl t ↦ let t' = any-In p xs a m t in cc | inr f ↦ f ],
  λ h. elim (Bool-cases (any p xs)) [
    | inl t ↦ let (a, m, t') = any_witness p xs t in let f = h a m in cc
    | inr f ↦ f
  ],
)

-- No other transaction has a lock on an overlapping range in a mode that excludes this one.
abbrev pub RangesFree : LockTable → ℕ → Bound → Bound → LockMode → Type 0
RangesFree table txn_id start end mode =
    (r : RangeLockEntry)
    → In r (entries table.range_locks)
    → overlaps r start end ≡ true
    → clashes txn_id mode r.txn_id r.mode ≡ false

-- No other transaction holds a key of the range in a mode that excludes this one.
abbrev pub KeysFree : LockTable → ℕ → Bound → Bound → LockMode → Type 0
KeysFree table txn_id start end mode =
    (k : Bytes) (entry : LockEntry) (h : ℕ × LockMode)
    → In (k, entry) table.key_locks
    → key_in_range entry.key start end ≡ true
    → In h entry.holders
    → clashes txn_id mode h.0 h.1 ≡ false

ranges-RangesFree :
    (table : LockTable) (txn_id : ℕ) (start end : Bound) (mode : LockMode)
    → IsSearchable table.range_locks
    → bound_less_than unbounded_end start ≡ false
    → (any_range_clashes txn_id mode (find_overlapping table.range_locks start end) ≡ false)
      ↔ RangesFree table txn_id start end mode
ranges-RangesFree table txn_id start end mode s u =
    let (to, from) =
      any-false_iff (λ (r : RangeLockEntry). clashes txn_id mode r.txn_id r.mode)
        (find_overlapping table.range_locks start end) in
    (
      λ h r m o.
          to h r ((find_overlapping-IsSearchable table.range_locks start end r s u).1 (m, o)),
      λ h. from (λ r m.
          let (i, o) = (find_overlapping-IsSearchable table.range_locks start end r s u).0 m in
          h r i o),
    )

keys-KeysFree :
    (table : LockTable) (txn_id : ℕ) (start end : Bound) (mode : LockMode)
    → (any (key_clashes txn_id mode start end) table.key_locks ≡ false)
      ↔ KeysFree table txn_id start end mode
unfolding key_clashes
keys-KeysFree table txn_id start end mode =
    let (to, from) = any-false_iff (key_clashes txn_id mode start end) table.key_locks in
    (
      λ h k entry holder m inside held.
          let clear = to h (k, entry) m in
          (any-false_iff (λ (x : ℕ × LockMode). clashes txn_id mode x.0 x.1) entry.holders).0
            (ground arith) holder held,
      λ h. from (λ (k, entry) m. free_at k entry (h k entry) m),
    )
  where
    free_at :
        (k : Bytes) (entry : LockEntry)
        → ((holder : ℕ × LockMode)
            → In (k, entry) table.key_locks
            → key_in_range entry.key start end ≡ true
            → In holder entry.holders
            → clashes txn_id mode holder.0 holder.1 ≡ false)
        → In (k, entry) table.key_locks
        → (key_in_range entry.key start end && any_holder_clashes txn_id mode entry.holders) ≡ false
    free_at k entry h m = elim (Bool-cases (key_in_range entry.key start end)) [
      | inr out ↦ rw out refl
      | inl inside ↦ rw inside (
          (any-false_iff (λ (x : ℕ × LockMode). clashes txn_id mode x.0 x.1) entry.holders).1
            (λ holder held. h holder m inside held))
    ]

-- While range locks are on and the range does not start above 256 bytes 0xFF, `lock_range` is granted
-- exactly when no other transaction has an overlapping range or a key of the range in a mode that
-- excludes the new one.
pub lock_range_iff :
    (table : LockTable) (txn_id : ℕ) (start end : Bound) (mode : LockMode)
    → IsSearchable table.range_locks
    → table.config.enable_range_locks ≡ true
    → bound_less_than unbounded_end start ≡ false
    → ((lock_range table txn_id start end mode).1 ≡ ok tt)
      ↔ (RangesFree table txn_id start end mode × KeysFree table txn_id start end mode)
unfolding lock_range
lock_range_iff table txn_id start end mode s on u =
    let (to_ranges, from_ranges) = ranges-RangesFree table txn_id start end mode s u in
    let (to_keys, from_keys) = keys-KeysFree table txn_id start end mode in
    elim (Bool-cases
      (any_range_clashes txn_id mode (find_overlapping table.range_locks start end))) [
        | inl clash ↦ rw (on, clash) (λ h. cc, λ (r, k). let f = from_ranges r in cc)
        | inr free ↦ elim (Bool-cases (any (key_clashes txn_id mode start end) table.key_locks)) [
          | inl clash ↦ rw (on, free, clash) (λ h. cc, λ (r, k). let f = from_keys k in cc)
          | inr clear ↦ rw (on, free, clear) (λ h. (to_ranges free, to_keys clear), λ h. refl)
        ]
      ]

-- While range locks are on, another transaction's lock on a range that contains the key, which is not
-- above 256 bytes 0xFF, in a mode that excludes the wanted one makes `lock_key` fail without effect.
pub lock_key-range_conflict :
    (table : LockTable) (txn_id : ℕ) (key : Bytes) (mode : LockMode) (deadline : Bool)
    (others : Others) (r : RangeLockEntry)
    → IsSearchable table.range_locks
    → table.config.enable_range_locks ≡ true
    → bytes_le key unbounded_end ≡ true
    → In r (entries table.range_locks)
    → contains_key r key ≡ true
    → r.txn_id ≢ txn_id
    → is_compatible mode r.mode ≡ false
    → lock_key table txn_id key mode deadline others ≡ done (err range_conflict) table
unfolding lock_key check_range_conflict
lock_key-range_conflict table txn_id key mode deadline others r s on le m c ne clash =
    let found = (find_containing_key-IsSearchable table.range_locks key r s le).1 (m, c) in
    let hit =
      any-In (λ (e : RangeLockEntry). clashes txn_id mode e.txn_id e.mode)
        (find_containing_key table.range_locks key) r found (ground arith) in
    rw (on, hit) refl
