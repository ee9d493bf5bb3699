-- ===== src/Lock/Table/Check.antt =====
-- A lock on a key that `check_conflict` allows is granted without a wait.
use crabstash.Base.{
  nat_eq, bytes_eq, ℕ, Bytes, ◌≡◌, refl, inl, inr, Bool, true, false, not, any, all, Option, none,
  some, [], ◌∷◌, arith, Bool-cases,
}
use crabstash.Base.Map
use crabstash.Base.Map.{Map}
use crabstash.Lock.Mode.{LockMode}
use crabstash.Lock.Error.{ok}
use crabstash.Lock.Entry.{LockEntry, is_compatible_with_holders, already_held, try_acquire}
use crabstash.Lock.Table.{
  LockTable, any_holder_clashes, held_conflict, check_conflict, check_range_conflict, lock_key,
  lock_entry, or_new, done, Others, put_entry, record_lock_acquired,
}

any_holder_clashes-false :
    (holders : Map ℕ LockMode) (txn_id : ℕ) (mode : LockMode)
    → is_compatible_with_holders holders txn_id mode ≡ not (any_holder_clashes txn_id mode holders)
unfolding is_compatible_with_holders all any
any_holder_clashes-false [] txn_id mode = refl
any_holder_clashes-false (h ∷ holders) txn_id mode =
    ground (arith, any_holder_clashes-false holders txn_id mode)

-- Without a clashing holder the first attempt is granted.
try_acquire-granted :
    (entry : LockEntry) (txn_id : ℕ) (mode : LockMode)
    → any_holder_clashes txn_id mode entry.holders ≡ false
    → (try_acquire entry txn_id mode).1 ≡ true
unfolding try_acquire
try_acquire-granted entry txn_id mode free =
    let fits : is_compatible_with_holders entry.holders txn_id mode ≡ true =
      ground (arith, any_holder_clashes-false entry.holders txn_id mode) in
    elim (Bool-cases (already_held (Map.get txn_id entry.holders) mode)) [
      | inl held ↦ rw held refl
      | inr new ↦ rw (new, fits) refl
    ]

or_new-free :
    (o : Option LockEntry) (key : Bytes) (txn_id : ℕ) (mode : LockMode)
    → held_conflict o txn_id mode ≡ false
    → any_holder_clashes txn_id mode (or_new o key).holders ≡ false
unfolding any
or_new-free none key txn_id mode free = refl
or_new-free (some entry) key txn_id mode free = free

-- Where `check_conflict` sees no conflict, `lock_key` is granted at once, whatever the other threads
-- would do during a wait: it changes the entry of the key and records the lock.
pub lock_key-check_conflict :
    (table : LockTable) (txn_id : ℕ) (key : Bytes) (mode : LockMode) (deadline : Bool)
    (others : Others)
    → check_conflict table txn_id key mode ≡ false
    → lock_key table txn_id key mode deadline others
      ≡ done (ok tt) (
          record_lock_acquired
            (put_entry table key
              (try_acquire (or_new (Map.get key table.key_locks) key) txn_id mode).0)
            txn_id
            key)
unfolding check_conflict lock_key lock_entry
lock_key-check_conflict table txn_id key mode deadline others free =
    let held : held_conflict (Map.get key table.key_locks) txn_id mode ≡ false = ground arith in
    let ranges : check_range_conflict table txn_id key mode ≡ false = ground arith in
    let granted =
      try_acquire-granted (or_new (Map.get key table.key_locks) key) txn_id mode
        (or_new-free (Map.get key table.key_locks) key txn_id mode held) in
    rw (ranges, granted) refl
