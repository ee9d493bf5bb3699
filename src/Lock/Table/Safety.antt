-- ===== src/Lock/Table/Safety.antt =====
-- Whatever is called, the holders of every key stay compatible, and the range locks can be searched.
use crabstash.Base.{
  nat_eq, ℕ, sym, ◌⊎◌, Bytes, bytes_eq, Bound, ◌≡◌, refl, inl, inr, Bool, true, false, not, any,
  Option, none, some, arith, ◌==◌, All, Bool-cases, Option-cases, if◌then◌else◌,
}
use crabstash.Base.Map
use crabstash.Base.Map.{Map}
use crabstash.Lock.Mode.{LockMode}
use crabstash.Lock.Error.{ok, err}
use crabstash.Lock.Entry.{LockEntry, Wake, Progress, returned, waiting, try_acquire}
use crabstash.Lock.Entry.Safety.{
  IsCompatible, Keeps, after, try_acquire-IsCompatible, acquire-IsCompatible,
}
use crabstash.Lock.Escalation
use crabstash.Lock.Escalation.{EscalationState}
use crabstash.Lock.Range.{find_overlapping}
use crabstash.Lock.Range.Exact.{IsSearchable, insert-IsSearchable}
use crabstash.Lock.Table.{
  LockTable, any_range_clashes, key_clashes, check_range_conflict, lock_range, lock_bounding_range,
  escalate_if_needed, record_lock_acquired, Outcome, done, blocked, Others, put_entry, after_wait,
  wait_for_key, or_new, lock_entry, lock_key,
}

pub record IsSound (table : LockTable) : Type 0 where
  pub compatible :
      (key : Bytes) (entry : LockEntry)
      → Map.get key table.key_locks ≡ some entry
      → IsCompatible entry
  pub searchable : IsSearchable table.range_locks

-- The parts of the table that the property reads.
pub same-IsSound :
    (t u : LockTable)
    → u.key_locks ≡ t.key_locks
    → u.range_locks ≡ t.range_locks
    → IsSound t
    → IsSound u
same-IsSound t u k r s = record {
  compatible = λ key entry g. s.compatible key entry (rw k at g);
  searchable = rw r s.searchable;
}

lock_range-key_locks :
    (table : LockTable) (txn_id : ℕ) (start end : Bound) (mode : LockMode)
    → (lock_range table txn_id start end mode).0.key_locks ≡ table.key_locks
unfolding lock_range
lock_range-key_locks table txn_id start end mode = ground arith

lock_range-IsSearchable :
    (table : LockTable) (txn_id : ℕ) (start end : Bound) (mode : LockMode)
    → IsSearchable table.range_locks
    → IsSearchable (lock_range table txn_id start end mode).0.range_locks
unfolding lock_range
lock_range-IsSearchable table txn_id start end mode s =
    elim (Bool-cases (not table.config.enable_range_locks)) [
      | inl off ↦ rw off s
      | inr on ↦
          elim (Bool-cases
            (any_range_clashes txn_id mode (find_overlapping table.range_locks start end))) [
              | inl clash ↦ rw (on, clash) s
              | inr free ↦
                  elim (Bool-cases (any (key_clashes txn_id mode start end) table.key_locks)) [
                    | inl clash ↦ rw (on, free, clash) s
                    | inr clear ↦ rw (on, free, clear) (insert-IsSearchable table.range_locks _ s)
                  ]
            ]
    ]

pub lock_range-IsSound :
    (table : LockTable) (txn_id : ℕ) (start end : Bound) (mode : LockMode)
    → IsSound table
    → IsSound (lock_range table txn_id start end mode).0
lock_range-IsSound table txn_id start end mode s = record {
  compatible = λ key entry g.
      s.compatible key entry (rw (lock_range-key_locks table txn_id start end mode) at g);
  searchable = lock_range-IsSearchable table txn_id start end mode s.searchable;
}

lock_bounding_range-IsSound :
    (o : Option (Bound × Bound)) (table : LockTable) (txn_id : ℕ)
    → IsSound table
    → IsSound (lock_bounding_range o table txn_id)
lock_bounding_range-IsSound none table txn_id s = s
lock_bounding_range-IsSound (some (start, end)) table txn_id s =
    lock_range-IsSound table txn_id start end LockMode.x s

escalate_if_needed-IsSound :
    (o : Option EscalationState) (table : LockTable) (txn_id : ℕ) (key : Bytes)
    → IsSound table
    → IsSound (escalate_if_needed o table txn_id key)
unfolding escalate_if_needed
escalate_if_needed-IsSound none table txn_id key s = s
escalate_if_needed-IsSound (some state) table txn_id key s =
    elim (Bool-cases
      (Escalation.handle_escalation_action
        (Escalation.check_escalation
          (Escalation.get_lock_count (Escalation.record_key_lock state key))
          table.config.escalation)
        (Escalation.record_key_lock state key)).1) [
          | inl must ↦
              rw must (lock_bounding_range-IsSound _ _ txn_id (same-IsSound table _ refl refl s))
          | inr must_not ↦ rw must_not (same-IsSound table _ refl refl s)
        ]

record_lock_acquired-IsSound :
    (table : LockTable) (txn_id : ℕ) (key : Bytes)
    → IsSound table
    → IsSound (record_lock_acquired table txn_id key)
unfolding record_lock_acquired
record_lock_acquired-IsSound table txn_id key s =
    same-IsSound (escalate_if_needed (Map.get txn_id table.escalation_state) table txn_id key) _
      refl refl
      (escalate_if_needed-IsSound (Map.get txn_id table.escalation_state) table txn_id key s)

pub put_entry-IsSound :
    (table : LockTable) (key : Bytes) (entry : LockEntry)
    → IsCompatible entry
    → IsSound table
    → IsSound (put_entry table key entry)
put_entry-IsSound table key entry c s = record {
  compatible = λ j e g.
      put_cases j e (rw (Map.get-insert key j entry table.key_locks) at g) (Bool-cases (key == j));
  searchable = s.searchable;
}
  where
    put_cases :
        (j : Bytes) (e : LockEntry)
        → (if key == j then some entry else Map.get j table.key_locks) ≡ some e
        → ((key == j) ≡ true) ⊎ ((key == j) ≡ false)
        → IsCompatible e
    put_cases j e g (inl same) =
        let g' : some entry ≡ some e = rw same at g in let q : entry ≡ e = cc in rw (sym q) c
    put_cases j e g (inr other) = s.compatible j e (rw other at g)

-- The table that a call leaves, whether it has returned or still waits.
abbrev pub table_after : Outcome → LockTable
table_after (done r table) = table
table_after (blocked table) = table

-- What the other threads do keeps the table sound.
abbrev pub Fair : Others → Type 0
Fair o =
    Keeps o.before
    × Keeps o.between
    × Keeps o.meanwhile
    × All (λ (w : Wake). Keeps w.others) o.wakes
    × ((t : LockTable) → IsSound t → IsSound (o.elsewhere t))

after_wait-IsSound :
    (p : Progress) (table : LockTable) (txn_id : ℕ) (key : Bytes) (holders : Map ℕ LockMode)
    → IsCompatible (after p)
    → IsSound table
    → IsSound (table_after (after_wait p table txn_id key holders))
unfolding after_wait
after_wait-IsSound (returned (ok u) entry) table txn_id key holders c s =
    record_lock_acquired-IsSound _ txn_id key
      (same-IsSound (put_entry table key entry) _ refl refl (put_entry-IsSound table key entry c s))
after_wait-IsSound (returned (err e) entry) table txn_id key holders c s =
    same-IsSound (put_entry table key entry) _ refl refl (put_entry-IsSound table key entry c s)
after_wait-IsSound (waiting entry) table txn_id key holders c s =
    put_entry-IsSound table key entry c s

wait_for_key-IsSound :
    (table : LockTable) (entry : LockEntry) (txn_id : ℕ) (key : Bytes) (mode : LockMode)
    (deadline : Bool) (others : Others)
    → Fair others
    → IsCompatible entry
    → IsSound table
    → IsSound (table_after (wait_for_key table entry txn_id key mode deadline others))
unfolding wait_for_key
wait_for_key-IsSound table entry txn_id key mode deadline others (kb, kt, km, kw, ke) c s =
    let read = kb entry c in
    after_wait-IsSound _ _ txn_id key _
      (acquire-IsCompatible _ txn_id mode deadline others.meanwhile others.wakes km kw (kt _ read))
      (ke _ (same-IsSound table _ refl refl s))

lock_entry-IsSound :
    (table : LockTable) (entry : LockEntry) (txn_id : ℕ) (key : Bytes) (mode : LockMode)
    (deadline : Bool) (others : Others)
    → Fair others
    → IsCompatible entry
    → IsSound table
    → IsSound (table_after (lock_entry table entry txn_id key mode deadline others))
unfolding lock_entry
lock_entry-IsSound table entry txn_id key mode deadline others fair c s =
    let first = try_acquire-IsCompatible entry txn_id mode c in
    let put = put_entry-IsSound table key (try_acquire entry txn_id mode).0 first s in
    elim (Bool-cases (try_acquire entry txn_id mode).1) [
      | inl granted ↦ rw granted (record_lock_acquired-IsSound _ txn_id key put)
      | inr refused ↦
          rw refused (wait_for_key-IsSound _ _ txn_id key mode deadline others fair first put)
    ]

or_new-IsCompatible :
    (table : LockTable) (key : Bytes)
    → IsSound table
    → IsCompatible (or_new (Map.get key table.key_locks) key)
unfolding Map.get
or_new-IsCompatible table key s = elim (Option-cases (Map.get key table.key_locks)) [
  | inl absent ↦ rw absent (record { apart = λ i j a b ne gi gj. cc })
  | inr (entry, found) ↦ rw found (s.compatible key entry found)
]

pub lock_key-IsSound :
    (table : LockTable) (txn_id : ℕ) (key : Bytes) (mode : LockMode) (deadline : Bool)
    (others : Others)
    → Fair others
    → IsSound table
    → IsSound (table_after (lock_key table txn_id key mode deadline others))
unfolding lock_key
lock_key-IsSound table txn_id key mode deadline others fair s =
    elim (Bool-cases (check_range_conflict table txn_id key mode)) [
      | inl clash ↦ rw clash s
      | inr free ↦ rw free (
          lock_entry-IsSound table _ txn_id key mode deadline others fair
            (or_new-IsCompatible table key s) s)
    ]
