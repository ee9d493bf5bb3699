-- ===== src/Storage/Iterator.antt =====
-- crabstash-storage/src/iterator.rs: iterators over versions of keys, and those that are built from
-- others. The trait is a record of its operations; an operation that panics on an iterator that is not
-- valid is never called there.
pub mod Denotes
pub mod Snapshots
use crabstash.Base.{
  nat_eq, bytes_eq, ℕ, zero, suc, Bytes, Bound, before_end, Bool, true, false, not, ◌&&◌, ◌||◌,
  Option, none, some, ◌==◌, leb, if◌then◌else◌,
}
use crabstash.Common.Error.{Result, ok, err}
use crabstash.Common.Key.{Key}

-- `trait StorageIterator`
pub record StorageIterator (I : Type 0) : Type 0 where
  pub key : I → Key
  pub value : I → Option Bytes
  pub is_valid : I → Bool
  pub next : I → I × Result (Unit {0})

-- `?` behind a step of an inner iterator.
abbrev pub and_then :
    {A B : Type 0}
    → A × Result (Unit {0})
    → (A → B)
    → (A → B × Result (Unit {0}))
    → B × Result (Unit {0})
and_then (a, ok u) failed go_on = go_on a
and_then (a, err e) failed go_on = (failed a, err e)

pub record TwoMergeIterator (A B : Type 0) : Type 0 where
  pub a : A
  pub b : B
  pub use_a : Bool

module _ {A B : Type 0} (le : Key → Key → Bool) (ia : StorageIterator A)
    (ib : StorageIterator B) where
  unfoldable pub choose_a : A → B → Bool
  choose_a a b =
      if not (ia.is_valid a)
      then false
      else if not (ib.is_valid b)
      then true
      else le (ia.key a) (ib.key b)

  abbrev pub new_two_merge : A → B → TwoMergeIterator A B
  new_two_merge a b = record { a = a; b = b; use_a = choose_a a b }

  abbrev pub rechoose : A → B → TwoMergeIterator A B × Result (Unit {0})
  rechoose a b = (new_two_merge a b, ok tt)

  -- The other iterator's version of the same key is skipped.
  abbrev pub skip_same : A → B → B × Result (Unit {0})
  skip_same a b =
      if ib.is_valid b && (ia.key a).bytes == (ib.key b).bytes then ib.next b else (b, ok tt)

  unfoldable pub two_merge_next : TwoMergeIterator A B → TwoMergeIterator A B × Result (Unit {0})
  two_merge_next t =
      if t.use_a
      then and_then (skip_same t.a t.b) (λ b. record t { b = b })
          (λ b. and_then (ia.next t.a) (λ a. record t { a = a; b = b }) (λ a. rechoose a b))
      else and_then (ib.next t.b) (λ b. record t { b = b }) (λ b. rechoose t.a b)

  unfoldable pub two_merge_iterator : StorageIterator (TwoMergeIterator A B)
  unfolding two_merge_next
  two_merge_iterator = record {
    key = λ t. if t.use_a then ia.key t.a else ib.key t.b;
    value = λ t. if t.use_a then ia.value t.a else ib.value t.b;
    is_valid = λ t. ia.is_valid t.a || ib.is_valid t.b;
    next = two_merge_next;
  }

pub record BoundedIterator (I : Type 0) : Type 0 where
  pub inner : I
  pub end_bound : Bound
  pub valid : Bool

pub record SnapshotIterator (I : Type 0) : Type 0 where
  pub inner : I
  pub snapshot_ts : ℕ
  pub last_key : Option Bytes

abbrev pub is_some_and_eq : Option Bytes → Bytes → Bool
is_some_and_eq none d = false
is_some_and_eq (some k) d = k == d

module _ {I : Type 0} (it : StorageIterator I) where
  unfoldable pub check_bound : BoundedIterator I → BoundedIterator I
  check_bound b =
      if not (it.is_valid b.inner)
      then record b { valid = false }
      else record b { valid = before_end (it.key b.inner).bytes b.end_bound }

  unfoldable pub new_bounded : I → Bound → BoundedIterator I
  unfolding check_bound
  new_bounded inner end_bound =
      check_bound (record { inner = inner; end_bound = end_bound; valid = true })

  unfoldable pub bounded_next : BoundedIterator I → BoundedIterator I × Result (Unit {0})
  unfolding check_bound
  bounded_next b =
      and_then (it.next b.inner) (λ i. record b { inner = i })
        (λ i. (check_bound (record b { inner = i }), ok tt))

  unfoldable pub bounded_iterator : StorageIterator (BoundedIterator I)
  unfolding bounded_next
  bounded_iterator = record {
    key = λ b. it.key b.inner;
    value = λ b. it.value b.inner;
    is_valid = λ b. b.valid && it.is_valid b.inner;
    next = bounded_next;
  }

  -- A failure of the inner iterator is dropped, and the loop goes on. The fuel is one more than the
  -- versions that are left.
  unfoldable pub advance_to_visible : ℕ → SnapshotIterator I → SnapshotIterator I
  advance_to_visible zero s = s
  advance_to_visible (suc fuel) s =
      let dominated = is_some_and_eq s.last_key (it.key s.inner).bytes in
      let last_key = if dominated then s.last_key else some (it.key s.inner).bytes in
      let rest =
        advance_to_visible fuel (record s { inner = (it.next s.inner).0; last_key = last_key }) in
      if not (it.is_valid s.inner)
      then s
      else if not dominated && leb (it.key s.inner).timestamp s.snapshot_ts
      then s
      else rest

  module _ (fuel : ℕ) where
    unfoldable pub new_snapshot : I → ℕ → SnapshotIterator I
    unfolding advance_to_visible
    new_snapshot inner snapshot_ts =
        advance_to_visible fuel
          (record { inner = inner; snapshot_ts = snapshot_ts; last_key = none })

    unfoldable pub snapshot_next : SnapshotIterator I → SnapshotIterator I × Result (Unit {0})
    unfolding advance_to_visible
    snapshot_next s =
        let s' = record s { last_key = some (it.key s.inner).bytes } in
        and_then (it.next s.inner) (λ i. record s' { inner = i })
          (λ i. (advance_to_visible fuel (record s' { inner = i }), ok tt))

    unfoldable pub snapshot_iterator : StorageIterator (SnapshotIterator I)
    unfolding snapshot_next
    snapshot_iterator = record {
      key = λ s. it.key s.inner;
      value = λ s. it.value s.inner;
      is_valid = λ s. it.is_valid s.inner;
      next = snapshot_next;
    }
