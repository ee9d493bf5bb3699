-- ===== src/Lock/Range/Order.antt =====
-- What the bounds of range_lock.rs say of a lock that the search passes over.
use crabstash.Base.{
  ◌≡◌, refl, Bytes, bytes_le, bytes_le_trans, bytes_cmp-reverse, bytes_le_of_lt,
  bytes_lt_of_le_of_lt, bytes_lt_of_lt_of_le, Bound, included, excluded, unbounded, key_in_range,
  true, false, not, ◌&&◌, arith,
}
use crabstash.Lock.Range.{
  RangeLockEntry, contains_key, is_before, is_after, overlaps, unbounded_end, bound_to_bytes,
  compare_starts, is_less, bound_less_than, bound_greater_than,
}

-- The largest end below the node lies before the range, so a lock below the node does.
max_end-is_before :
    (max_end : Bytes) (end start : Bound)
    → bytes_le (bound_to_bytes end) max_end ≡ true
    → bound_less_than unbounded_end start ≡ false
    → bound_less_than max_end start ≡ true
    → is_before end start ≡ true
unfolding bound_to_bytes bound_less_than is_before
max_end-is_before m (included b) (included s) h u k = bytes_lt_of_le_of_lt b m s h k
max_end-is_before m (included b) (excluded s) h u k = bytes_le_trans b m s h k
max_end-is_before m (included b) unbounded h u k = cc
max_end-is_before m (excluded b) (included s) h u k = bytes_le_trans b m s h (bytes_le_of_lt m s k)
max_end-is_before m (excluded b) (excluded s) h u k = bytes_le_trans b m s h k
max_end-is_before m (excluded b) unbounded h u k = cc
max_end-is_before m unbounded (included s) h u k =
    let far = bytes_lt_of_le_of_lt unbounded_end m s h k in cc
max_end-is_before m unbounded (excluded s) h u k =
    let far = bytes_le_trans unbounded_end m s h k in cc
max_end-is_before m unbounded unbounded h u k = cc

-- The node starts behind the range, so a lock that does not start before the node does.
start-is_after :
    (start first end : Bound)
    → is_less (compare_starts start first) ≡ false
    → bound_greater_than first end ≡ true
    → is_after start end ≡ true
unfolding compare_starts bound_greater_than is_after
start-is_after start unbounded end h k = cc
start-is_after start (included f) unbounded h k = cc
start-is_after start (excluded f) unbounded h k = cc
start-is_after unbounded (included f) (included e) h k = cc
start-is_after unbounded (included f) (excluded e) h k = cc
start-is_after unbounded (excluded f) (included e) h k = cc
start-is_after unbounded (excluded f) (excluded e) h k = cc
start-is_after (included s) (included f) (included e) h k =
    bytes_lt_of_lt_of_le e f s k (ground (arith, bytes_cmp-reverse s f))
start-is_after (included s) (included f) (excluded e) h k =
    bytes_le_trans e f s k (ground (arith, bytes_cmp-reverse s f))
start-is_after (included s) (excluded f) (included e) h k =
    bytes_lt_of_lt_of_le e f s k (ground (arith, bytes_cmp-reverse s f))
start-is_after (included s) (excluded f) (excluded e) h k =
    bytes_le_trans e f s k (ground (arith, bytes_cmp-reverse s f))
start-is_after (excluded s) (included f) (included e) h k =
    bytes_le_of_lt e s (bytes_lt_of_lt_of_le e f s k (ground (arith, bytes_cmp-reverse s f)))
start-is_after (excluded s) (included f) (excluded e) h k =
    bytes_le_trans e f s k (ground (arith, bytes_cmp-reverse s f))
start-is_after (excluded s) (excluded f) (included e) h k =
    bytes_le_of_lt e s (bytes_lt_of_lt_of_le e f s k (ground (arith, bytes_cmp-reverse s f)))
start-is_after (excluded s) (excluded f) (excluded e) h k =
    bytes_le_trans e f s k (ground (arith, bytes_cmp-reverse s f))

pub max_end-overlaps :
    (entry : RangeLockEntry) (max_end : Bytes) (start end : Bound)
    → bytes_le (bound_to_bytes entry.end) max_end ≡ true
    → bound_less_than unbounded_end start ≡ false
    → bound_less_than max_end start ≡ true
    → overlaps entry start end ≡ false
unfolding overlaps
max_end-overlaps entry m start end h u k =
    let b = max_end-is_before m entry.end start h u k in ground arith

pub start-overlaps :
    (entry : RangeLockEntry) (first start end : Bound)
    → is_less (compare_starts entry.start first) ≡ false
    → bound_greater_than first end ≡ true
    → overlaps entry start end ≡ false
unfolding overlaps
start-overlaps entry first start end h k =
    let a = start-is_after entry.start first end h k in ground arith

-- A lock overlaps the range of one key exactly when it contains the key.
pub overlaps-contains_key :
    (entry : RangeLockEntry) (key : Bytes)
    → overlaps entry (included key) (included key) ≡ contains_key entry key
unfolding contains_key key_in_range overlaps is_before is_after
overlaps-contains_key entry key = sides entry.start entry.end
  where
    sides :
        (start end : Bound)
        → (not (is_before end (included key)) && not (is_after start (included key)))
          ≡ key_in_range key start end
    sides (included s) (included e) =
        ground (arith, bytes_cmp-reverse s key, bytes_cmp-reverse e key)
    sides (included s) (excluded e) =
        ground (arith, bytes_cmp-reverse s key, bytes_cmp-reverse e key)
    sides (included s) unbounded = ground (arith, bytes_cmp-reverse s key)
    sides (excluded s) (included e) =
        ground (arith, bytes_cmp-reverse s key, bytes_cmp-reverse e key)
    sides (excluded s) (excluded e) =
        ground (arith, bytes_cmp-reverse s key, bytes_cmp-reverse e key)
    sides (excluded s) unbounded = ground (arith, bytes_cmp-reverse s key)
    sides unbounded (included e) = ground (arith, bytes_cmp-reverse e key)
    sides unbounded (excluded e) = ground (arith, bytes_cmp-reverse e key)
    sides unbounded unbounded = refl
