-- ===== src/Lock/Escalation/Range.antt =====
-- The range that replaces a transaction's key locks covers every key that it has locked.
use crabstash.Base.{
  ◌≡◌, inl, inr, refl, Bytes, bytes_lt, bytes_le, bytes_le_trans, bytes_cmp_refl, bytes_cmp-reverse,
  Bound, included, key_in_range, Bool, true, false, some, List, [], ◌∷◌, arith, In, Bool-cases,
  if◌then◌else◌,
}
use crabstash.Lock.Escalation.{
  EscalationState, min_key, max_key, bounding_range, compute_bounding_range,
}

min_key-le_start : (k : Bytes) (keys : List Bytes) → bytes_le (min_key k keys) k ≡ true
unfolding min_key
min_key-le_start k [] = ground (arith, bytes_cmp_refl k)
min_key-le_start k (j ∷ keys) = elim (Bool-cases (bytes_lt j k)) [
  | inl lt ↦ rw lt (bytes_le_trans (min_key j keys) j k (min_key-le_start j keys) (ground arith))
  | inr ge ↦ rw ge (min_key-le_start k keys)
]

min_key-le :
    (k : Bytes) (keys : List Bytes) (a : Bytes) → In a keys → bytes_le (min_key k keys) a ≡ true
unfolding min_key
min_key-le k [] a m = absurd m
min_key-le k (j ∷ keys) a (inl e) = rw e (elim (Bool-cases (bytes_lt j k)) [
  | inl lt ↦ rw lt (min_key-le_start j keys)
  | inr ge ↦ rw ge (
      bytes_le_trans (min_key k keys) k j (min_key-le_start k keys)
        (ground (arith, bytes_cmp-reverse j k)))
])
min_key-le k (j ∷ keys) a (inr m) = min_key-le (if bytes_lt j k then j else k) keys a m

le_start-max_key : (k : Bytes) (keys : List Bytes) → bytes_le k (max_key k keys) ≡ true
unfolding max_key
le_start-max_key k [] = ground (arith, bytes_cmp_refl k)
le_start-max_key k (j ∷ keys) = elim (Bool-cases (bytes_le k j)) [
  | inl le ↦ rw le (bytes_le_trans k j (max_key j keys) le (le_start-max_key j keys))
  | inr gt ↦ rw gt (le_start-max_key k keys)
]

le-max_key :
    (k : Bytes) (keys : List Bytes) (a : Bytes) → In a keys → bytes_le a (max_key k keys) ≡ true
unfolding max_key
le-max_key k [] a m = absurd m
le-max_key k (j ∷ keys) a (inl e) = rw e (elim (Bool-cases (bytes_le k j)) [
  | inl le ↦ rw le (le_start-max_key j keys)
  | inr gt ↦ rw gt (
      bytes_le_trans j k (max_key k keys) (ground (arith, bytes_cmp-reverse k j))
        (le_start-max_key k keys))
])
le-max_key k (j ∷ keys) a (inr m) = le-max_key (if bytes_le k j then j else k) keys a m

bounding_range-covers :
    (keys : List Bytes) (a : Bytes)
    → In a keys
    → (r : Bound × Bound) × (bounding_range keys ≡ some r) × (key_in_range a r.0 r.1 ≡ true)
unfolding bounding_range key_in_range
bounding_range-covers [] a m = absurd m
bounding_range-covers (k ∷ keys) a m =
    ((included (min_key k keys), included (max_key k keys)), refl, inside m)
  where
    inside :
        In a (k ∷ keys)
        → key_in_range a (included (min_key k keys)) (included (max_key k keys)) ≡ true
    inside (inl e) = rw e (rw (min_key-le_start k keys, le_start-max_key k keys))
    inside (inr i) = rw (min_key-le k keys a i, le-max_key k keys a i)

choice-In :
    {a : Bytes} (b : Bool) (j k : Bytes) (keys : List Bytes)
    → In a ((if b then j else k) ∷ keys)
    → In a (k ∷ j ∷ keys)
choice-In true j k keys m = inr m
choice-In false j k keys (inl e) = inl e
choice-In false j k keys (inr i) = inr (inr i)

min_key-In : (k : Bytes) (keys : List Bytes) → In (min_key k keys) (k ∷ keys)
unfolding min_key
min_key-In k [] = inl refl
min_key-In k (j ∷ keys) =
    choice-In (bytes_lt j k) j k keys (min_key-In (if bytes_lt j k then j else k) keys)

max_key-In : (k : Bytes) (keys : List Bytes) → In (max_key k keys) (k ∷ keys)
unfolding max_key
max_key-In k [] = inl refl
max_key-In k (j ∷ keys) =
    choice-In (bytes_le k j) j k keys (max_key-In (if bytes_le k j then j else k) keys)

bounding_range-tight :
    (keys : List Bytes) (r : Bound × Bound)
    → bounding_range keys ≡ some r
    → (lo : Bytes) × (hi : Bytes) × (r ≡ (included lo, included hi)) × In lo keys × In hi keys
unfolding bounding_range
bounding_range-tight [] r h = absurd (ground arith)
bounding_range-tight (k ∷ keys) r h =
    (min_key k keys, max_key k keys, ground arith, min_key-In k keys, max_key-In k keys)

-- A transaction that has locked a key has a bounding range; every key that it locked lies in it,
-- and both ends are keys that it locked.
pub compute_bounding_range-covers :
    (state : EscalationState) (a : Bytes)
    → In a state.locked_keys
    → (lo : Bytes) × (hi : Bytes) × (compute_bounding_range state ≡ some (included lo, included hi))
      × (key_in_range a (included lo) (included hi) ≡ true)
      × In lo state.locked_keys
      × In hi state.locked_keys
unfolding compute_bounding_range
compute_bounding_range-covers state a m =
    let (r, found, inside) = bounding_range-covers state.locked_keys a m in
    let (lo, hi, e, l, h) = bounding_range-tight state.locked_keys r found in
    (lo, hi, ground arith, rw e at inside, l, h)
