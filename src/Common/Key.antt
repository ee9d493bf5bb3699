-- ===== src/Common/Key.antt =====
-- crabstash-common/src/key.rs: a key with the time of a version, and the order of versions.
use crabstash.Base.{
  ℕ, Bytes, ◌≡◌, ◌↔◌, refl, bytes_cmp, bytes_cmp_refl, bytes_cmp-eq, bytes_cmp-reverse,
  reverse_ordering, compare, Ordering, length, arith,
}
use crabstash.Common.Simd.{compare_bytes, mask_of, compare_bytes-bytes_cmp}

pub record Key : Type 0 where
  pub bytes : Bytes
  pub timestamp : ℕ

-- The newer version of the same data comes first.
abbrev pub newest_first : Ordering → ℕ → ℕ → Ordering
newest_first Ordering.lt t u = Ordering.lt
newest_first Ordering.eq t u = compare u t
newest_first Ordering.gt t u = Ordering.gt

unfoldable pub cmp : (Bytes → Bytes → ℕ) → Key → Key → Ordering
cmp eq_mask a b = newest_first (compare_bytes eq_mask a.bytes b.bytes) a.timestamp b.timestamp

newest_first-reverse :
    (o : Ordering) (t u : ℕ)
    → newest_first (reverse_ordering o) u t ≡ reverse_ordering (newest_first o t u)
newest_first-reverse Ordering.lt t u = refl
newest_first-reverse Ordering.eq t u = ground arith
newest_first-reverse Ordering.gt t u = refl

same-Key :
    (a b : Key) (o : Ordering)
    → bytes_cmp a.bytes b.bytes ≡ o
    → newest_first o a.timestamp b.timestamp ≡ Ordering.eq
    → a ≡ b
same-Key a b Ordering.lt p h = cc
same-Key a b Ordering.eq p h =
    let d = bytes_cmp-eq a.bytes b.bytes p in
    let t : a.timestamp ≡ b.timestamp = ground arith in λ i. record { bytes = d i; timestamp = t i }
same-Key a b Ordering.gt p h = cc

-- The order of versions decides equality, and comparing the other way round reverses it, if the mask
-- of two chunks of 16 bytes has a one exactly where the bytes agree.
pub cmp-eq_iff :
    (eq_mask : Bytes → Bytes → ℕ) (a b : Key)
    → ((x y : Bytes) → length x ≡ 16 → length y ≡ 16 → eq_mask x y ≡ mask_of x y)
    → ((cmp eq_mask a b ≡ Ordering.eq) ↔ (a ≡ b))
      × (cmp eq_mask b a ≡ reverse_ordering (cmp eq_mask a b))
unfolding cmp
cmp-eq_iff eq_mask a b chunks =
    let ab = compare_bytes-bytes_cmp eq_mask chunks a.bytes b.bytes in
    let ba = compare_bytes-bytes_cmp eq_mask chunks b.bytes a.bytes in
    rw (ab, ba, bytes_cmp-reverse a.bytes b.bytes)
      (
        (
          λ h. same-Key a b (bytes_cmp a.bytes b.bytes) refl h,
          λ e. rw (e, bytes_cmp_refl b.bytes) (ground arith),
        ),
        newest_first-reverse (bytes_cmp a.bytes b.bytes) a.timestamp b.timestamp,
      )
