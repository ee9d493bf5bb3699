-- ===== src/Storage/Bloom.antt =====
-- crabstash-storage/src/bloom.rs: the filter of the keys of a table. The size for a rate of false
-- positives is computed with logarithms of floating-point numbers: the bits for each key and the number
-- of hashes are arguments. A filter from outside without bytes, whose use divides by 0, is left out.
use crabstash.Base.{
  if◌then◌else◌, ℕ, ◌+◌, ◌*◌, ◌/◌, ◌%◌, ◌^◌, ◌<◌, ◌≡◌, refl, inl, inr, Bool, true, List, [], ◌∷◌,
  all, length, Bytes, arith, In, ltb,
}
use crabstash.Base.BitSet.{
  test_bit, set_bits, length-set_bits, InBounds, all-test_bit-set_bits, all-test_bit_mono,
}
use Prim.Native.Nat.{bit_xor}
use native.Mathlib.Nat.{mod-lt}

abbrev pub seed : ℕ
seed = 3164544308

pub record BloomFilter : Type 0 where
  pub bits : Bytes
  pub num_hashes : ℕ

unfoldable zeros : ℕ → Bytes
zeros ℕ.zero = []
zeros (ℕ.suc n) = 0 ∷ zeros n

-- `num_keys` times the bits for each key, and 64 at least.
unfoldable pub num_bits_for : ℕ → ℕ → ℕ
num_bits_for num_keys bits_per_key =
    let wanted = num_keys * bits_per_key % 2 ^ 64 in if ltb wanted 64 then 64 else wanted

unfoldable pub new : ℕ → ℕ → ℕ → BloomFilter
unfolding zeros num_bits_for
new num_keys bits_per_key num_hashes = record {
  bits = zeros ((num_bits_for num_keys bits_per_key + 7) / 8);
  num_hashes = num_hashes;
}

abbrev pub from_bytes : Bytes → ℕ → BloomFilter
from_bytes bytes num_hashes = record { bits = bytes; num_hashes = num_hashes }

-- One chunk of the hash, a word of four bytes with the lowest first.
unfoldable pub mix : ℕ → ℕ → ℕ → ℕ → ℕ → ℕ
mix h a b c d =
    let k = a + b * 2 ^ 8 + c * 2 ^ 16 + d * 2 ^ 24 in
    let product = bit_xor h k * 1540483477 % 2 ^ 32 in bit_xor product (product / 2 ^ 15)

-- The last chunk is filled up with zeros.
unfoldable pub hash_chunks : ℕ → Bytes → ℕ
unfolding mix
hash_chunks h [] = h
hash_chunks h (a ∷ []) = mix h a 0 0 0
hash_chunks h (a ∷ b ∷ []) = mix h a b 0 0
hash_chunks h (a ∷ b ∷ c ∷ []) = mix h a b c 0
hash_chunks h (a ∷ b ∷ c ∷ d ∷ chunks) = hash_chunks (mix h a b c d) chunks

unfoldable pub hash : Bytes → ℕ
unfolding hash_chunks
hash key = hash_chunks (bit_xor seed (length key % 2 ^ 32)) key

unfoldable pub rotate_left_15 : ℕ → ℕ
rotate_left_15 h = h * 2 ^ 15 % 2 ^ 32 + h / 2 ^ 17

-- The places of the rounds that are left, the first one at `h`.
unfoldable pub places : ℕ → ℕ → ℕ → ℕ → List ℕ
places num_bits delta ℕ.zero h = []
places num_bits delta (ℕ.suc n) h = (h % num_bits) ∷ places num_bits delta n ((h + delta) % 2 ^ 32)

unfoldable pub bit_places : BloomFilter → Bytes → List ℕ
unfolding places hash rotate_left_15
bit_places filter key =
    places (length filter.bits * 8) (rotate_left_15 (hash key)) filter.num_hashes (hash key)

unfoldable pub insert : BloomFilter → Bytes → BloomFilter
unfolding set_bits bit_places
insert filter key = record filter { bits = set_bits 8 filter.bits (bit_places filter key) }

unfoldable pub may_contain : BloomFilter → Bytes → Bool
unfolding test_bit bit_places
may_contain filter key = all (λ idx. test_bit 8 filter.bits idx) (bit_places filter key)

abbrev pub insert_all : BloomFilter → List Bytes → BloomFilter
insert_all filter [] = filter
insert_all filter (key ∷ keys) = insert_all (insert filter key) keys

-- The filter has a byte.
abbrev pub HasBytes : BloomFilter → Type 0
HasBytes filter = 0 < length filter.bits

length-zeros : (n : ℕ) → length (zeros n) ≡ n
unfolding zeros
length-zeros ℕ.zero = refl
length-zeros (ℕ.suc n) = omega (arith, length-zeros n)

new-HasBytes :
    (num_keys bits_per_key num_hashes : ℕ) → HasBytes (new num_keys bits_per_key num_hashes)
unfolding new num_bits_for
new-HasBytes num_keys bits_per_key num_hashes =
    ground (arith, length-zeros ((num_bits_for num_keys bits_per_key + 7) / 8))

places-InBounds :
    (bits : Bytes) (delta n h : ℕ)
    → 0 < length bits
    → InBounds 8 bits (places (length bits * 8) delta n h)
unfolding places
places-InBounds bits delta ℕ.zero h p = tt
places-InBounds bits delta (ℕ.suc n) h p = (
  omega (arith, mod-lt h {m = length bits * 8} (omega arith)),
  places-InBounds bits delta n ((h + delta) % 2 ^ 32) p,
)

bit_places-InBounds :
    (filter : BloomFilter) (key : Bytes)
    → HasBytes filter
    → InBounds 8 filter.bits (bit_places filter key)
unfolding bit_places
bit_places-InBounds filter key h =
    places-InBounds filter.bits (rotate_left_15 (hash key)) filter.num_hashes (hash key) h

length-insert :
    (filter : BloomFilter) (key : Bytes) → length (insert filter key).bits ≡ length filter.bits
unfolding insert
length-insert filter key = length-set_bits 8 filter.bits (bit_places filter key)

insert-HasBytes :
    (filter : BloomFilter) (key : Bytes) → HasBytes filter → HasBytes (insert filter key)
insert-HasBytes filter key h = omega (arith, length-insert filter key)

-- The places of a key depend on the size of the filter alone.
bit_places-insert :
    (filter : BloomFilter) (key other : Bytes)
    → bit_places (insert filter key) other ≡ bit_places filter other
unfolding bit_places insert
bit_places-insert filter key other = rw (length-insert filter key) refl

may_contain-insert_self :
    (filter : BloomFilter) (key : Bytes)
    → HasBytes filter
    → may_contain (insert filter key) key ≡ true
unfolding may_contain insert
may_contain-insert_self filter key h =
    rw (bit_places-insert filter key key) (
      all-test_bit-set_bits 8 filter.bits (bit_places filter key)
        (bit_places-InBounds filter key h))

may_contain-insert_mono :
    (filter : BloomFilter) (key other : Bytes)
    → HasBytes filter
    → may_contain filter other ≡ true
    → may_contain (insert filter key) other ≡ true
unfolding may_contain insert
may_contain-insert_mono filter key other h t = rw (bit_places-insert filter key other) (
    all-test_bit_mono 8 filter.bits (bit_places filter key) (bit_places filter other)
      (bit_places-InBounds filter key h) t)

insert_all_mono :
    (filter : BloomFilter) (keys : List Bytes) (other : Bytes)
    → HasBytes filter
    → may_contain filter other ≡ true
    → may_contain (insert_all filter keys) other ≡ true
insert_all_mono filter [] other h t = t
insert_all_mono filter (key ∷ keys) other h t =
    insert_all_mono (insert filter key) keys other (insert-HasBytes filter key h)
      (may_contain-insert_mono filter key other h t)

may_contain-insert_all :
    (filter : BloomFilter) (keys : List Bytes) (key : Bytes)
    → HasBytes filter
    → In key keys
    → may_contain (insert_all filter keys) key ≡ true
may_contain-insert_all filter [] key h m = absurd m
may_contain-insert_all filter (k ∷ keys) key h (inl e) =
    insert_all_mono (insert filter k) keys key (insert-HasBytes filter k h)
      (rw e (may_contain-insert_self filter k h))
may_contain-insert_all filter (k ∷ keys) key h (inr m) =
    may_contain-insert_all (insert filter k) keys key (insert-HasBytes filter k h) m

-- A filter that is made for any number of keys, with any number of hashes, filled, and built again
-- from its bytes and its number of hashes, never denies a key that was inserted.
pub may_contain-from_bytes :
    (num_keys bits_per_key num_hashes : ℕ) (keys : List Bytes) (key : Bytes)
    → In key keys
    → may_contain
        (from_bytes
          (insert_all (new num_keys bits_per_key num_hashes) keys).bits
          (insert_all (new num_keys bits_per_key num_hashes) keys).num_hashes)
        key
      ≡ true
may_contain-from_bytes num_keys bits_per_key num_hashes keys key m =
    may_contain-insert_all (new num_keys bits_per_key num_hashes) keys key
      (new-HasBytes num_keys bits_per_key num_hashes) m
