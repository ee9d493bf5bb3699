-- ===== src/Lock/Ssi/Bloom.antt =====
-- crabstash-lock/src/ssi.rs: `BloomFilter`, the filter of the hashes that were written.
use crabstash.Base.{
  ℕ, ◌+◌, ◌/◌, ◌%◌, ◌^◌, ◌≡◌, refl, ◌∙◌, inl, inr, Bool, true, List, [], ◌∷◌, all, length, map,
  arith, In,
}
use crabstash.Base.BitSet.{
  test_bit, set_bits, length-set_bits, InBounds, all-test_bit-set_bits, all-test_bit_mono,
}

abbrev pub bloom_size_bits : ℕ
bloom_size_bits = 8192

pub record BloomFilter : Type 0 where
  pub bits : List ℕ

zeros : ℕ → List ℕ
zeros ℕ.zero = []
zeros (ℕ.suc n) = 0 ∷ zeros n

-- 8192 bits are 128 words.
unfoldable pub new : BloomFilter
unfolding zeros
new = record { bits = zeros 128 }

-- The sums wrap at the width of a word.
unfoldable pub get_bit_indices : ℕ → List ℕ
get_bit_indices hash =
    let h1 = hash in
    let h2 = hash / 2 ^ 16 in
    let h3 = hash / 2 ^ 32 in
    (h1 % bloom_size_bits)
    ∷ ((h1 + h2) % 2 ^ 64 % bloom_size_bits)
    ∷ (((h1 + h2) % 2 ^ 64 + h3) % 2 ^ 64 % bloom_size_bits)
    ∷ []

unfoldable pub insert : BloomFilter → ℕ → BloomFilter
unfolding set_bits
insert filter hash = record { bits = set_bits 64 filter.bits (get_bit_indices hash) }

unfoldable pub may_contain : BloomFilter → ℕ → Bool
unfolding test_bit
may_contain filter hash = all (λ idx. test_bit 64 filter.bits idx) (get_bit_indices hash)

unfoldable pub clear : BloomFilter → BloomFilter
clear filter = record { bits = map (λ _. 0) filter.bits }

-- The filter has its 128 words.
abbrev pub HasSize : BloomFilter → Type 0
HasSize filter = length filter.bits ≡ 128

pub new-HasSize : HasSize new
unfolding new
new-HasSize = refl

indices-InBounds :
    (filter : BloomFilter) (hash : ℕ)
    → HasSize filter
    → InBounds 64 filter.bits (get_bit_indices hash)
unfolding get_bit_indices
indices-InBounds filter hash h = omega arith

insert-HasSize : (filter : BloomFilter) (hash : ℕ) → HasSize filter → HasSize (insert filter hash)
unfolding insert
insert-HasSize filter hash h = length-set_bits 64 filter.bits (get_bit_indices hash) ∙ h

may_contain-insert_self :
    (filter : BloomFilter) (hash : ℕ)
    → HasSize filter
    → may_contain (insert filter hash) hash ≡ true
unfolding may_contain insert
may_contain-insert_self filter hash h =
    all-test_bit-set_bits 64 filter.bits (get_bit_indices hash) (indices-InBounds filter hash h)

may_contain-insert_mono :
    (filter : BloomFilter) (hash other : ℕ)
    → HasSize filter
    → may_contain filter other ≡ true
    → may_contain (insert filter hash) other ≡ true
unfolding may_contain insert
may_contain-insert_mono filter hash other h t =
    all-test_bit_mono 64 filter.bits (get_bit_indices hash) (get_bit_indices other)
      (indices-InBounds filter hash h) t

abbrev pub insert_all : BloomFilter → List ℕ → BloomFilter
insert_all filter [] = filter
insert_all filter (hash ∷ hashes) = insert_all (insert filter hash) hashes

insert_all_mono :
    (filter : BloomFilter) (hashes : List ℕ) (other : ℕ)
    → HasSize filter
    → may_contain filter other ≡ true
    → may_contain (insert_all filter hashes) other ≡ true
insert_all_mono filter [] other h t = t
insert_all_mono filter (hash ∷ hashes) other h t =
    insert_all_mono (insert filter hash) hashes other (insert-HasSize filter hash h)
      (may_contain-insert_mono filter hash other h t)

-- A filter of 128 words never denies a hash that was inserted into it, whatever was inserted before
-- and after.
pub may_contain-insert_all :
    (filter : BloomFilter) (hashes : List ℕ) (hash : ℕ)
    → HasSize filter
    → In hash hashes
    → may_contain (insert_all filter hashes) hash ≡ true
may_contain-insert_all filter [] hash h m = absurd m
may_contain-insert_all filter (k ∷ hashes) hash h (inl e) =
    insert_all_mono (insert filter k) hashes hash (insert-HasSize filter k h)
      (rw e (may_contain-insert_self filter k h))
may_contain-insert_all filter (k ∷ hashes) hash h (inr m) =
    may_contain-insert_all (insert filter k) hashes hash (insert-HasSize filter k h) m
