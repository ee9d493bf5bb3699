-- ===== src/Base/BitSet.antt =====
-- Vectors of machine words of a given width, used as sets of bits.
use mathlib.Core.Path.{◌≡◌, refl}
use mathlib.Core.List.{List, [], ◌∷◌}
use mathlib.Core.Bool.{Bool, true, not}
use Prim.Native.Nat.{ℕ, ◌/◌, ◌%◌, ◌^◌, ◌<◌, bit_and, bit_or}
use native.Mathlib.Omega.{arith}
use native.Mathlib.Decide.{ℕ_discrete}
use crabstash.Base.Tests.{eqb}
use crabstash.Base.Lists.{length, get_or, set, all, All, length-set, get_or-set_self, get_or-set_ne}
use crabstash.Base.Bits.{bit_and-bit_or_self, bit_and-bit_or_mono}

module _ (width : ℕ) where
  -- `bits[idx / width] |= 1 << (idx % width)`
  unfoldable pub set_bit : List ℕ → ℕ → List ℕ
  set_bit bits idx =
      set bits (idx / width) (bit_or (get_or bits (idx / width) 0) (2 ^ (idx % width)))

  -- `bits[idx / width] & (1 << (idx % width)) != 0`
  unfoldable pub test_bit : List ℕ → ℕ → Bool
  test_bit bits idx = not (eqb (bit_and (get_or bits (idx / width) 0) (2 ^ (idx % width))) 0)

  unfoldable pub set_bits : List ℕ → List ℕ → List ℕ
  unfolding set_bit
  set_bits bits [] = bits
  set_bits bits (idx ∷ indices) = set_bits (set_bit bits idx) indices

  pub length-set_bit : (bits : List ℕ) (idx : ℕ) → length (set_bit bits idx) ≡ length bits
  unfolding set_bit
  length-set_bit bits idx = length-set bits (idx / width) _

  pub length-set_bits : (bits indices : List ℕ) → length (set_bits bits indices) ≡ length bits
  unfolding set_bits
  length-set_bits bits [] = refl
  length-set_bits bits (idx ∷ indices) =
      omega (arith, length-set_bits (set_bit bits idx) indices, length-set_bit bits idx)

  pub test_bit-set_bit_self :
      (bits : List ℕ) (idx : ℕ) → idx / width < length bits → test_bit (set_bit bits idx) idx ≡ true
  unfolding set_bit test_bit
  test_bit-set_bit_self bits idx h =
      rw (get_or-set_self bits (idx / width) _ 0 h)
        (ground (arith, bit_and-bit_or_self (idx % width) (get_or bits (idx / width) 0)))

  pub test_bit-set_bit_mono :
      (bits : List ℕ) (idx j : ℕ)
      → idx / width < length bits
      → test_bit bits j ≡ true
      → test_bit (set_bit bits idx) j ≡ true
  unfolding set_bit test_bit
  test_bit-set_bit_mono bits idx j h t = elim (ℕ_discrete (idx / width) (j / width)) [
    | yes same ↦
        rw (same, get_or-set_self bits (j / width) _ 0 (omega arith))
          (ground (
            arith,
            bit_and-bit_or_mono (j % width) (get_or bits (j / width) 0) (2 ^ (idx % width)),
          ))
    | no other ↦ rw (get_or-set_ne bits (idx / width) (j / width) _ 0 other) t
  ]

  -- The indices fall into the vector.
  abbrev pub InBounds : List ℕ → List ℕ → Type 0
  InBounds bits indices = All (λ idx. idx / width < length bits) indices

  pub InBounds-of_length :
      (bits bits' : List ℕ) (indices : List ℕ)
      → length bits ≡ length bits'
      → InBounds bits indices
      → InBounds bits' indices
  InBounds-of_length bits bits' [] e h = tt
  InBounds-of_length bits bits' (idx ∷ indices) e h =
      (omega arith, InBounds-of_length bits bits' indices e h.1)

  pub test_bit-set_bits_mono :
      (bits indices : List ℕ) (j : ℕ)
      → InBounds bits indices
      → test_bit bits j ≡ true
      → test_bit (set_bits bits indices) j ≡ true
  unfolding set_bits
  test_bit-set_bits_mono bits [] j h t = t
  test_bit-set_bits_mono bits (idx ∷ indices) j h t =
      test_bit-set_bits_mono (set_bit bits idx) indices j
        (InBounds-of_length bits (set_bit bits idx) indices (omega (arith, length-set_bit bits idx))
          h.1)
        (test_bit-set_bit_mono bits idx j h.0 t)

  -- All the bits that were set are found.
  pub all-test_bit-set_bits :
      (bits indices : List ℕ)
      → InBounds bits indices
      → all (λ idx. test_bit (set_bits bits indices) idx) indices ≡ true
  unfolding all set_bits
  all-test_bit-set_bits bits [] h = refl
  all-test_bit-set_bits bits (idx ∷ indices) h =
      let kept =
        InBounds-of_length bits (set_bit bits idx) indices (omega (arith, length-set_bit bits idx))
          h.1 in
      ground (
        arith,
        test_bit-set_bits_mono (set_bit bits idx) indices idx kept
            (test_bit-set_bit_self bits idx h.0),
        all-test_bit-set_bits (set_bit bits idx) indices kept,
      )

  pub all-test_bit_mono :
      (bits indices js : List ℕ)
      → InBounds bits indices
      → all (λ j. test_bit bits j) js ≡ true
      → all (λ j. test_bit (set_bits bits indices) j) js ≡ true
  unfolding all
  all-test_bit_mono bits indices [] h t = refl
  all-test_bit_mono bits indices (j ∷ js) h t =
      ground (arith, test_bit-set_bits_mono bits indices j h, all-test_bit_mono bits indices js h)
