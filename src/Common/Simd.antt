-- ===== src/Common/Simd.antt =====
-- crabstash-common/src/simd.rs: the comparison of byte strings by chunks of 16 bytes. What the crate
-- wide does for a chunk is a parameter: the bit mask of the places where two chunks agree. The slices
-- from `offset` on are the arguments of the loops.
use crabstash.Base.{
  ℕ, zero, suc, ◌+◌, ◌*◌, ◌/◌, ◌%◌, ◌^◌, ◌≤◌, ◌≡◌, ◌≢◌, ◌∙◌, refl, ap, sym, Bytes, bytes_cmp,
  bytes_beq, compare, Ordering, min, Bool, true, false, not, [], ◌∷◌, length, take, drop, get_or,
  if◌then◌else◌, leb, eqb, eqb_iff, leb→le, Bool-cases, inl, inr, arith,
}

abbrev pub chunk_size : ℕ
chunk_size = 16

abbrev pub all_equal_mask : ℕ
all_equal_mask = 0xFFFF

-- `(!bitmask).trailing_zeros()` of a word with the given number of bits.
unfoldable pub trailing_ones : ℕ → ℕ → ℕ
trailing_ones zero mask = 0
trailing_ones (suc w) mask =
    let rest = trailing_ones w (mask / 2) in if eqb (mask % 2) 1 then suc rest else 0

-- The comparison byte by byte, and then of the lengths of the whole slices.
unfoldable pub compare_rest : ℕ → ℕ → Bytes → Bytes → Ordering
compare_rest len_a len_b [] b = compare len_a len_b
compare_rest len_a len_b (x ∷ a) [] = compare len_a len_b
compare_rest len_a len_b (x ∷ a) (y ∷ b) =
    let rest = compare_rest len_a len_b a b in
    elim (compare x y) [
      | Ordering.lt ↦ Ordering.lt
      | Ordering.eq ↦ rest
      | Ordering.gt ↦ Ordering.gt
    ]

module _ (eq_mask : Bytes → Bytes → ℕ) where
  -- The fuel is the length of a slice, and each round consumes 16 bytes of it.
  unfoldable pub compare_chunks : ℕ → ℕ → ℕ → Bytes → Bytes → Ordering
  unfolding compare_rest
  compare_chunks zero len_a len_b a b = compare_rest len_a len_b a b
  compare_chunks (suc n) len_a len_b a b =
      let bitmask = eq_mask (take chunk_size a) (take chunk_size b) in
      let first_diff = trailing_ones 32 bitmask in
      let rest = compare_chunks n len_a len_b (drop chunk_size a) (drop chunk_size b) in
      if leb chunk_size (min (length a) (length b))
      then if not (eqb bitmask all_equal_mask)
        then compare (get_or a first_diff 0) (get_or b first_diff 0)
        else rest
      else compare_rest len_a len_b a b

  unfoldable pub compare_bytes : Bytes → Bytes → Ordering
  unfolding compare_chunks
  compare_bytes a b = compare_chunks (length a) (length a) (length b) a b

  -- The loop of `bytes_equal`, with the same fuel.
  unfoldable pub equal_chunks : ℕ → Bytes → Bytes → Bool
  equal_chunks zero a b = bytes_beq a b
  equal_chunks (suc n) a b =
      let bitmask = eq_mask (take chunk_size a) (take chunk_size b) in
      let rest = equal_chunks n (drop chunk_size a) (drop chunk_size b) in
      if leb chunk_size (length a)
      then if not (eqb bitmask all_equal_mask) then false else rest
      else bytes_beq a b

  unfoldable pub bytes_equal : Bytes → Bytes → Bool
  unfolding equal_chunks
  bytes_equal a b = if not (eqb (length a) (length b)) then false else equal_chunks (length a) a b

-- The mask of the places where two chunks agree, the first place in the lowest bit.
unfoldable pub mask_of : Bytes → Bytes → ℕ
mask_of [] b = 0
mask_of (x ∷ a) [] = 0
mask_of (x ∷ a) (y ∷ b) = (if eqb x y then 1 else 0) + 2 * mask_of a b

trailing_ones-odd : (w m : ℕ) → trailing_ones (suc w) (1 + 2 * m) ≡ suc (trailing_ones w m)
unfolding trailing_ones
trailing_ones-odd w m =
    let low : (1 + 2 * m) % 2 ≡ 1 = omega arith in
    let high : (1 + 2 * m) / 2 ≡ m = omega arith in rw (low, high) refl

trailing_ones-even : (w m : ℕ) → trailing_ones (suc w) (0 + 2 * m) ≡ 0
unfolding trailing_ones
trailing_ones-even w m = let low : (0 + 2 * m) % 2 ≡ 0 = omega arith in rw low refl

-- A full mask: the chunks agree, and the comparison goes on behind them.
bytes_cmp-full :
    (n : ℕ) (a b : Bytes)
    → n ≤ length a
    → n ≤ length b
    → mask_of (take n a) (take n b) + 1 ≡ 2 ^ n
    → bytes_cmp a b ≡ bytes_cmp (drop n a) (drop n b)
unfolding mask_of bytes_cmp
bytes_cmp-full zero a b la lb h = refl
bytes_cmp-full (suc n) [] b la lb h = absurd (omega arith)
bytes_cmp-full (suc n) (x ∷ a) [] la lb h = absurd (omega arith)
bytes_cmp-full (suc n) (x ∷ a) (y ∷ b) la lb h =
    ground (arith, bytes_cmp-full n a b (omega arith) (omega arith))

-- Another mask: the bytes at the lowest zero decide.
bytes_cmp-diff :
    (n w : ℕ) (a b : Bytes)
    → n ≤ length a
    → n ≤ length b
    → n ≤ w
    → mask_of (take n a) (take n b) + 1 ≢ 2 ^ n
    → bytes_cmp a b
      ≡ compare
          (get_or a (trailing_ones w (mask_of (take n a) (take n b))) 0)
          (get_or b (trailing_ones w (mask_of (take n a) (take n b))) 0)
unfolding mask_of bytes_cmp
bytes_cmp-diff zero w a b la lb lw h = absurd (h (omega arith))
bytes_cmp-diff (suc n) zero a b la lb lw h = absurd (omega arith)
bytes_cmp-diff (suc n) (suc w) [] b la lb lw h = absurd (omega arith)
bytes_cmp-diff (suc n) (suc w) (x ∷ a) [] la lb lw h = absurd (omega arith)
bytes_cmp-diff (suc n) (suc w) (x ∷ a) (y ∷ b) la lb lw h =
    by_order (compare x y) (bytes_cmp-diff n w a b (omega arith) (omega arith) (omega arith)) refl
  where
    m : ℕ
    m = mask_of (take n a) (take n b)

    mask : ℕ
    mask = (if eqb x y then 1 else 0) + 2 * m

    by_order :
        (o : Ordering)
        → (m + 1 ≢ 2 ^ n
            → bytes_cmp a b
              ≡ compare (get_or a (trailing_ones w m) 0) (get_or b (trailing_ones w m) 0))
        → compare x y ≡ o
        → bytes_cmp (x ∷ a) (y ∷ b)
          ≡ compare
              (get_or (x ∷ a) (trailing_ones (suc w) mask) 0)
              (get_or (y ∷ b) (trailing_ones (suc w) mask) 0)
    by_order Ordering.lt later c =
        let q : eqb x y ≡ false = ground (arith, c) in
        rw (q, trailing_ones-even w m) (ground (arith, c))
    by_order Ordering.eq later c =
        let q : eqb x y ≡ true = ground (arith, c) in
        let rest = later (λ e. h (ground (arith, e, c))) in
        rw (q, trailing_ones-odd w m) (ground (arith, c, rest))
    by_order Ordering.gt later c =
        let q : eqb x y ≡ false = ground (arith, c) in
        rw (q, trailing_ones-even w m) (ground (arith, c))

compare_rest-bytes_cmp :
    (k : ℕ) (a b : Bytes) → compare_rest (k + length a) (k + length b) a b ≡ bytes_cmp a b
unfolding compare_rest bytes_cmp
compare_rest-bytes_cmp k [] [] = ground arith
compare_rest-bytes_cmp k [] (y ∷ b) = ground arith
compare_rest-bytes_cmp k (x ∷ a) [] = ground arith
compare_rest-bytes_cmp k (x ∷ a) (y ∷ b) =
    let same : k + length (x ∷ a) ≡ (k + 1) + length a = omega arith in
    let same' : k + length (y ∷ b) ≡ (k + 1) + length b = omega arith in
    let ih : compare_rest (k + length (x ∷ a)) (k + length (y ∷ b)) a b ≡ bytes_cmp a b =
      rw (same, same') (compare_rest-bytes_cmp (k + 1) a b) in
    ap
      (λ (r : Ordering). elim (compare x y) [
        | Ordering.lt ↦ Ordering.lt
        | Ordering.eq ↦ r
        | Ordering.gt ↦ Ordering.gt
      ])
      ih

length-drop : (n : ℕ) (a : Bytes) → n ≤ length a → length a ≡ n + length (drop n a)
length-drop zero a h = omega arith
length-drop (suc n) [] h = absurd (omega arith)
length-drop (suc n) (x ∷ a) h = omega (arith, length-drop n a (omega arith))

module _ (eq_mask : Bytes → Bytes → ℕ)
    (eq_mask-chunks : (a b : Bytes)
      → length a ≡ 16
      → length b ≡ 16
      → eq_mask a b ≡ mask_of a b) where
  length-take : (n : ℕ) (a : Bytes) → n ≤ length a → length (take n a) ≡ n
  length-take zero a h = refl
  length-take (suc n) [] h = absurd (omega arith)
  length-take (suc n) (x ∷ a) h = omega (arith, length-take n a (omega arith))

  eq_mask-take :
      (a b : Bytes)
      → 16 ≤ length a
      → 16 ≤ length b
      → eq_mask (take 16 a) (take 16 b) ≡ mask_of (take 16 a) (take 16 b)
  eq_mask-take a b la lb =
      eq_mask-chunks (take 16 a) (take 16 b) (length-take 16 a la) (length-take 16 b lb)

  compare_chunks-bytes_cmp :
      (fuel k : ℕ) (a b : Bytes)
      → compare_chunks eq_mask fuel (k + length a) (k + length b) a b ≡ bytes_cmp a b
  unfolding compare_chunks
  compare_chunks-bytes_cmp zero k a b = compare_rest-bytes_cmp k a b
  compare_chunks-bytes_cmp (suc n) k a b = elim (Bool-cases (leb 16 (min (length a) (length b)))) [
    | inr short ↦ rw short (compare_rest-bytes_cmp k a b)
    | inl long ↦
        let la : 16 ≤ length a = omega (arith, leb→le 16 (min (length a) (length b)) long) in
        let lb : 16 ≤ length b = omega (arith, leb→le 16 (min (length a) (length b)) long) in
        let mask = eq_mask-take a b la lb in
        let len_a : k + length a ≡ (k + 16) + length (drop 16 a) =
          omega (arith, length-drop 16 a la) in
        let len_b : k + length b ≡ (k + 16) + length (drop 16 b) =
          omega (arith, length-drop 16 b lb) in
        let later : compare_chunks eq_mask n (k + length a) (k + length b) (drop 16 a) (drop 16 b)
            ≡ bytes_cmp (drop 16 a) (drop 16 b) =
          rw (len_a, len_b) (compare_chunks-bytes_cmp n (k + 16) (drop 16 a) (drop 16 b)) in
        let whole = eqb_iff (mask_of (take 16 a) (take 16 b)) all_equal_mask in
        elim (Bool-cases (eqb (mask_of (take 16 a) (take 16 b)) all_equal_mask)) [
          | inl full ↦
              rw (long, mask, full)
                (later ∙ sym (bytes_cmp-full 16 a b la lb (omega (arith, whole.0 full))))
          | inr diff ↦
              rw (long, mask, diff)
                (sym (
                  bytes_cmp-diff 16 32 a b la lb (omega arith)
                    (λ e. let full = whole.1 (omega (arith, e)) in cc)))
        ]
  ]

  -- The comparison by chunks is the lexicographic order of slices, with a proper prefix first, for
  -- all lengths, if the mask of two chunks of 16 bytes has a one exactly where the bytes agree.
  pub compare_bytes-bytes_cmp : (a b : Bytes) → compare_bytes eq_mask a b ≡ bytes_cmp a b
  unfolding compare_bytes
  compare_bytes-bytes_cmp a b =
      let len_a : 0 + length a ≡ length a = omega arith in
      let len_b : 0 + length b ≡ length b = omega arith in
      rw (len_a, len_b) at (compare_chunks-bytes_cmp (length a) 0 a b)
