-- ===== src/Db/Prefix.antt =====
-- crabstash/src/lib.rs, `prefix_end_bound`: the end of the range that a scan of a prefix reads.
use crabstash.Base.{
  ℕ, zero, suc, ◌+◌, ◌<◌, Bytes, bytes_cmp, bytes_le, bytes_lt, Bound, included, excluded,
  unbounded, key_in_range, before_end, ◌≡◌, refl, inl, inr, Bool, true, false, ◌&&◌, [], ◌∷◌, All,
  length, take, set, get_or, if◌then◌else◌, ltb, eqb, arith, Bool-cases,
}

-- One step of the loop, from the last byte down: `i` bytes are left to look at.
unfoldable pub prefix_end_scan : ℕ → Bytes → Bound
prefix_end_scan zero end = unbounded
prefix_end_scan (suc i) end =
    let rest = prefix_end_scan i end in
    if ltb (get_or end i 0) 0xff
    then excluded (take (suc i) (set end i (get_or end i 0 + 1)))
    else rest

unfoldable pub prefix_end_bound : Bytes → Bound
unfolding prefix_end_scan
prefix_end_bound prefix = prefix_end_scan (length prefix) prefix

abbrev pub starts_with : Bytes → Bytes → Bool
starts_with [] key = true
starts_with (b ∷ prefix) [] = false
starts_with (b ∷ prefix) (c ∷ key) = eqb b c && starts_with prefix key

-- What a byte in front of the prefix does to the bound.
abbrev behind : ℕ → Bound → Bound
behind b (included e) = included (b ∷ e)
behind b (excluded e) = excluded (b ∷ e)
behind b unbounded = if ltb b 0xff then excluded ((b + 1) ∷ []) else unbounded

prefix_end_scan-behind :
    (i b : ℕ) (prefix : Bytes)
    → prefix_end_scan (suc i) (b ∷ prefix) ≡ behind b (prefix_end_scan i prefix)
unfolding prefix_end_scan
prefix_end_scan-behind zero b prefix = refl
prefix_end_scan-behind (suc i) b prefix = elim (Bool-cases (ltb (get_or prefix i 0) 0xff)) [
  | inl room ↦ rw room refl
  | inr full ↦ rw full (prefix_end_scan-behind i b prefix)
]

range-behind :
    (b c : ℕ) (prefix key : Bytes) (end : Bound)
    → c < 256
    → key_in_range key (included prefix) end ≡ starts_with prefix key
    → (bytes_le (b ∷ prefix) (c ∷ key) && before_end (c ∷ key) (behind b end))
      ≡ (eqb b c && starts_with prefix key)
unfolding key_in_range bytes_cmp
range-behind b c prefix key (included e) small ih = ground arith
range-behind b c prefix key (excluded e) small ih = ground arith
range-behind b c prefix key unbounded small ih = elim (Bool-cases (ltb b 0xff)) [
  | inl room ↦ rw room (with_room key ih)
  | inr full ↦ rw full (ground arith)
]
  where
    with_room :
        (k : Bytes)
        → key_in_range k (included prefix) unbounded ≡ starts_with prefix k
        → (bytes_le (b ∷ prefix) (c ∷ k) && bytes_lt (c ∷ k) ((b + 1) ∷ []))
          ≡ (eqb b c && starts_with prefix k)
    with_room [] h = ground arith
    with_room (x ∷ k) h = ground arith

-- A key, as a string of bytes, starts with the prefix exactly when it lies in the range from the
-- prefix to its end bound.
pub prefix_end_bound-starts_with :
    (prefix key : Bytes)
    → All (λ b. b < 256) key
    → key_in_range key (included prefix) (prefix_end_bound prefix) ≡ starts_with prefix key
unfolding prefix_end_bound key_in_range bytes_cmp
prefix_end_bound-starts_with [] [] small = refl
prefix_end_bound-starts_with [] (c ∷ key) small = refl
prefix_end_bound-starts_with (b ∷ prefix) [] small = refl
prefix_end_bound-starts_with (b ∷ prefix) (c ∷ key) small =
    rw (prefix_end_scan-behind (length prefix) b prefix) (
      range-behind b c prefix key (prefix_end_scan (length prefix) prefix) small.0
        (prefix_end_bound-starts_with prefix key small.1))
