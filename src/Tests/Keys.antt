-- ===== src/Tests/Keys.antt =====
-- The comparison of keys.
use crabstash.Base.{◌≡◌, refl, Bytes, bytes_cmp, [], ◌∷◌}
use crabstash.Common.Simd.{compare_bytes, mask_of, compare_bytes-bytes_cmp}

-- Eighteen bytes, which differ in the last one.
abbrev long_bytes : Bytes → Bytes
long_bytes end = 1 ∷ 2 ∷ 3 ∷ 4 ∷ 5 ∷ 6 ∷ 7 ∷ 8 ∷ 9 ∷ 1 ∷ 2 ∷ 3 ∷ 4 ∷ 5 ∷ 6 ∷ 7 ∷ 8 ∷ end

compare_bytes-bytes_cmp_example :
    compare_bytes mask_of (long_bytes (8 ∷ [])) (long_bytes (9 ∷ []))
    ≡ bytes_cmp (long_bytes (8 ∷ [])) (long_bytes (9 ∷ []))
compare_bytes-bytes_cmp_example =
    compare_bytes-bytes_cmp mask_of (λ a b p q. refl) (long_bytes (8 ∷ [])) (long_bytes (9 ∷ []))
