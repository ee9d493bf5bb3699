-- ===== src/Storage/Codec.antt =====
-- Little-endian numbers in byte strings, and `read_exact`: what `BufMut`, `Buf` and `Read` do for the
-- record formats of crabstash-storage.
use crabstash.Base.{
  ℕ, zero, suc, ◌+◌, ◌*◌, ◌/◌, ◌%◌, ◌^◌, ◌<◌, ◌≡◌, refl, ap, Bytes, Option, none, some, [], ◌∷◌,
  ◌++◌, length, arith,
}

-- `put_u32_le` and `put_u64_le`, for four and for eight bytes.
unfoldable pub put_le : ℕ → ℕ → Bytes
put_le zero n = []
put_le (suc w) n = (n % 256) ∷ put_le w (n / 256)

unfoldable pub get_le : Bytes → ℕ
get_le [] = 0
get_le (b ∷ bs) = b + 256 * get_le bs

unfoldable pub and_then : {A : Type 0} {B : Type 0} → Option A → (A → Option B) → Option B
and_then none f = none
and_then (some a) f = f a

abbrev pub prepend : ℕ → Option (Bytes × Bytes) → Option (Bytes × Bytes)
prepend b none = none
prepend b (some (xs, rest)) = some (b ∷ xs, rest)

-- The first bytes and the rest, if there are enough of them.
unfoldable pub read_exact : ℕ → Bytes → Option (Bytes × Bytes)
read_exact zero bs = some ([], bs)
read_exact (suc n) [] = none
read_exact (suc n) (b ∷ bs) = prepend b (read_exact n bs)

pub length-put_le : (w n : ℕ) → length (put_le w n) ≡ w
unfolding put_le
length-put_le zero n = refl
length-put_le (suc w) n = ap suc (length-put_le w (n / 256))

pub get_le-put_le : (w n : ℕ) → n < 256 ^ w → get_le (put_le w n) ≡ n
unfolding put_le get_le
get_le-put_le zero n h = omega arith
get_le-put_le (suc w) n h = omega (arith, get_le-put_le w (n / 256) (omega arith))

pub read_exact-append : (xs ys : Bytes) → read_exact (length xs) (xs ++ ys) ≡ some (xs, ys)
unfolding read_exact
read_exact-append [] ys = refl
read_exact-append (x ∷ xs) ys = ap (prepend x) (read_exact-append xs ys)

pub read_exact-put_le :
    (w n : ℕ) (ys : Bytes) → read_exact w (put_le w n ++ ys) ≡ some (put_le w n, ys)
read_exact-put_le w n ys = rw length-put_le at (read_exact-append (put_le w n) ys)

pub read_exact-short : (n : ℕ) (bs : Bytes) → length bs < n → read_exact n bs ≡ none
unfolding read_exact
read_exact-short zero bs h = absurd (omega arith)
read_exact-short (suc n) [] h = refl
read_exact-short (suc n) (b ∷ bs) h = ap (prepend b) (read_exact-short n bs (omega arith))

pub length-read_exact :
    (n : ℕ) (bs xs rest : Bytes) → read_exact n bs ≡ some (xs, rest) → length rest + n ≡ length bs
unfolding read_exact
length-read_exact zero bs xs rest h = let q : bs ≡ rest = cc in omega (arith, ap length q)
length-read_exact (suc n) [] xs rest h = cc
length-read_exact (suc n) (b ∷ bs) xs rest h =
    of_tail (read_exact n bs) refl h (length-read_exact n bs)
  where
    of_tail :
        (o : Option (Bytes × Bytes))
        → read_exact n bs ≡ o
        → prepend b o ≡ some (xs, rest)
        → ((ys tail : Bytes) → read_exact n bs ≡ some (ys, tail) → length tail + n ≡ length bs)
        → length rest + suc n ≡ suc (length bs)
    of_tail none q k ih = cc
    of_tail (some (ys, tail)) q k ih =
        let e : tail ≡ rest = cc in omega (arith, ih ys tail q, ap length e)
