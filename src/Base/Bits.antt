-- ===== src/Base/Bits.antt =====
-- Setting and testing one bit of a machine word by `|` and `&`.
use Prim.Native.Nat.{
  ℕ, zero, suc, ◌+◌, ◌-◌, ◌*◌, ◌/◌, ◌%◌, ◌^◌, ◌≤◌, ◌<◌, min, max, bit_and, bit_or, digits,
  bit_and-bitwise, bit_or-bitwise,
}
use mathlib.Core.Path.{◌≡◌, refl, ◌∙◌, ap}
use native.Mathlib.Nat.{pow-suc, one-le-pow}
use native.Mathlib.Omega.{arith}

-- Fuel beyond the first number changes nothing.
digits_enough :
    (z : ℕ → ℕ) (f : ℕ → ℕ → ℕ) (n m a b : ℕ) → a ≤ n → a ≤ m → digits z f n a b ≡ digits z f m a b
digits_enough z f zero zero a b p q = refl
digits_enough z f zero (suc m) zero b p q = refl
digits_enough z f zero (suc m) (suc a) b p q = absurd (omega arith)
digits_enough z f (suc n) zero zero b p q = refl
digits_enough z f (suc n) zero (suc a) b p q = absurd (omega arith)
digits_enough z f (suc n) (suc m) zero b p q = refl
digits_enough z f (suc n) (suc m) (suc a) b p q =
    omega (arith, digits_enough z f n m (suc a / 2) (b / 2) (omega arith) (omega arith))

-- Both operations work digit by digit.
bit_or_halves : (a b : ℕ) → bit_or a b ≡ bit_or (a / 2) (b / 2) * 2 + max (a % 2) (b % 2)
bit_or_halves zero b = omega (arith, bit_or-bitwise 0 b, bit_or-bitwise 0 (b / 2))
bit_or_halves (suc a) b = omega (
  arith,
  bit_or-bitwise (suc a) b,
  bit_or-bitwise (suc a / 2) (b / 2),
  digits_enough (λ d. d) max a (suc a / 2) (suc a / 2) (b / 2) (omega arith) (omega arith),
)

bit_and_halves : (a b : ℕ) → bit_and a b ≡ bit_and (a / 2) (b / 2) * 2 + min (a % 2) (b % 2)
bit_and_halves zero b = omega (arith, bit_and-bitwise 0 b, bit_and-bitwise 0 (b / 2))
bit_and_halves (suc a) b = omega (
  arith,
  bit_and-bitwise (suc a) b,
  bit_and-bitwise (suc a / 2) (b / 2),
  digits_enough (λ d. zero) min a (suc a / 2) (suc a / 2) (b / 2) (omega arith) (omega arith),
)

bit_and-zero_below : (n a : ℕ) → a ≤ n → bit_and a 0 ≡ 0
bit_and-zero_below n zero h = refl
bit_and-zero_below zero (suc a) h = absurd (omega arith)
bit_and-zero_below (suc n) (suc a) h =
    omega (arith, bit_and_halves (suc a) 0, bit_and-zero_below n (suc a / 2) (omega arith))

bit_and-one : (a : ℕ) → bit_and a 1 ≡ a % 2
bit_and-one a = omega (arith, bit_and_halves a 1, bit_and-zero_below (a / 2) (a / 2) (omega arith))

half_pow : (i : ℕ) → 2 ^ suc i / 2 ≡ 2 ^ i
half_pow i = omega (arith, pow-suc 2 i)

bit_and-pow_suc : (i a : ℕ) → bit_and a (2 ^ suc i) ≡ bit_and (a / 2) (2 ^ i) * 2
bit_and-pow_suc i a = bit_and_halves a (2 ^ suc i) ∙ grind (arith, half_pow i, pow-suc 2 i)

half-bit_or : (a b : ℕ) → bit_or a b / 2 ≡ bit_or (a / 2) (b / 2)
half-bit_or a b = omega (arith, bit_or_halves a b)

-- A bit that is set by `|` is found by `&`.
pub bit_and-bit_or_self : (i a : ℕ) → 0 < bit_and (bit_or a (2 ^ i)) (2 ^ i)
bit_and-bit_or_self zero a = omega (arith, bit_and-one (bit_or a 1), bit_or_halves a 1)
bit_and-bit_or_self (suc i) a =
    rw (bit_and-pow_suc i (bit_or a (2 ^ suc i)), half-bit_or a (2 ^ suc i), half_pow i)
      (omega (arith, bit_and-bit_or_self i (a / 2)))

-- A bit that was set stays set.
pub bit_and-bit_or_mono : (j a b : ℕ) → 0 < bit_and a (2 ^ j) → 0 < bit_and (bit_or a b) (2 ^ j)
bit_and-bit_or_mono zero a b h =
    omega (arith, bit_and-one a, bit_and-one (bit_or a b), bit_or_halves a b)
bit_and-bit_or_mono (suc j) a b h =
    rw (bit_and-pow_suc j (bit_or a b), half-bit_or a b)
      (omega (arith, bit_and-bit_or_mono j (a / 2) (b / 2) (omega (arith, bit_and-pow_suc j a))))

bit_or-zero_below : (n a : ℕ) → a ≤ n → bit_or a 0 ≡ a
bit_or-zero_below n zero h = refl
bit_or-zero_below zero (suc a) h = absurd (omega arith)
bit_or-zero_below (suc n) (suc a) h =
    omega (arith, bit_or_halves (suc a) 0, bit_or-zero_below n (suc a / 2) (omega arith))

double_shift : (q k : ℕ) → q * 2 ^ suc k ≡ q * 2 ^ k * 2
double_shift q k = grind (arith, pow-suc 2 k)

half_shift : (q k : ℕ) → q * 2 ^ suc k / 2 ≡ q * 2 ^ k
half_shift q k = omega (arith, double_shift q k)

even_shift : (q k : ℕ) → q * 2 ^ suc k % 2 ≡ 0
even_shift q k = omega (arith, double_shift q k)

-- `q << k | r`, where `r` fits below the shift.
pub bit_or-shift : (k q r : ℕ) → r < 2 ^ k → bit_or (q * 2 ^ k) r ≡ q * 2 ^ k + r
bit_or-shift zero q r h =
    let e : r ≡ 0 = omega arith in
    let f : q * 2 ^ 0 ≡ q = omega arith in
    rw (e, f) (omega (arith, bit_or-zero_below q q (omega arith)))
bit_or-shift (suc k) q r h =
    bit_or_halves (q * 2 ^ suc k) r
    ∙ rw (half_shift q k, even_shift q k)
        (omega (
          arith,
          bit_or-shift k q (r / 2) (omega (arith, pow-suc 2 k)),
          half_shift q k,
          even_shift q k,
        ))

half_mask : (k : ℕ) → (2 ^ suc k - 1) / 2 ≡ 2 ^ k - 1
half_mask k = omega (arith, pow-suc 2 k, one-le-pow k 2 (omega arith))

odd_mask : (k : ℕ) → (2 ^ suc k - 1) % 2 ≡ 1
odd_mask k = omega (arith, pow-suc 2 k, one-le-pow k 2 (omega arith))

half_sum : (k q r : ℕ) → (q * 2 ^ suc k + r) / 2 ≡ q * 2 ^ k + r / 2
half_sum k q r = omega (arith, double_shift q k)

-- `(q << k + r) & (2^k - 1)`, where `r` fits below the shift.
bit_and-low : (k q r : ℕ) → r < 2 ^ k → bit_and (q * 2 ^ k + r) (2 ^ k - 1) ≡ r
bit_and-low zero q r h =
    omega (arith, bit_and-zero_below (q * 2 ^ 0 + r) (q * 2 ^ 0 + r) (omega arith))
bit_and-low (suc k) q r h =
    bit_and_halves (q * 2 ^ suc k + r) (2 ^ suc k - 1)
    ∙ rw (half_sum k q r, half_mask k, odd_mask k)
        (omega (arith, bit_and-low k q (r / 2) (omega (arith, pow-suc 2 k)), double_shift q k))

-- `a & (2^k - 1)`
pub bit_and-mask : (k a : ℕ) → bit_and a (2 ^ k - 1) ≡ a % 2 ^ k
bit_and-mask k a =
    let pos = one-le-pow k 2 (omega arith) in
    let whole : a ≡ a / 2 ^ k * 2 ^ k + a % 2 ^ k = grind arith in
    ap (λ (n : ℕ). bit_and n (2 ^ k - 1)) whole
    ∙ bit_and-low k (a / 2 ^ k) (a % 2 ^ k) (grind arith)
