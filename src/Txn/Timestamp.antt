-- ===== src/Txn/Timestamp.antt =====
-- crabstash-txn/src/timestamp.rs: the timestamps of transactions. The clock, in milliseconds, is an
-- argument of each call; the calls come one after another.
use Prim.Native.Nat.{bit_and, bit_or}
use crabstash.Base.{
  ℕ, ◌+◌, ◌*◌, ◌/◌, ◌%◌, ◌^◌, ◌≤◌, ◌<◌, ◌≡◌, ◌∙◌, if◌then◌else◌, ltb, arith, true, false,
  Bool-cases, inl, inr,
}
use crabstash.Base.Bits.{bit_or-shift, bit_and-mask}

pub record TimestampOracle : Type 0 where
  pub logical : ℕ
  pub last_physical : ℕ

abbrev pub new : TimestampOracle
new = record { logical = 0; last_physical = 0 }

-- Shifts and sums are those of 64-bit words.
unfoldable pub get_timestamp : TimestampOracle → ℕ → TimestampOracle × ℕ
get_timestamp o physical =
    if ltb o.last_physical physical
    then (record { logical = 0; last_physical = physical }, physical * 2 ^ 18 % 2 ^ 64)
    else (
      record o { logical = (o.logical + 1) % 2 ^ 64 },
      bit_or (o.last_physical * 2 ^ 18 % 2 ^ 64) (bit_and o.logical 0x3FFFF),
    )

unfoldable pub physical : ℕ → ℕ
physical ts = ts / 2 ^ 18

unfoldable pub logical : ℕ → ℕ
logical ts = bit_and ts 0x3FFFF

-- The clock fits into the 46 bits above the counter, until the year 4199.
abbrev pub max_physical : ℕ
max_physical = 2 ^ 46

-- The timestamp of a call that does not see the clock advance.
same_tick :
    (o : TimestampOracle)
    → o.last_physical < max_physical
    → bit_or (o.last_physical * 2 ^ 18 % 2 ^ 64) (bit_and o.logical 0x3FFFF)
      ≡ o.last_physical * 2 ^ 18 + o.logical % 2 ^ 18
same_tick o h =
    let fits : o.last_physical * 2 ^ 18 % 2 ^ 64 ≡ o.last_physical * 2 ^ 18 = omega arith in
    rw (fits, bit_and-mask 18 o.logical)
      (bit_or-shift 18 o.last_physical (o.logical % 2 ^ 18) (omega arith))

-- While the clock fits into 46 bits, every timestamp holds the reading of the clock that the oracle has seen last, and below it the
-- counter before the call; both are read back by `physical` and `logical`.
pub get_timestamp-fields :
    (o : TimestampOracle) (now : ℕ)
    → now < max_physical
    → o.last_physical < max_physical
    → (physical (get_timestamp o now).1 ≡ (get_timestamp o now).0.last_physical)
      × (logical (get_timestamp o now).1
          ≡ (if ltb o.last_physical now then 0 else o.logical % 2 ^ 18))
unfolding get_timestamp physical logical
get_timestamp-fields o now h k = elim (Bool-cases (ltb o.last_physical now)) [
  | inl tick ↦ rw tick (omega arith, bit_and-mask 18 _ ∙ omega arith)
  | inr same ↦ rw (same, same_tick o k) (omega arith, bit_and-mask 18 _ ∙ omega arith)
]

-- What the oracle knows, as one number.
unfoldable pub mark : TimestampOracle → ℕ
mark o = o.last_physical * 2 ^ 18 + o.logical

get_timestamp-le-mark :
    (o : TimestampOracle) (now : ℕ)
    → now < max_physical
    → o.last_physical < max_physical
    → o.logical < 2 ^ 18
    → (mark o ≤ (get_timestamp o now).1)
      × ((get_timestamp o now).1 ≤ mark (get_timestamp o now).0)
      × ((get_timestamp o now).0.last_physical < max_physical)
      × ((get_timestamp o now).0.logical ≤ o.logical + 1)
unfolding get_timestamp mark
get_timestamp-le-mark o now h k small = elim (Bool-cases (ltb o.last_physical now)) [
  | inl tick ↦ rw tick (ground arith, ground arith, h, omega arith)
  | inr same ↦ rw (same, same_tick o k) (omega arith, omega arith, k, omega arith)
]

-- The timestamps of two calls, one right after the other, do not run backwards, also if the clock
-- does, as long as the clock fits into 46 bits and the counter of the millisecond stays below 2^18.
pub get_timestamp_ordered :
    (o : TimestampOracle) (now later : ℕ)
    → now < max_physical
    → later < max_physical
    → o.last_physical < max_physical
    → o.logical + 1 < 2 ^ 18
    → (get_timestamp o now).1 ≤ (get_timestamp (get_timestamp o now).0 later).1
get_timestamp_ordered o now later h h' k small =
    let (below, above, fits, count) = get_timestamp-le-mark o now h k (omega arith) in
    let next = get_timestamp-le-mark (get_timestamp o now).0 later h' fits (omega arith) in
    omega (arith, next.0)

-- When the clock, which fits into 46 bits, ticks, and the next call still sees the same millisecond, or an earlier one, both
-- calls return the same timestamp.
pub get_timestamp_twice :
    (o : TimestampOracle) (now later : ℕ)
    → o.last_physical < now
    → now < max_physical
    → later ≤ now
    → (get_timestamp (get_timestamp o now).0 later).1 ≡ (get_timestamp o now).1
unfolding get_timestamp
get_timestamp_twice o now later tick h same =
    let first : ltb o.last_physical now ≡ true = ground arith in
    let second : ltb now later ≡ false = ground arith in
    rw (first, second) (same_tick (record { logical = 0; last_physical = now }) h ∙ omega arith)
