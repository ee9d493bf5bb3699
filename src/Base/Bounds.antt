-- ===== src/Base/Bounds.antt =====
-- `std::ops::Bound`, and the ranges of keys that two bounds enclose.
use mathlib.Core.Bool.{Bool, true, ◌&&◌}
use crabstash.Base.Slices.{Bytes, bytes_lt, bytes_le}

pub data Bound : Type 0 where
  included excluded : Bytes → Bound
  unbounded : Bound

abbrev pub after_start : Bytes → Bound → Bool
after_start key (included s) = bytes_le s key
after_start key (excluded s) = bytes_lt s key
after_start key unbounded = true

abbrev pub before_end : Bytes → Bound → Bool
before_end key (included e) = bytes_le key e
before_end key (excluded e) = bytes_lt key e
before_end key unbounded = true

-- The source writes this test out wherever it needs it.
unfoldable pub key_in_range : Bytes → Bound → Bound → Bool
key_in_range key start end = after_start key start && before_end key end
