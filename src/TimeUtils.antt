-- ===== src/TimeUtils.antt =====
-- include/TimeUtils.h: the arithmetic of `struct timeval` and `struct timespec`. Seconds are not
-- negative; an `int` result is its 32 bits, negative from 2^31 on.
pub mod Offset
mod Tests
use jhcommon.Prelude.{ℕ, ◌+◌, ◌-◌, ◌*◌, ◌/◌, ◌%◌, ◌^◌, ltb, leb, if◌then◌else◌}
use jhcommon.Prelude.Int.{ℤ, pos, negsuc}

-- `timeval` and `timespec`
pub data Resolution : Type 0 where
  micro : Resolution
  nano : Resolution

-- fractions in a millisecond and in a second
abbrev pub per_ms : Resolution → ℕ
per_ms micro = 1000
per_ms nano = 1000000

abbrev pub per_sec : Resolution → ℕ
per_sec micro = 1000000
per_sec nano = 1000000000

pub record Time : Type 0 where
  pub sec : ℕ
  pub fraction : ℕ

-- `( a - b ) * m / d` as an `int`, with the quotient towards 0
abbrev pub int_diff : ℕ → ℕ → ℕ → ℕ → ℕ
int_diff a b m d =
    if leb b a then ((a - b) * m / d) % 2 ^ 32 else (2 ^ 32 - ((b - a) * m / d) % 2 ^ 32) % 2 ^ 32

unfoldable pub get_difference : Resolution → Time → Time → ℕ
get_difference micro t1 t2 =
    (int_diff t1.sec t2.sec 1000 1 + int_diff t1.fraction t2.fraction 1 1000) % 2 ^ 32
get_difference nano t1 t2 =
    (int_diff t1.sec t2.sec 1000 1 + int_diff t1.fraction t2.fraction 1 1000000) % 2 ^ 32

unfoldable pub get_difference_micro_secs : Resolution → Time → Time → ℕ
get_difference_micro_secs micro t1 t2 =
    (int_diff t1.sec t2.sec 1000000 1 + int_diff t1.fraction t2.fraction 1 1) % 2 ^ 32
get_difference_micro_secs nano t1 t2 =
    (int_diff t1.sec t2.sec 1000000 1 + int_diff t1.fraction t2.fraction 1 1000) % 2 ^ 32

unfoldable pub set_time_struct : Resolution → ℕ → Time
set_time_struct micro msecs = record { sec = msecs / 1000; fraction = (msecs % 1000) * 1000 }
set_time_struct nano msecs = record { sec = msecs / 1000; fraction = (msecs % 1000) * 1000000 }

-- the carry of a fraction that is a second or more
abbrev pub carry : ℕ → Time → Time
carry second t =
    if leb second t.fraction then record { sec = t.sec + 1; fraction = t.fraction - second } else t

-- the fraction less f, with the borrow of a second where it would be negative
abbrev pub borrow : ℕ → ℕ → Time → Time
borrow second f t =
    if ltb t.fraction f
    then record { sec = t.sec - 1; fraction = t.fraction + second - f }
    else record t { fraction = t.fraction - f }

-- A normal time has no carry and borrow at once. Seconds before 0 are not modelled.
-- Quotient and remainder of a negative `int` are those of its magnitude, negated.
unfoldable pub add_offset : Resolution → ℤ → Time → Time
add_offset micro (pos m) t =
    carry 1000000 (record { sec = t.sec + m / 1000; fraction = t.fraction + (m % 1000) * 1000 })
add_offset nano (pos m) t =
    carry 1000000000
      (record { sec = t.sec + m / 1000; fraction = t.fraction + (m % 1000) * 1000000 })
add_offset micro (negsuc n) t =
    borrow 1000000 (((n + 1) % 1000) * 1000) (record t { sec = t.sec - (n + 1) / 1000 })
add_offset nano (negsuc n) t =
    borrow 1000000000 (((n + 1) % 1000) * 1000000) (record t { sec = t.sec - (n + 1) / 1000 })
