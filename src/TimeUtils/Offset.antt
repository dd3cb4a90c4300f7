-- ===== src/TimeUtils/Offset.antt =====
-- What the functions of include/TimeUtils.h compute.
use jhcommon.Prelude.{ℕ, ◌+◌, ◌*◌, ◌^◌, ◌≤◌, ◌<◌, ◌≡◌, arith}
use jhcommon.Prelude.Int.{pos, negsuc}
use jhcommon.TimeUtils.{Resolution, micro, nano, per_ms, per_sec, Time, get_difference, add_offset}

abbrev pub IsNormal : Resolution → Time → Type 0
IsNormal r t = t.fraction < per_sec r

-- the time in fractions
abbrev pub value : Resolution → Time → ℕ
value r t = t.sec * per_sec r + t.fraction

-- The difference in milliseconds of two times, the first one not before the second and less than
-- two million seconds behind it, is off by less than a millisecond.
pub get_difference_bounds :
    (r : Resolution) (t1 t2 : Time)
    → IsNormal r t1
    → IsNormal r t2
    → value r t2 ≤ value r t1
    → t1.sec < t2.sec + 2000000
    → (get_difference r t1 t2 * per_ms r + value r t2 < value r t1 + per_ms r)
      × (value r t1 < get_difference r t1 t2 * per_ms r + value r t2 + per_ms r)
unfolding get_difference
get_difference_bounds micro t1 t2 n1 n2 later near = ground arith
get_difference_bounds nano t1 t2 n1 n2 later near = ground arith

pub add_offset-later :
    (r : Resolution) (m : ℕ) (t : Time)
    → IsNormal r t
    → IsNormal r (add_offset r (pos m) t)
      × (value r (add_offset r (pos m) t) ≡ value r t + m * per_ms r)
unfolding add_offset
add_offset-later micro m t n = ground arith
add_offset-later nano m t n = ground arith

add_offset-earlier :
    (r : Resolution) (m : ℕ) (t : Time)
    → IsNormal r t
    → (m + 1) * per_ms r ≤ value r t
    → IsNormal r (add_offset r (negsuc m) t)
      × (value r (add_offset r (negsuc m) t) + (m + 1) * per_ms r ≡ value r t)
unfolding add_offset
add_offset-earlier micro m t n h = ground arith
add_offset-earlier nano m t n h = ground arith

-- `addOffset` adds its milliseconds to a normal time, or takes away as many as the time has, and
-- gives a normal time.
pub add_offset_lem :
    (r : Resolution) (m : ℕ) (t : Time)
    → IsNormal r t
    → (m + 1) * per_ms r ≤ value r t
    → IsNormal r (add_offset r (pos m) t)
      × (value r (add_offset r (pos m) t) ≡ value r t + m * per_ms r)
      × IsNormal r (add_offset r (negsuc m) t)
      × (value r (add_offset r (negsuc m) t) + (m + 1) * per_ms r ≡ value r t)
add_offset_lem r m t n h =
    let l = add_offset-later r m t n in let e = add_offset-earlier r m t n h in (l.0, l.1, e.0, e.1)

-- The difference between a normal time with an offset of less than 2^31 milliseconds and the time
-- itself is the offset.
pub get_difference-add_offset :
    (r : Resolution) (m : ℕ) (t : Time)
    → IsNormal r t
    → m < 2 ^ 31
    → get_difference r (add_offset r (pos m) t) t ≡ m
unfolding get_difference add_offset
get_difference-add_offset micro m t n h = ground arith
get_difference-add_offset nano m t n h = ground arith
