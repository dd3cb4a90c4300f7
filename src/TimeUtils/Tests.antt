-- ===== src/TimeUtils/Tests.antt =====
-- The theorems on include/TimeUtils.h at concrete times.
use jhcommon.Prelude.{◌≡◌, refl}
use jhcommon.TimeUtils.{nano, Time, get_difference}

-- half a microsecond before a second, and the second
abbrev before : Time
before = record { sec = 0; fraction = 999999500 }

abbrev after : Time
after = record { sec = 1; fraction = 0 }

-- The quotient towards 0 makes a millisecond of half a microsecond.
rounded_up : get_difference nano after before ≡ 1
unfolding get_difference
rounded_up = refl

abbrev late : Time
late = record { sec = 5; fraction = 999000 }
