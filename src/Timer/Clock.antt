-- ===== src/Timer/Clock.antt =====
-- One wake-up of the clock thread of src/Timer.cpp: `clockHandler` after its wait of a tick. The
-- times that `getCurTime` gives are arguments. A round of fuel is given for each tick that is due.
use jhcommon.Prelude.{
  ℕ, zero, suc, ◌+◌, ◌*◌, ◌%◌, ◌≤◌, ◌<◌, ◌≡◌, refl, Bool, true, false, ◌&&◌, ◌||◌, Bool-cases, inl,
  inr, Option, none, some, List, [], ◌++◌, ltb, leb, ◌>>=◌, arith,
}
use native.Mathlib.Nat.{suc-mul}
use jhcommon.Prelude.Int.{pos}
use jhcommon.TimeUtils.{nano, Time, get_difference, add_offset}
use jhcommon.TimeUtils.Offset.{IsNormal, value, get_difference_bounds, add_offset-later}
use jhcommon.Timer.{Timer, Fired, u32, i32_limit, handle_tick}
use jhcommon.Timer.Due.{handle_tick_lem}
use jhcommon.Timer.Tick.{total}
use jhcommon.Timer.Valid.{IsValid}

-- `handleTick`, with a round of fuel for each time that a pending timer can fire
unfoldable pub tick : Timer → Option (Timer × List Fired)
tick t = handle_tick (suc (total t.ticks t.ms_per_tick t.list)) t

-- `getDifference( &cur, &start ) > mMsPerTick`
abbrev pub is_late : ℕ → Time → Time → Bool
is_late ms start cur = let d = get_difference nano cur start in ltb d i32_limit && ltb ms d

-- What a wake-up leaves: `start`, the timer and what fired.
pub record Woken : Type 0 where
  pub start : Time
  pub timer : Timer
  pub log : List Fired

abbrev pub prepend : List Fired → Woken → Woken
prepend log w = record w { log = log ++ w.log }

unfoldable pub catch_up : ℕ → ℕ → Time → Time → Timer → Option Woken
catch_up zero ms start cur t = none
catch_up (suc fuel) ms start cur t = elim (is_late ms start cur) [
  | false ↦ some (record { start = start; timer = t; log = [] })
  | true ↦ (do
    r ← tick t
    w ← catch_up fuel ms (add_offset nano (pos ms) start) cur r.0
    some (prepend r.1 w))
]

-- the clock was set back, or jumped forward by more than 10 seconds
abbrev pub has_jumped : Time → Time → Bool
has_jumped start cur = let d = get_difference nano cur start in leb i32_limit d || ltb 10000 d

-- `now` is the time of the second `getCurTime`.
unfoldable pub wake : ℕ → Time → Time → Time → Timer → Option Woken
wake fuel start cur now t = elim (has_jumped start cur) [
  | true ↦ (do r ← tick t; some (record { start = now; timer = r.0; log = r.1 }))
  | false ↦ catch_up fuel t.ms_per_tick start cur t
]

-- The clock has counted ticks since a start, and is less than a tick and a millisecond behind.
pub record CaughtUp (ms : ℕ) (t : Timer) (start cur : Time) (w : Option Woken) : Type 0 where
  pub ticks : ℕ
  pub after : Woken
  pub gives : w ≡ some after
  pub counted : after.timer.ticks ≡ (t.ticks + ticks) % u32
  pub no_drift : value nano after.start ≡ value nano start + (ticks * ms) * 1000000
  pub not_ahead : value nano after.start ≤ value nano cur
  pub not_behind : value nano cur < value nano after.start + (ms + 1) * 1000000
  pub valid : IsValid after.timer

-- The times of a wake-up: normal, in order, and near each other.
pub record IsNear (start cur : Time) : Type 0 where
  pub start-IsNormal : IsNormal nano start
  pub cur-IsNormal : IsNormal nano cur
  pub in_order : value nano start ≤ value nano cur
  pub near : cur.sec < start.sec + 2000000

late_lem :
    (ms : ℕ) (start cur : Time)
    → IsNear start cur
    → is_late ms start cur ≡ true
    → value nano start + ms * 1000000 < value nano cur
late_lem ms start cur n late =
    let b =
      get_difference_bounds nano cur start n.cur-IsNormal n.start-IsNormal n.in_order n.near in
    ground arith

on_time_lem :
    (ms : ℕ) (start cur : Time)
    → IsNear start cur
    → is_late ms start cur ≡ false
    → value nano cur < value nano start + (ms + 1) * 1000000
on_time_lem ms start cur n late =
    let b =
      get_difference_bounds nano cur start n.cur-IsNormal n.start-IsNormal n.in_order n.near in
    let in_order = n.in_order in let near = n.near in ground arith

next-IsNear :
    (ms : ℕ) (start cur : Time)
    → IsNear start cur
    → value nano start + ms * 1000000 < value nano cur
    → IsNear (add_offset nano (pos ms) start) cur
next-IsNear ms start cur n late =
    let l = add_offset-later nano ms start n.start-IsNormal in
    let s = n.start-IsNormal in
    let near = n.near in
    record {
      start-IsNormal = l.0;
      cur-IsNormal = n.cur-IsNormal;
      in_order = omega arith;
      near = omega arith;
    }

catch_up-CaughtUp :
    (fuel ms : ℕ) (start cur : Time) (t : Timer)
    → 0 < ms
    → IsValid t
    → IsNear start cur
    → value nano cur < value nano start + fuel * 1000000
    → CaughtUp ms t start cur (catch_up fuel ms start cur t)
unfolding catch_up tick
catch_up-CaughtUp zero ms start cur t pos_ms v n f = let o = n.in_order in absurd (omega arith)
catch_up-CaughtUp (suc fuel) ms start cur t pos_ms v n f =
    elim (Bool-cases (is_late ms start cur)) [
      | inl late ↦
          let step = late_lem ms start cur n late in
          let next = add_offset nano (pos ms) start in
          let l = add_offset-later nano ms start n.start-IsNormal in
          let (t', log, e, count, v', _) =
            handle_tick_lem (suc (total t.ticks t.ms_per_tick t.list)) v (omega arith) in
          let r =
            catch_up-CaughtUp fuel ms next cur t' pos_ms v' (next-IsNear ms start cur n step)
              (omega arith) in
          let drift = r.no_drift in
          let counted = r.counted in
          let more = suc-mul r.ticks ms in
          record {
            ticks = suc r.ticks;
            after = prepend log r.after;
            gives = rw (catch_up, late, e, r.gives) refl;
            counted = omega arith;
            no_drift = omega arith;
            not_ahead = r.not_ahead;
            not_behind = r.not_behind;
            valid = r.valid;
          }
      | inr late ↦ record {
        ticks = 0;
        after = record { start = start; timer = t; log = [] };
        gives = rw (catch_up, late) refl;
        counted = let i = v.ticks_in in omega arith;
        no_drift = omega arith;
        not_ahead = n.in_order;
        not_behind = on_time_lem ms start cur n late;
        valid = v;
      }
    ]

-- A wake-up of the clock thread less than ten seconds behind the start that it counts from ends,
-- with a round of fuel for each millisecond of them and one more. It counts as many ticks as it
-- moves the start on by tick times, so the clock does not drift. The start is then not ahead of the
-- present, and less than a tick and a millisecond behind it, and the timer is valid.
pub wake-CaughtUp :
    (start cur now : Time) {t : Timer}
    → IsValid t
    → IsNear start cur
    → value nano cur < value nano start + 10000 * 1000000
    → CaughtUp t.ms_per_tick t start cur (wake 10001 start cur now t)
unfolding wake
wake-CaughtUp start cur now {t} v n h =
    let b =
      get_difference_bounds nano cur start n.cur-IsNormal n.start-IsNormal n.in_order n.near in
    let jumped : has_jumped start cur ≡ false = ground arith in
    rw (wake, jumped)
      (catch_up-CaughtUp 10001 t.ms_per_tick start cur t v.tick_time v n (omega arith))
