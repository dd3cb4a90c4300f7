-- ===== src/Timer.antt =====
-- src/Timer.cpp and include/Timer.h: the list of pending timers, sorted by tick, and the tick.
-- Ticks and milliseconds are `uint32_t`, and `mMsPerTick` a non-negative `int`, so all their
-- arithmetic is modulo 2^32. `none` is an abort, the fault of a division by a tick time of 0, or
-- the end of the fuel. A callback that adds timers while a tick runs is not modelled.
pub mod Remove
mod Tests
pub mod Order
pub mod Tick
pub mod Valid
pub mod Due
pub mod Clock
use jhcommon.Prelude.{
  ℕ, zero, suc, ◌+◌, ◌-◌, ◌/◌, ◌%◌, ◌^◌, Bool, true, false, ◌&&◌, not, Option, none, some, List, [],
  ◌∷◌, ltb, leb, ◌==◌, if◌then◌else◌, ◌>>=◌,
}
use jhcommon.Prelude.Int.{ℤ, pos, negsuc}
use jhcommon.Event.{Event}

abbrev pub u32 : ℕ
u32 = 2 ^ 32

abbrev pub i32_limit : ℕ
i32_limit = 2 ^ 31

-- `a - b` as a `uint32_t`; as an `int32_t` it is negative from `i32_limit` on.
abbrev pub diff : ℕ → ℕ → ℕ
diff a b = (a + u32 - b) % u32

pub record TimerNode : Type 0 where
  pub event : Option Event
  pub dispatcher : Option ℕ
  pub listener : Option ℕ
  pub private_data : ℕ
  pub tick : ℕ
  pub repeat_ms : ℕ
  pub remaining_ms : ℕ

pub record Timer : Type 0 where
  -- `mClockThread != NULL`
  pub running : Bool
  pub ms_per_tick : ℕ
  pub stoppable : Bool
  pub list : List TimerNode
  pub ticks : ℕ

-- What a due timer does: a call of the listener, or an event for the dispatcher.
pub data Fired : Type 0 where
  timeout : Option ℕ → ℕ → Fired
  sent : Option ℕ → Event → Fired

abbrev pub reset : Timer → Timer
reset t = record t { ticks = 0; list = [] }

abbrev pub start : Timer → Timer
start t = if t.running then t else record t { ticks = 0; list = []; running = true }

abbrev pub do_stop : Timer → Timer
do_stop t = record t { running = false }

abbrev pub stop : Timer → Timer
stop t = if t.stoppable then do_stop t else t

-- A negative tick time means 100 ms.
abbrev pub init_ms : ℤ → ℕ
init_ms (pos ms) = ms
init_ms (negsuc n) = 100

pub init : ℤ → Bool → Timer
init tick_time stoppable = start (record {
  running = false;
  ms_per_tick = init_ms tick_time;
  stoppable = stoppable;
  list = [];
  ticks = 0;
})

-- `addTimerNode`: before the first node whose tick is later.
unfoldable pub add_node : TimerNode → List TimerNode → List TimerNode
add_node new [] = new ∷ []
add_node new (x ∷ xs) =
    if leb i32_limit (diff new.tick x.tick) then new ∷ x ∷ xs else x ∷ add_node new xs

abbrev pub add_timer_node : TimerNode → Timer → Timer
add_timer_node n t = record t { list = add_node n t.list }

-- `( msecs + mMsPerTick - 1 ) / mMsPerTick`
abbrev pub ticks_for : ℕ → ℕ → ℕ
ticks_for ms msecs = ((msecs + ms + u32 - 1) % u32) / ms

abbrev pub listener_node : ℕ → ℕ → ℕ → ℕ → TimerNode
listener_node listener tick repeat data' = record {
  event = none;
  dispatcher = none;
  listener = some listener;
  private_data = data';
  tick = tick % u32;
  repeat_ms = repeat;
  remaining_ms = 0;
}

abbrev pub event_node : Option Event → Option ℕ → ℕ → ℕ → TimerNode
event_node event dispatcher tick repeat = record {
  event = event;
  dispatcher = dispatcher;
  listener = none;
  private_data = 0;
  tick = tick % u32;
  repeat_ms = repeat;
  remaining_ms = 0;
}

pub add_timer : Option ℕ → ℕ → ℕ → Timer → Option Timer
add_timer none msecs data' t = none
add_timer (some listener) msecs data' t =
    if t.ms_per_tick == 0
    then none
    else some (
        add_timer_node (listener_node listener (t.ticks + ticks_for t.ms_per_tick msecs) 0 data') t)

pub add_periodic_timer : Option ℕ → ℕ → ℕ → Timer → Option Timer
add_periodic_timer none period data' t = none
add_periodic_timer (some listener) period data' t =
    if t.ms_per_tick == 0
    then none
    else some (
        add_timer_node
          (listener_node listener (t.ticks + ticks_for t.ms_per_tick period) period data') t)

pub send_timed_event : Option Event → Option ℕ → ℕ → Timer → Option Timer
send_timed_event event dispatcher msecs t =
    if t.ms_per_tick == 0
    then none
    else some
        (add_timer_node (event_node event dispatcher (t.ticks + ticks_for t.ms_per_tick msecs) 0) t)

pub send_periodic_event : Option Event → Option ℕ → ℕ → Timer → Option Timer
send_periodic_event event dispatcher period t =
    if t.ms_per_tick == 0
    then none
    else some (
        add_timer_node
          (event_node event dispatcher (t.ticks + ticks_for t.ms_per_tick period) period) t)

-- the listener's call or the event of a due node
abbrev pub fire_event : Option Event → TimerNode → Fired
fire_event none n = timeout n.listener n.private_data
fire_event (some e) n = sent n.dispatcher e

abbrev pub fire : TimerNode → Fired
fire n = fire_event n.event n

-- `newTicks` of a periodic node
abbrev pub new_ticks : ℕ → TimerNode → ℕ
new_ticks ms n = ((n.repeat_ms + ms + u32 - 1 + u32 - n.remaining_ms) % u32) / ms

abbrev pub reschedule : ℕ → TimerNode → TimerNode
reschedule ms n = record n {
  tick = (n.tick + new_ticks ms n) % u32;
  remaining_ms = ((n.repeat_ms + n.remaining_ms) % u32) % ms;
}

-- `diff > 0` in the loop of `handleTick`
abbrev pub in_future : ℕ → TimerNode → Bool
in_future ticks n = ltb 0 (diff n.tick ticks) && ltb (diff n.tick ticks) i32_limit

-- the list behind a fired node
abbrev pub requeue : ℕ → TimerNode → List TimerNode → List TimerNode
requeue ms n rest = if n.repeat_ms == 0 then rest else add_node (reschedule ms n) rest

-- The while loop of `handleTick`, with the fired timers in order.
pub fire_due : ℕ → ℕ → ℕ → List TimerNode → Option (List TimerNode × List Fired)
fire_due zero ms ticks l = none
fire_due (suc fuel) ms ticks [] = some ([], [])
fire_due (suc fuel) ms ticks (n ∷ rest) =
    let next = fire_due fuel ms ticks (requeue ms n rest) in
    if in_future ticks n
    then some (n ∷ rest, [])
    else if ms == 0 && not (n.repeat_ms == 0)
    then none
    else (do r ← next; some (r.0, fire n ∷ r.1))

pub handle_tick : ℕ → Timer → Option (Timer × List Fired)
handle_tick fuel t =
    let now = (t.ticks + 1) % u32 in
    do r ← fire_due fuel t.ms_per_tick now t.list; some (record t { ticks = now; list = r.0 }, r.1)
