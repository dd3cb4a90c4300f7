-- ===== src/Timer/Tests.antt =====
-- Runs of the timer of src/Timer.cpp, and its theorems at concrete timers.
use jhcommon.Prelude.{
  ◌*◌, ◌+◌, ◌≤◌, ◌<◌, ◌≡◌, refl, none, some, List, [], ◌∷◌, ◌++◌, map, All, true, arith,
}
use jhcommon.Prelude.Int.{pos}
use jhcommon.Event.{Event, agent_event_id}
use jhcommon.Timer.{
  TimerNode, Timer, Fired, timeout, new_ticks, reschedule, listener_node, event_node, add_node,
  add_timer, add_periodic_timer, fire, fire_due, handle_tick,
}
use jhcommon.TimeUtils.{Time}
use jhcommon.Timer.Clock.{wake, CaughtUp, wake-CaughtUp}
use jhcommon.Timer.Due.{handle_tick_lem, handle_tick_once}
use jhcommon.Timer.Order.{key, SortedFrom}
use jhcommon.Timer.Remove.{remove_timed_event_id, remove_timed_event, remove_agents_by_receiver}
use jhcommon.Timer.Remove.Safe.{
  Removed, IsOf, HasEvent, remove_timed_event_lem, remove_agents_faults,
}
use jhcommon.Timer.Tick.{new_ticks_bounds}
use jhcommon.Timer.Valid.{IsValid, Added, add_timer-Added}

abbrev alarm : Event
alarm = record { address = 77; event_id = pos 5; priority = pos 0; target = 0 }

abbrev agent : Event
agent = record { address = 78; event_id = agent_event_id; priority = pos 0; target = 9 }

abbrev once : TimerNode
once = listener_node 1 1 0 40

abbrev periodic : TimerNode
periodic = listener_node 2 1 13 41

abbrev timed : TimerNode
timed = event_node (some alarm) (some 3) 4 0

abbrev timed_agent : TimerNode
timed_agent = event_node (some agent) (some 3) 2 0

abbrev clock : Timer
clock = record {
  running = true;
  ms_per_tick = 10;
  stoppable = true;
  list = once ∷ timed ∷ [];
  ticks = 0;
}

clock-IsValid : IsValid clock
clock-IsValid = omega arith

-- The tick wraps to 0 with the timers still in order.
abbrev wrapping : Timer
wrapping = record clock {
  list = record once { tick = 0 } ∷ record timed { tick = 2 } ∷ [];
  ticks = 4294967295;
}

wrapping-IsValid : IsValid wrapping
wrapping-IsValid = omega arith

abbrev mixed : Timer
mixed = record clock { list = once ∷ periodic ∷ timed ∷ [] }

mixed-IsValid : IsValid mixed
mixed-IsValid = omega arith

abbrev events : Timer
events = record clock { list = timed_agent ∷ timed ∷ [] }

events-IsValid : IsValid events
events-IsValid = omega arith

-- Four periods of 13 ms take five ticks of 10 ms, which are over before 52 ms.
early_period : (reschedule 10 (reschedule 10 (reschedule 10 (reschedule 10 periodic)))).tick ≡ 6
early_period = refl

mixed_tick :
    handle_tick 15 mixed
    ≡ some (
      record clock {
        list = record periodic { tick = 3; remaining_ms = 3 } ∷ timed ∷ [];
        ticks = 1;
      },
      timeout (some 1) 40 ∷ timeout (some 2) 41 ∷ [],
    )
unfolding handle_tick fire_due add_node
mixed_tick = refl

handle_tick_lem_example :
    (t' : Timer) × (log : List Fired) × (handle_tick 15 mixed ≡ some (t', log))
    × (t'.ticks ≡ 1)
    × IsValid t'
    × SortedFrom t'.ticks 1 t'.list
handle_tick_lem_example = handle_tick_lem 15 mixed-IsValid (omega arith)

handle_tick_once_example :
    (due : List TimerNode) × (rest : List TimerNode) × (wrapping.list ≡ due ++ rest)
    × (handle_tick 3 wrapping ≡ some (record wrapping { ticks = 0; list = rest }, map fire due))
    × All (λ n. key 4294967295 n ≤ 1) due
    × All (λ n. 1 < key 4294967295 n) rest
handle_tick_once_example = handle_tick_once 3 wrapping-IsValid (refl, (refl, tt)) (omega arith)

new_ticks_bounds_example :
    (13 ≤ new_ticks 10 periodic * 10 + 0) × (new_ticks 10 periodic * 10 + 0 < 13 + 10)
new_ticks_bounds_example = new_ticks_bounds 10 periodic (omega arith)

add_timer-Added_example :
    (t₁ : Timer) × (t₂ : Timer) × (add_timer (some 8) 25 42 wrapping ≡ some t₁)
    × Added wrapping (listener_node 8 4294967298 0 42) 25 t₁
    × (add_periodic_timer (some 8) 25 42 wrapping ≡ some t₂)
    × Added wrapping (listener_node 8 4294967298 25 42) 25 t₂
add_timer-Added_example = add_timer-Added 25 wrapping-IsValid (omega arith) 8 42

remove_timed_event_lem_example :
    IsValid (remove_timed_event_id (pos 5) (some 3) events)
    × Removed
        (IsOf (pos 5) (some 3))
        events.list
        (remove_timed_event_id (pos 5) (some 3) events).list
    × IsValid (remove_timed_event (some 78) events)
    × Removed (HasEvent (some 78)) events.list (remove_timed_event (some 78) events).list
remove_timed_event_lem_example = remove_timed_event_lem (pos 5) (some 3) (some 78) events-IsValid

remove_agents_faults_example : remove_agents_by_receiver 9 (some 3) mixed ≡ none
remove_agents_faults_example =
    remove_agents_faults 9 (some 3) mixed [] (periodic ∷ timed ∷ []) once refl refl

-- The clock wakes up 35 ms behind the start that it counts from, over the end of a second.
abbrev clock_start : Time
clock_start = record { sec = 7; fraction = 980000000 }

abbrev clock_now : Time
clock_now = record { sec = 8; fraction = 15000000 }

wake-CaughtUp_example :
    CaughtUp 10 clock clock_start clock_now (wake 10001 clock_start clock_now clock_now clock)
wake-CaughtUp_example =
    wake-CaughtUp clock_start clock_now clock_now clock-IsValid
      (record {
        start-IsNormal = omega arith;
        cur-IsNormal = omega arith;
        in_order = omega arith;
        near = omega arith;
      })
      (omega arith)
