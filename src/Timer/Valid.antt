-- ===== src/Timer/Valid.antt =====
-- The state of a timer between two ticks, and what adding a timer does to it (src/Timer.cpp).
use jhcommon.Prelude.{
  ℕ, ◌+◌, ◌-◌, ◌*◌, ◌%◌, ◌≤◌, ◌<◌, ◌≡◌, refl, Option, some, ◌==◌, false, All, arith,
}
use jhcommon.Event.{Event}
use jhcommon.Timer.{
  TimerNode, Timer, add_timer_node, u32, i32_limit, ticks_for, listener_node, event_node, add_timer,
  add_periodic_timer, send_timed_event, send_periodic_event,
}
use jhcommon.Timer.Order.{key, SortedFrom, add_node-SortedFrom, Inserted, add_node-Inserted}
use jhcommon.Timer.Tick.{IsReady, All-add_node}

pub record IsValid (t : Timer) : Type 0 where
  pub tick_time : 0 < t.ms_per_tick
  pub ticks_in : t.ticks < u32
  pub sorted : SortedFrom t.ticks 0 t.list
  pub ready : All (IsReady t.ms_per_tick) t.list

-- The ticks that a time takes: the least number whose ticks last as long, for times whose sum with the tick
-- time stays below 2^31.
pub ticks_for_bounds :
    (ms msecs : ℕ)
    → 0 < ms
    → msecs + ms < i32_limit
    → (msecs ≤ ticks_for ms msecs * ms)
      × (ticks_for ms msecs * ms < msecs + ms)
      × (ticks_for ms msecs < i32_limit)
ticks_for_bounds ms msecs pos h =
    let m : (msecs + ms + u32 - 1) % u32 ≡ msecs + ms - 1 = omega arith in rw m (grind arith)

-- What adding the node `n` for a time of `msecs` does: it is due after the least number of ticks that lasts as
-- long, behind the timers due at the same tick, and nothing else of the list changes.
pub record Added (t : Timer) (n : TimerNode) (msecs : ℕ) (t' : Timer) : Type 0 where
  pub valid : IsValid t'
  pub ticks_kept : t'.ticks ≡ t.ticks
  pub place : Inserted t.ticks n t.list t'.list
  pub not_early : msecs ≤ key t.ticks n * t.ms_per_tick
  pub not_late : key t.ticks n * t.ms_per_tick < msecs + t.ms_per_tick

add_timer_node-Added :
    (t : Timer) (n : TimerNode) (msecs : ℕ)
    → IsValid t
    → msecs + t.ms_per_tick < i32_limit
    → n.tick ≡ (t.ticks + ticks_for t.ms_per_tick msecs) % u32
    → IsReady t.ms_per_tick n
    → Added t n msecs (add_timer_node n t)
add_timer_node-Added t n msecs v h e r =
    let b = ticks_for_bounds t.ms_per_tick msecs v.tick_time h in
    let k = ahead (ticks_for t.ms_per_tick msecs) n.tick b.2 e in
    record {
      valid = record {
        tick_time = v.tick_time;
        ticks_in = v.ticks_in;
        sorted = add_node-SortedFrom t.ticks 0 n t.list v.ticks_in k.0 (omega arith) v.sorted;
        ready = All-add_node (IsReady t.ms_per_tick) n t.list r v.ready;
      };
      ticks_kept = refl;
      place = add_node-Inserted t.ticks 0 n t.list v.ticks_in k.0 v.sorted;
      not_early = rw k.1 b.0;
      not_late = rw k.1 b.1;
    }
  where
    ahead :
        (g tick : ℕ)
        → g < i32_limit
        → tick ≡ (t.ticks + g) % u32
        → ((tick < u32) × ((tick + u32 - t.ticks) % u32 < i32_limit))
          × ((tick + u32 - t.ticks) % u32 ≡ g)
    ahead g tick h e = omega (arith, v.ticks_in)

module _ (msecs : ℕ) {t : Timer} (v : IsValid t) (h : msecs + t.ms_per_tick < i32_limit) where
  -- `addTimer` and `addPeriodicTimer` with a listener add one node for it; the
  -- periodic one fires again after `msecs`.
  pub add_timer-Added :
      (listener data' : ℕ)
      → let n = listener_node listener (t.ticks + ticks_for t.ms_per_tick msecs) in
        (t₁ : Timer) × (t₂ : Timer) × (add_timer (some listener) msecs data' t ≡ some t₁)
        × Added t (n 0 data') msecs t₁
        × (add_periodic_timer (some listener) msecs data' t ≡ some t₂)
        × Added t (n msecs data') msecs t₂
  unfolding add_timer add_periodic_timer
  add_timer-Added listener data' =
      let test : (t.ms_per_tick == 0) ≡ false = ground (arith, v.tick_time) in
      (
        _,
        _,
        rw test,
        add_timer_node-Added t _ msecs v h refl (omega (arith, v.tick_time)),
        rw test,
        add_timer_node-Added t _ msecs v h refl (omega (arith, v.tick_time)),
      )

  -- So do `sendTimedEvent` and `sendPeriodicEvent` for an event and a dispatcher.
  pub send_event-Added :
      (event : Option Event) (dispatcher : Option ℕ)
      → let n = event_node event dispatcher (t.ticks + ticks_for t.ms_per_tick msecs) in
        (t₁ : Timer) × (t₂ : Timer) × (send_timed_event event dispatcher msecs t ≡ some t₁)
        × Added t (n 0) msecs t₁
        × (send_periodic_event event dispatcher msecs t ≡ some t₂)
        × Added t (n msecs) msecs t₂
  unfolding send_timed_event send_periodic_event
  send_event-Added event dispatcher =
      let test : (t.ms_per_tick == 0) ≡ false = ground (arith, v.tick_time) in
      (
        _,
        _,
        rw test,
        add_timer_node-Added t _ msecs v h refl (omega (arith, v.tick_time)),
        rw test,
        add_timer_node-Added t _ msecs v h refl (omega (arith, v.tick_time)),
      )
