-- ===== src/EventQueue/Wait.antt =====
-- `WaitEvent` of src/EventQueue.cpp, with the wake-ups of its condition as a list.
use jhcommon.Prelude.{◌≡◌, List, [], ◌∷◌, Option, none, some}
use jhcommon.Event.{Event}
use jhcommon.EventQueue.{EventQueue, Op, Wake, signalled, timed_out, run, wait_loop, wait_event}

-- What a wait without a timeout may answer.
abbrev pub GivesEvent : Option (Option Event × EventQueue) → Type 0
GivesEvent none = Unit {0}
GivesEvent (some (none, q)) = ⊥
GivesEvent (some (some e, q)) = Unit {0}

on_signal :
    (es : List Event) (q : EventQueue) (rest : Option (Option Event × EventQueue))
    → GivesEvent rest
    → GivesEvent (elim es [ [] ↦ rest | e ∷ es ↦ some (some e, record q { queue = es }) ])
on_signal [] q rest g = g
on_signal (e ∷ es) q rest g = tt

wait_loop_forever : (wakes : List Wake) (q : EventQueue) → GivesEvent (wait_loop 0 wakes q)
unfolding wait_loop
wait_loop_forever [] q = tt
wait_loop_forever (signalled ops ∷ wakes) q =
    on_signal (run ops q).queue (run ops q) (wait_loop 0 wakes (run ops q))
      (wait_loop_forever wakes (run ops q))
wait_loop_forever (timed_out ops ∷ wakes) q = wait_loop_forever wakes (run ops q)

-- What `WaitEvent` with a timeout answers: the first event, once the queue is found not empty, at the
-- start or at a signal; or NULL, once a wait times out, with the queue as the calls left it.
pub data Answers : List Wake → EventQueue → Option Event × EventQueue → Type 0 where
  first :
      {wakes : List Wake} {q : EventQueue} {e : Event} {es : List Event}
      → q.queue ≡ e ∷ es
      → Answers wakes q (some e, record q { queue = es })
  signal :
      {ops : List Op} {wakes : List Wake} {q : EventQueue} {r : Option Event × EventQueue}
      → q.queue ≡ []
      → Answers wakes (run ops q) r
      → Answers (signalled ops ∷ wakes) q r
  timeout :
      {ops : List Op} {wakes : List Wake} {q : EventQueue}
      → q.queue ≡ []
      → Answers (timed_out ops ∷ wakes) q (none, run ops q)

abbrev pub Returns : List Wake → EventQueue → Option (Option Event × EventQueue) → Type 0
Returns wakes q o = (r : Option Event × EventQueue) × (o ≡ some r) × Answers wakes q r

-- With a timeout of 0, `WaitEvent` never answers NULL: it goes on until it has an event.
pub wait_event_forever : (wakes : List Wake) (q : EventQueue) → GivesEvent (wait_event 0 wakes q)
unfolding wait_event
wait_event_forever wakes q = on_signal q.queue q (wait_loop 0 wakes q) (wait_loop_forever wakes q)
