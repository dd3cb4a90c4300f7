-- ===== src/EventQueue/Tests.antt =====
-- Runs of src/EventQueue.cpp, and its theorems at concrete queues.
use jhcommon.Prelude.{◌+◌, ◌≤◌, ◌≡◌, refl, [], ◌∷◌, arith}
use jhcommon.Prelude.Int.{pos, negsuc}
use jhcommon.Event.{Event, agent_event_id}
use jhcommon.EventQueue.{EventQueue, send, poll, remove_by_id, send_event, run, step}
use jhcommon.EventQueue.Sorted.{Placed, IsOrdered}
use jhcommon.EventQueue.Order.{send_event-Placed, run-IsOrdered}
use jhcommon.EventQueue.Refs.{step_refs, held, taken}

abbrev normal : Event
normal = record { address = 1; event_id = pos 5; priority = pos 0; target = 0 }

abbrev high : Event
high = record { address = 2; event_id = pos 6; priority = pos 1; target = 0 }

abbrev agent : Event
agent = record { address = 3; event_id = agent_event_id; priority = pos 0; target = 9 }

abbrev low : Event
low = record { address = 4; event_id = pos 5; priority = negsuc 0; target = 0 }

abbrev two : EventQueue
two = record { queue = high ∷ normal ∷ []; refs = λ a. 2 }

two-IsOrdered : IsOrdered two
two-IsOrdered = ((((refl, tt)), (tt, tt)), (refl, (refl, tt)))

send_event-Placed_example : Placed high two.queue (send_event high two).queue
send_event-Placed_example = send_event-Placed high two two-IsOrdered refl

run-IsOrdered_example :
    IsOrdered (run (send agent ∷ poll ∷ remove_by_id (pos 5) ∷ send high ∷ []) two)
run-IsOrdered_example =
    run-IsOrdered (send agent ∷ poll ∷ remove_by_id (pos 5) ∷ send high ∷ []) two
      (refl, (tt, (tt, (refl, tt)))) two-IsOrdered

step_refs_example :
    ((step poll two).refs 2 + held 2 two.queue
      ≡ two.refs 2 + held 2 (step poll two).queue + taken 2 poll two)
    × (held 2 (step poll two).queue ≤ (step poll two).refs 2)
step_refs_example = step_refs 2 poll two (omega arith)

abbrev empty : EventQueue
empty = record { queue = []; refs = λ a. 2 }

-- An event of normal priority is queued behind one of a negative priority.
behind_low :
    (send_event normal (record { queue = low ∷ []; refs = λ a. 1 })).queue ≡ low ∷ normal ∷ []
unfolding send_event
behind_low = refl
