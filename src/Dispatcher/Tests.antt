-- ===== src/Dispatcher/Tests.antt =====
-- Runs of src/EventDispatcher.cpp and of the loop of src/EventThread.cpp, and their theorems on a
-- concrete dispatcher.
use jhcommon.Prelude.{ℕ, true, false, ◌≡◌, refl, none, some, List, [], ◌∷◌, ◌==◌, if◌then◌else◌}
use jhcommon.Prelude.Int.{pos}
use jhcommon.Event.{Event, agent_event_id, invalid_event_id}
use jhcommon.EventQueue.{Wake, signalled, send}
use jhcommon.Timer.{Timer, event_node}
use jhcommon.Dispatcher.{
  ListenerNode, Change, remove_listener, Dispatcher, shutdown_event_id, sync_event_id, clear_first,
  lookup_from, lookup_listeners, dispatcher_send_event,
}

abbrev alarm : Event
alarm = record { address = 77; event_id = pos 5; priority = pos 0; target = 0 }

abbrev agent : Event
agent = record { address = 78; event_id = agent_event_id; priority = pos 0; target = 9 }

abbrev shutdown : Event
shutdown = record { address = 79; event_id = shutdown_event_id; priority = pos 1; target = 0 }

abbrev holder : Event
holder = record { address = 80; event_id = sync_event_id; priority = pos 0; target = 0 }

abbrev nodes : List ListenerNode
nodes =
    record { listener = some 1; event_id = pos 5 }
    ∷ record { listener = none; event_id = pos 5 }
    ∷ record { listener = some 2; event_id = pos 6 }
    ∷ record { listener = some 3; event_id = invalid_event_id }
    ∷ []

abbrev passive : ℕ → Event → List Change
passive l ev = []

-- Every listener that is called removes the listener 3.
abbrev removes : ℕ → Event → List Change
removes l ev = remove_listener 3 invalid_event_id ∷ []

abbrev idle : Timer
idle = record { running = true; ms_per_tick = 10; stoppable = false; list = []; ticks = 0 }

abbrev pending : Timer
pending = record idle { list = event_node (some alarm) (some 500) 4 0 ∷ [] }

abbrev thread : Dispatcher
thread = record {
  address = 500;
  queue = record { queue = alarm ∷ holder ∷ agent ∷ shutdown ∷ alarm ∷ []; refs = λ a. 1 };
  listeners = nodes;
  real_event = λ a. some alarm;
  done = λ a. true;
  manager = record {
    store = λ a. if a == 600 then pending else if a == 700 then pending else idle;
    default_timer = 700;
    timers = 600 ∷ [];
  };
}

-- A removal during the walk takes effect in it.
removes_run :
    lookup_listeners removes 9 alarm nodes
    ≡ some (
      record { listener = some 1; event_id = pos 5 }
          ∷ record { listener = some 2; event_id = pos 6 }
          ∷ [],
      1 ∷ [],
    )
unfolding lookup_listeners lookup_from clear_first
removes_run = refl

-- Another thread, and what is called, send one more alarm.
abbrev sends : Dispatcher → Dispatcher
sends d = dispatcher_send_event alarm d

abbrev turns : List ((Dispatcher → Dispatcher) × List Wake)
turns =
    (sends, [])
    ∷ (sends, [])
    ∷ (sends, signalled (send alarm ∷ []) ∷ [])
    ∷ (sends, [])
    ∷ (sends, [])
    ∷ []
