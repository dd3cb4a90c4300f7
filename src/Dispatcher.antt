-- ===== src/Dispatcher.antt =====
-- src/EventDispatcher.cpp and the loop of src/EventThread.cpp: the listeners of a dispatcher, the handling of its events, and the calls
-- that its own thread makes on its queue and its timers. A call from another thread is sent to that
-- thread as an agent event, and is the same call there. What a listener does when it is called
-- (adding and removing listeners, under the same recursive lock) is the parameter `react`.
pub mod Lookup
pub mod Main
pub mod Queue
pub mod Removal
mod Tests
use jhcommon.Prelude.{
  ℕ, zero, suc, Bool, true, false, ◌&&◌, ◌||◌, Option, none, some, List, [], ◌∷◌, ◌++◌, ◌==◌,
  if◌then◌else◌, ◌>>=◌,
}
use jhcommon.Prelude.Int.{ℤ, negsuc, int_eq}
use jhcommon.Event.{Event, invalid_event_id, agent_event_id, ptr_eq}
use jhcommon.EventQueue.{
  EventQueue, Wake, wait_event, add_ref, release, send_event, remove_id, remove_event,
  remove_agents, flush,
}
use jhcommon.Timer.{Timer, send_timed_event, send_periodic_event}
use jhcommon.TimerManager.{
  TimerManager, get_default_timer, update, manager_remove_id, manager_remove_event,
  manager_remove_agents,
}

pub record ListenerNode : Type 0 where
  -- none for a listener that was removed
  pub listener : Option ℕ
  pub event_id : ℤ

-- what a listener may do while it is called
pub data Change : Type 0 where
  add_listener : ℕ → ℤ → Change
  remove_listener : ℕ → ℤ → Change

abbrev pub is_node : ℕ → ℤ → ListenerNode → Bool
is_node listener id n = int_eq n.event_id id && ptr_eq n.listener (some listener)

-- the loop of `removeEventListener`, with whether it found the node
unfoldable pub clear_first : ℕ → ℤ → List ListenerNode → Bool × List ListenerNode
clear_first listener id [] = (false, [])
clear_first listener id (n ∷ ns) =
    if is_node listener id n
    then (true, record n { listener = none } ∷ ns)
    else (let r = clear_first listener id ns in (r.0, n ∷ r.1))

abbrev pub add_event_listener : ℕ → ℤ → List ListenerNode → List ListenerNode
add_event_listener listener id ns = ns ++ record { listener = some listener; event_id = id } ∷ []

-- The nodes that the walk of `lookupListeners` has passed, and those that are still before it.
pub record Walk : Type 0 where
  pub passed : List ListenerNode
  pub ahead : List ListenerNode

abbrev pub change : Change → Walk → Walk
change (add_listener listener id) w = record w { ahead = add_event_listener listener id w.ahead }
change (remove_listener listener id) w =
    if (clear_first listener id w.passed).0
    then record w { passed = (clear_first listener id w.passed).1 }
    else record w { ahead = (clear_first listener id w.ahead).1 }

abbrev pub changes : List Change → Walk → Walk
changes [] w = w
changes (c ∷ cs) w = changes cs (change c w)

abbrev pub wants : Event → ListenerNode → Bool
wants ev n = int_eq n.event_id ev.event_id || int_eq n.event_id invalid_event_id

module _ (react : ℕ → Event → List Change) where
  -- The walk, with the listeners called in order; none when the fuel ends.
  unfoldable pub lookup_from :
      ℕ → Event → List ListenerNode → List ListenerNode → Option (List ListenerNode × List ℕ)
  lookup_from zero ev passed ahead = none
  lookup_from (suc fuel) ev passed [] = some (passed, [])
  lookup_from (suc fuel) ev passed (n ∷ rest) = elim n.listener [
    | none ↦ lookup_from fuel ev passed rest
    | some l ↦ elim (wants ev n) [
      | false ↦ lookup_from fuel ev (passed ++ n ∷ []) rest
      | true ↦
          let w = changes (react l ev) (record { passed = passed ++ n ∷ []; ahead = rest }) in
          (do r ← lookup_from fuel ev w.passed w.ahead; some (r.0, l ∷ r.1))
    ]
  ]

  unfoldable pub lookup_listeners :
      ℕ → Event → List ListenerNode → Option (List ListenerNode × List ℕ)
  lookup_listeners fuel ev ns = lookup_from fuel ev [] ns

-- what the dispatch of one event does
pub data Outcome : Type 0 where
  -- an agent, which delivers itself
  delivered : Event → Outcome
  -- the calls of listeners
  called : List ℕ → Outcome

-- A dispatcher, with the manager of the timers that all dispatchers share.
pub record Dispatcher : Type 0 where
  pub address : ℕ
  pub queue : EventQueue
  pub listeners : List ListenerNode
  -- `mRealEvent` and `mDone` of the holder at an address, none where there is no holder
  pub real_event : ℕ → Option Event
  pub done : ℕ → Bool
  pub manager : TimerManager

abbrev pub shutdown_event_id : ℤ
shutdown_event_id = negsuc 1

abbrev pub sync_event_id : ℤ
sync_event_id = negsuc 2

abbrev pub dispatcher_send_event : Event → Dispatcher → Dispatcher
dispatcher_send_event ev d = record d { queue = send_event ev d.queue }

abbrev pub holder_event : ℕ → Event → Event
holder_event holder ev = record {
  address = holder;
  event_id = sync_event_id;
  priority = ev.priority;
  target = 0;
}

-- The part of `sendEventSync` before its wait, with the holder at an address, which is counted in the
-- event that it points to.
unfoldable pub send_event_sync : ℕ → Event → Dispatcher → Dispatcher
send_event_sync holder ev d = record d {
  queue =
      send_event (holder_event holder ev)
        (record d.queue { refs = add_ref ev.address d.queue.refs });
  real_event = λ a. if a == holder then some ev else d.real_event a;
  done = λ a. if a == holder then false else d.done a;
}

-- the given timer, or the default one for NULL
abbrev pub dispatcher_timer : Option ℕ → Dispatcher → ℕ
dispatcher_timer none d = get_default_timer d.manager
dispatcher_timer (some p) d = p

abbrev pub with_timer : ℕ → Timer → Dispatcher → Dispatcher
with_timer p t d = record d { manager = record d.manager { store = update p t d.manager.store } }

pub dispatcher_send_timed_event : Option Event → ℕ → Option ℕ → Dispatcher → Option Dispatcher
dispatcher_send_timed_event ev msecs timer d =
    let p = dispatcher_timer timer d in
    (do t ← send_timed_event ev (some d.address) msecs (d.manager.store p); some (with_timer p t d))

pub dispatcher_send_periodic_event : Option Event → ℕ → Option ℕ → Dispatcher → Option Dispatcher
dispatcher_send_periodic_event ev msecs timer d =
    let p = dispatcher_timer timer d in
    (do
      t ← send_periodic_event ev (some d.address) msecs (d.manager.store p)
      some (with_timer p t d))

unfoldable pub dispatcher_remove_id : ℤ → Dispatcher → Dispatcher
dispatcher_remove_id id d = record d {
  manager = manager_remove_id id (some d.address) d.manager;
  queue = remove_id id d.queue;
}

unfoldable pub dispatcher_remove_event : ℕ → Dispatcher → Dispatcher
dispatcher_remove_event ev d = record d {
  manager = manager_remove_event (some ev) d.manager;
  queue = remove_event ev d.queue;
}

-- none where a timer reads through NULL
pub dispatcher_remove_agents : ℕ → Dispatcher → Option Dispatcher
dispatcher_remove_agents recipient d = do
  m ← manager_remove_agents recipient (some d.address) d.manager
  some (record d { manager = m; queue = remove_agents recipient d.queue })

unfoldable pub remove_all : Dispatcher → Dispatcher
remove_all d = record d {
  manager = manager_remove_id invalid_event_id (some d.address) d.manager;
  queue = flush d.queue;
}

abbrev pub mark : ℕ → (ℕ → Bool) → ℕ → Bool
mark holder done a = if a == holder then true else done a

abbrev pub release_event : Event → Dispatcher → Dispatcher
release_event ev d = record d { queue = record d.queue { refs = release ev.address d.queue.refs } }

module _ (react : ℕ → Event → List Change) where
  -- `dispatchEvent` of an event that is not NULL. An event with the agents' id is an agent.
  unfoldable pub dispatch_event :
      ℕ → Event → List ListenerNode → Option (List ListenerNode × Outcome)
  dispatch_event fuel ev ns =
      if int_eq ev.event_id agent_event_id
      then some (ns, delivered ev)
      else (do r ← lookup_listeners react fuel ev ns; some (r.0, called r.1))

-- `act` is what the delivery of the agent, or the listeners that were called, do to the dispatcher besides
-- what `react` has: events that are sent or removed, timers, and listeners that a delivery changes.
module _ (react : ℕ → Event → List Change) (act : Outcome → Dispatcher → Dispatcher) where
  abbrev pub dispatch_in : ℕ → Event → Dispatcher → Option (Dispatcher × Outcome)
  dispatch_in fuel ev d = do
    r ← dispatch_event react fuel ev d.listeners
    some (act r.1 (record d { listeners = r.0 }), r.1)

  -- An event with the holders' id that is not a holder aborts.
  abbrev pub handle_sync_event : ℕ → Event → Dispatcher → Option (Dispatcher × Outcome)
  handle_sync_event fuel ev d = do
    inner ← d.real_event ev.address
    r ← dispatch_in fuel inner d
    some (record r.0 { done = mark ev.address r.0.done }, r.1)

  -- With whether the thread is done. A removal of everything calls no listener.
  unfoldable pub handle_event : ℕ → Event → Dispatcher → Option (Bool × Outcome × Dispatcher)
  handle_event fuel ev d =
      if int_eq ev.event_id shutdown_event_id
      then some (true, called [], release_event ev (remove_all d))
      else if int_eq ev.event_id sync_event_id
      then (do r ← handle_sync_event fuel ev d; some (false, r.1, r.0))
      else (do r ← dispatch_in fuel ev d; some (false, r.1, release_event ev r.0))

  -- `EventThread::threadMain`: each turn is what other threads do to the dispatcher before it, and one
  -- `WaitEvent`, with the wake-ups during it. none while the thread still runs when there are no further
  -- turns, and where it aborts.
  unfoldable pub thread_main :
      ℕ
      → List ((Dispatcher → Dispatcher) × List Wake)
      → Dispatcher
      → Option (List Outcome × Dispatcher)
  thread_main fuel [] d = none
  thread_main fuel ((others, wakes) ∷ turns) d = do
    r ← wait_event 0 wakes (others d).queue
    ev ← r.0
    h ← handle_event fuel ev (record (others d) { queue = r.1 })
    elim h.0 [
      | true ↦ some (h.1 ∷ [], h.2)
      | false ↦ (do o ← thread_main fuel turns h.2; some (h.1 ∷ o.0, o.1))
    ]
