-- ===== src/EventQueue.antt =====
-- src/EventQueue.cpp and include/EventQueue.h: the events that wait for a dispatcher. Each method
-- holds the lock, so it is one step; a wait on the condition gives the lock to other threads. The
-- reference counts of the events are a function of their addresses, and unbounded.
pub mod Sorted
pub mod Order
pub mod Refs
pub mod Wait
mod Tests
use jhcommon.Prelude.{
  ℕ, suc, ◌+◌, ◌-◌, Bool, true, false, ◌&&◌, Option, none, some, List, [], ◌∷◌, ◌++◌, ltb, ◌==◌,
  if◌then◌else◌,
}
use jhcommon.Prelude.Int.{ℤ, int_eq, int_lt}
use jhcommon.Event.{Event, priority_normal, agent_event_id}

pub record EventQueue : Type 0 where
  pub queue : List Event
  -- `RefCount::mRefCount` of the event at an address
  pub refs : ℕ → ℕ

abbrev pub add_ref : ℕ → (ℕ → ℕ) → ℕ → ℕ
add_ref address refs a = if a == address then refs a + 1 else refs a

abbrev pub release : ℕ → (ℕ → ℕ) → ℕ → ℕ
release address refs a = if a == address then refs a - 1 else refs a

-- the loop of `SendEvent`, with the `push_back` behind it
unfoldable pub insert : Event → List Event → List Event
insert ev [] = ev ∷ []
insert ev (x ∷ xs) = if int_lt x.priority ev.priority then ev ∷ x ∷ xs else x ∷ insert ev xs

unfoldable pub send_event : Event → EventQueue → EventQueue
send_event ev q = record {
  queue = if int_eq ev.priority priority_normal then q.queue ++ ev ∷ [] else insert ev q.queue;
  refs = add_ref ev.address q.refs;
}

abbrev pub poll_list : List Event → Option Event × List Event
poll_list [] = (none, [])
poll_list (e ∷ es) = (some e, es)

-- `pollEventInternal` and `PollEvent`: the reference of the queue goes to the caller.
abbrev pub poll_event : EventQueue → Option Event × EventQueue
poll_event q = ((poll_list q.queue).0, record q { queue = (poll_list q.queue).1 })

-- The loops of the three removals: an event for which the test holds is released and erased.
unfoldable pub erase_loop : (Event → Bool) → List Event → (ℕ → ℕ) → List Event × (ℕ → ℕ)
erase_loop test [] refs = ([], refs)
erase_loop test (e ∷ es) refs =
    if test e
    then erase_loop test es (release e.address refs)
    else (let r = erase_loop test es refs in (e ∷ r.0, r.1))

abbrev pub has_id : ℤ → Event → Bool
has_id id e = int_eq e.event_id id

abbrev pub has_address : ℕ → Event → Bool
has_address ev e = e.address == ev

abbrev pub is_agent_of : ℕ → Event → Bool
is_agent_of receiver e = int_eq e.event_id agent_event_id && e.target == receiver

abbrev pub remove_where : (Event → Bool) → EventQueue → EventQueue
remove_where test q = let r = erase_loop test q.queue q.refs in record { queue = r.0; refs = r.1 }

abbrev pub remove_id : ℤ → EventQueue → EventQueue
remove_id id q = remove_where (has_id id) q

abbrev pub remove_event : ℕ → EventQueue → EventQueue
remove_event ev q = remove_where (has_address ev) q

abbrev pub remove_agents : ℕ → EventQueue → EventQueue
remove_agents receiver q = remove_where (is_agent_of receiver) q

unfoldable pub flush_refs : List Event → (ℕ → ℕ) → ℕ → ℕ
flush_refs [] refs = refs
flush_refs (e ∷ es) refs = flush_refs es (release e.address refs)

abbrev pub flush : EventQueue → EventQueue
flush q = record { queue = []; refs = flush_refs q.queue q.refs }

-- a call of a method
pub data Op : Type 0 where
  send : Event → Op
  poll : Op
  remove_by_id : ℤ → Op
  remove_by_address : ℕ → Op
  remove_by_receiver : ℕ → Op
  flush_all : Op

abbrev pub step : Op → EventQueue → EventQueue
step (send ev) q = send_event ev q
step poll q = (poll_event q).1
step (remove_by_id id) q = remove_id id q
step (remove_by_address ev) q = remove_event ev q
step (remove_by_receiver receiver) q = remove_agents receiver q
step flush_all q = flush q

abbrev pub run : List Op → EventQueue → EventQueue
run [] q = q
run (op ∷ ops) q = run ops (step op q)

-- How a wait on the condition ended, with the calls of other threads in the meantime.
pub data Wake : Type 0 where
  signalled : List Op → Wake
  timed_out : List Op → Wake

-- The loop of `WaitEvent`; none while the caller still waits, when there is no further wake-up.
unfoldable pub wait_loop : ℕ → List Wake → EventQueue → Option (Option Event × EventQueue)
wait_loop mstimeout [] q = none
wait_loop mstimeout (signalled ops ∷ wakes) q =
    let q' = run ops q in
    let rest = wait_loop mstimeout wakes q' in
    elim q'.queue [ [] ↦ rest | e ∷ es ↦ some (some e, record q' { queue = es }) ]
wait_loop mstimeout (timed_out ops ∷ wakes) q =
    let q' = run ops q in
    let rest = wait_loop mstimeout wakes q' in if ltb 0 mstimeout then some (none, q') else rest

unfoldable pub wait_event : ℕ → List Wake → EventQueue → Option (Option Event × EventQueue)
wait_event mstimeout wakes q = elim q.queue [
  | [] ↦ wait_loop mstimeout wakes q
  | e ∷ es ↦ some (some e, record q { queue = es })
]
