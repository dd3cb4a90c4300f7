-- ===== src/Timer/Remove.antt =====
-- `removeTimedEvent` and `removeAgentsByReceiver` of src/Timer.cpp.
pub mod Safe
use jhcommon.Prelude.{
  ℕ, Bool, true, false, ◌&&◌, ◌||◌, not, Option, none, some, List, [], ◌∷◌, ◌==◌, if◌then◌else◌,
  ◌>>=◌,
}
use jhcommon.Prelude.Int.{ℤ, int_eq}
use jhcommon.Event.{Event, agent_event_id, invalid_event_id, ptr_eq}
use jhcommon.Timer.{TimerNode, Timer}

-- the nodes that the loop erases for an event id and a dispatcher
abbrev pub id_matches : ℤ → Option Event → Bool
id_matches id none = false
id_matches id (some e) = int_eq e.event_id id || int_eq id invalid_event_id

abbrev pub is_for : ℤ → Option ℕ → TimerNode → Bool
is_for id dispatcher n = ptr_eq n.dispatcher dispatcher && id_matches id n.event

unfoldable pub erase_id : ℤ → Option ℕ → List TimerNode → List TimerNode
erase_id id dispatcher [] = []
erase_id id dispatcher (n ∷ rest) =
    if is_for id dispatcher n then erase_id id dispatcher rest else n ∷ erase_id id dispatcher rest

unfoldable pub remove_timed_event_id : ℤ → Option ℕ → Timer → Timer
remove_timed_event_id id dispatcher t = record t { list = erase_id id dispatcher t.list }

abbrev pub event_address : Option Event → Option ℕ
event_address none = none
event_address (some e) = some e.address

unfoldable pub erase_event : Option ℕ → List TimerNode → List TimerNode
erase_event ev [] = []
erase_event ev (n ∷ rest) =
    if ptr_eq (event_address n.event) ev then erase_event ev rest else n ∷ erase_event ev rest

unfoldable pub remove_timed_event : Option ℕ → Timer → Timer
remove_timed_event ev t = record t { list = erase_event ev t.list }

abbrev pub agent_matches : ℕ → Option ℕ → TimerNode → Event → Bool
agent_matches receiver dispatcher n e =
    int_eq e.event_id agent_event_id && ptr_eq n.dispatcher dispatcher && e.target == receiver

-- `timer.mEvent->getEventId()` reads through NULL at a node with no event: none.
unfoldable pub erase_agents : ℕ → Option ℕ → List TimerNode → Option (List TimerNode)
erase_agents receiver dispatcher [] = some []
erase_agents receiver dispatcher (n ∷ rest) = do
  e ← n.event
  kept ← erase_agents receiver dispatcher rest
  some (if agent_matches receiver dispatcher n e then kept else n ∷ kept)

unfoldable pub remove_agents_by_receiver : ℕ → Option ℕ → Timer → Option Timer
remove_agents_by_receiver receiver dispatcher t = do
  l ← erase_agents receiver dispatcher t.list
  some (record t { list = l })
