-- ===== src/TimerManager.antt =====
-- src/TimerManager.cpp: the default timer and the list of registered timers. The timers of
-- src/Timer.cpp live in a store by address, as the users of a timer share it.
pub mod Remove
use jhcommon.Prelude.{
  ℕ, Bool, true, false, ◌||◌, Option, none, some, List, [], ◌∷◌, ◌++◌, ◌==◌, if◌then◌else◌, ◌>>=◌,
}
use jhcommon.Prelude.Int.{ℤ, pos}
use jhcommon.Timer.{Timer}
use jhcommon.Timer as T
use jhcommon.Timer.Remove.{remove_timed_event_id, remove_timed_event, remove_agents_by_receiver}

pub record TimerManager : Type 0 where
  pub store : ℕ → Timer
  pub default_timer : ℕ
  pub timers : List ℕ

abbrev pub ms_per_tick : ℤ
ms_per_tick = pos 100

-- `*p = t`
abbrev pub update : ℕ → Timer → (ℕ → Timer) → ℕ → Timer
update p t store a = if a == p then t else store a

-- The manager with its default timer at the address p.
pub init : ℕ → (ℕ → Timer) → TimerManager
init p store = record {
  store = update p (T.init ms_per_tick false) store;
  default_timer = p;
  timers = [];
}

abbrev pub get_default_timer : TimerManager → ℕ
get_default_timer m = m.default_timer

abbrev pub timer_with : ℕ → (ℕ → Timer) → List ℕ → Option ℕ
timer_with tick_ms store [] = none
timer_with tick_ms store (p ∷ ps) =
    if (store p).ms_per_tick == tick_ms then some p else timer_with tick_ms store ps

-- A timer that is made here, at the address p, is not registered.
abbrev pub get_timer : ℕ → ℕ → TimerManager → ℕ × TimerManager
get_timer tick_ms p m = elim (timer_with tick_ms m.store m.timers) [
  | some q ↦ (q, m)
  | none ↦ (p, record m { store = update p (T.init (pos tick_ms) true) m.store })
]

abbrev pub mem : ℕ → List ℕ → Bool
mem p [] = false
mem p (q ∷ qs) = q == p || mem p qs

abbrev pub add_timer : ℕ → TimerManager → TimerManager
add_timer p m = if mem p m.timers then m else record m { timers = m.timers ++ p ∷ [] }

abbrev pub erase_first : ℕ → List ℕ → List ℕ
erase_first p [] = []
erase_first p (q ∷ qs) = if q == p then qs else q ∷ erase_first p qs

abbrev pub remove_timer : ℕ → TimerManager → TimerManager
remove_timer p m = record m { timers = erase_first p m.timers }

-- the loop of the removals: the call on each timer of the list
unfoldable pub on_each : (Timer → Timer) → List ℕ → (ℕ → Timer) → ℕ → Timer
on_each f [] store = store
on_each f (p ∷ ps) store = on_each f ps (update p (f (store p)) store)

abbrev pub manager_remove_id : ℤ → Option ℕ → TimerManager → TimerManager
manager_remove_id id dispatcher m = record m {
  store = on_each (remove_timed_event_id id dispatcher) m.timers m.store;
}

abbrev pub manager_remove_event : Option ℕ → TimerManager → TimerManager
manager_remove_event ev m = record m { store = on_each (remove_timed_event ev) m.timers m.store }

-- none where a timer reads through NULL
unfoldable pub agents_on_each : ℕ → Option ℕ → List ℕ → (ℕ → Timer) → Option (ℕ → Timer)
agents_on_each receiver dispatcher [] store = some store
agents_on_each receiver dispatcher (p ∷ ps) store = do
  t ← remove_agents_by_receiver receiver dispatcher (store p)
  agents_on_each receiver dispatcher ps (update p t store)

abbrev pub manager_remove_agents : ℕ → Option ℕ → TimerManager → Option TimerManager
manager_remove_agents receiver dispatcher m = do
  store ← agents_on_each receiver dispatcher m.timers m.store
  some (record m { store = store })
