-- ===== src/Selector/Tests.antt =====
-- Runs of src/Selector.cpp, and its theorems on concrete files.
use jhcommon.Prelude.{
  IfSome, ℕ, true, false, Bool, ◌&&◌, ◌≡◌, refl, none, some, Option, List, [], ◌∷◌, if◌then◌else◌,
  ◌==◌, arith,
}
use jhcommon.Prelude.Int.{ℤ, pos}
use jhcommon.Event.{Event}
use jhcommon.Dispatcher.{Outcome, Change, sync_event_id}
use jhcommon.Selector.{
  PollEvents, FileListener, FileChange, remove_file_listener, PollBits, is_over, fill_from, merge,
  pipe_entry, call_listeners, call_from, file_change, same_node, erase_same,
}
use jhcommon.Selector.Calls.{call_listeners_lem, file_callees, without_fd, has_fd}
use jhcommon.Selector.Fds.{entry}
use jhcommon.Selector.Thread.{
  Selector, SelectorCall, selector_update_event_id, send, remove, calls, turn,
}
use jhcommon.Selector.Thread.Calls.{IsAwake}
use jhcommon.Selector.Thread.Wake.{turn-IsAwake}

abbrev bits : PollBits
bits = record { poll_in = 0; poll_hup = 4; poll_nval = 5 }

abbrev readable : PollEvents
readable b = b == 0

abbrev writable : PollEvents
writable b = b == 2

abbrev hung_up : PollEvents
hung_up b = b == 4

abbrev reading : FileListener
reading = record { fd = pos 7; events = readable; listener = some 1; private_data = 0 }

abbrev writing : FileListener
writing = record { fd = pos 7; events = writable; listener = some 2; private_data = 0 }

abbrev other : FileListener
other = record { fd = pos 8; events = readable; listener = some 3; private_data = 0 }

abbrev files : List FileListener
files = reading ∷ other ∷ writing ∷ []

abbrev passive : ℕ → ℤ → PollEvents → List FileChange
passive l fd revents = []

-- The listener that is called removes its file.
abbrev removes : ℕ → ℤ → PollEvents → List FileChange
removes l fd revents = remove_file_listener fd (some l) ∷ []

-- the bits of in, priority and out
abbrev shown : Option PollEvents → List Bool
shown none = []
shown (some e) = e 0 ∷ e 1 ∷ e 2 ∷ []

-- With two listeners for one file, nobody listens to what only one of them asked for.
common_run : shown (entry (pos 7) (fill_from [] files)) ≡ false ∷ false ∷ false ∷ []
unfolding fill_from merge
common_run = refl

-- The first listener's removal deletes the node that the loop goes on with.
dangling_run : call_listeners bits removes 9 (pos 7) readable (reading ∷ writing ∷ []) false ≡ none
unfolding call_listeners call_from file_change same_node erase_same
dangling_run = refl

call_listeners_lem_example :
    call_listeners bits passive 9 (pos 7) hung_up files false
    ≡ some (record {
      iteration = record {
        before = if is_over bits hung_up then without_fd (pos 7) files else files;
        ahead = [];
        update_fds = false;
      };
      result = is_over bits hung_up && has_fd (pos 7) files;
      calls = file_callees (pos 7) files;
    })
call_listeners_lem_example =
    call_listeners_lem bits passive 9 (pos 7) hung_up files false (λ l. refl) (omega arith)

abbrev update : Event
update = record { address = 9; event_id = selector_update_event_id; priority = pos 0; target = 0 }

abbrev alarm : Event
alarm = record { address = 77; event_id = pos 5; priority = pos 0; target = 0 }

abbrev selector : Selector
selector = record {
  dispatcher = record {
    address = 500;
    queue = record { queue = alarm ∷ []; refs = λ a. 1 };
    listeners = record { listener = some 1; event_id = pos 5 } ∷ [];
    real_event = λ a. none;
    done = λ a. true;
    manager = record {
      store =
          λ a. record { running = true; ms_per_tick = 10; stoppable = false; list = []; ticks = 0 };
      default_timer = 700;
      timers = [];
    };
  };
  listeners = files;
  fds = pipe_entry (pos 3) 0 ∷ record { fd = pos 7; events = readable } ∷ [];
  reader = pos 3;
  pipe = 4;
  update_fds = false;
  running = true;
}

abbrev quiet : ℕ → Event → List Change
quiet l ev = []

-- The listeners of a file, and those of an event, send one more event each.
abbrev sends_alarm : ℤ → PollEvents → List SelectorCall
sends_alarm fd revents = send alarm ∷ []

abbrev sends_update : Outcome → List SelectorCall
sends_update o = send update ∷ []

turn-IsAwake_example :
    IsAwake (calls (send alarm ∷ remove false update (pos 7) none ∷ []) selector)
    × IfSome IsAwake (
        turn bits passive quiet sends_alarm sends_update 9
          (some readable ∷ some hung_up ∷ [])
          (calls (send alarm ∷ remove false update (pos 7) none ∷ []) selector))
turn-IsAwake_example =
    turn-IsAwake bits passive quiet sends_alarm sends_update 9 (some readable ∷ some hung_up ∷ [])
      (send alarm ∷ remove false update (pos 7) none ∷ []) selector (pipe_entry (pos 3) 0)
      (record { fd = pos 7; events = readable } ∷ []) refl refl (refl, tt) (omega arith)

abbrev holder : Event
holder = record { address = 11; event_id = sync_event_id; priority = pos 0; target = 0 }

-- the holder of an alarm, in front of another one
abbrev synced : Selector
synced = record selector {
  pipe = 8;
  dispatcher = record selector.dispatcher {
    queue = record { queue = holder ∷ alarm ∷ []; refs = λ a. 1 };
    real_event = λ a. some alarm;
  };
}
