-- ===== src/Selector/Thread.antt =====
-- The state of src/Selector.cpp, the calls that wake its thread, and one turn of `threadMain`.
pub mod Calls
pub mod Progress
pub mod Wake
use jhcommon.Prelude.{
  ℕ, ◌+◌, ◌-◌, Bool, true, false, ◌||◌, Option, none, some, List, [], ◌∷◌, ◌++◌, ◌==◌,
  if◌then◌else◌, ◌>>=◌,
}
use jhcommon.Prelude.Int.{ℤ, negsuc, int_eq}
use jhcommon.Event.{Event}
use jhcommon.EventQueue.{EventQueue, poll_event}
use jhcommon.Dispatcher.{
  Change, Outcome, Dispatcher, dispatcher_send_event, send_event_sync, handle_event, release_event,
}
use jhcommon.Dispatcher.Queue.{alone}
use jhcommon.Selector.{
  PollEvents, FileListener, FileChange, PollFd, PollBits, erase_same, any_same, is_over,
  fill_poll_fds, call_listeners,
}

pub record Selector : Type 0 where
  pub dispatcher : Dispatcher
  pub listeners : List FileListener
  -- `fds` of `threadMain`, with `numFds` entries
  pub fds : List PollFd
  -- `mPipe[ PIPE_READER ]`, and the number of bytes in the pipe
  pub reader : ℤ
  pub pipe : ℕ
  pub update_fds : Bool
  pub running : Bool

abbrev pub selector_update_event_id : ℤ
selector_update_event_id = negsuc 3

-- `wakeThread`, where the pipe takes the four bytes
abbrev pub wake_thread : Selector → Selector
wake_thread s = record s { pipe = s.pipe + 4 }

abbrev pub selector_send_event : Event → Selector → Selector
selector_send_event ev s =
    wake_thread (record s { dispatcher = dispatcher_send_event ev s.dispatcher })

abbrev pub selector_send_event_sync : ℕ → Event → Selector → Selector
selector_send_event_sync holder ev s =
    wake_thread (record s { dispatcher = send_event_sync holder ev s.dispatcher })

-- `updateListeners`: a call from another thread sends the given event, and waits for a turn.
abbrev pub update_listeners : Bool → Event → Selector → Selector
update_listeners current ev s =
    if current
    then record s { update_fds = true }
    else if s.running
    then selector_send_event ev s
    else s

abbrev pub selector_add_listener : Bool → Event → FileListener → Selector → Selector
selector_add_listener current ev n s =
    update_listeners current ev (record s { listeners = s.listeners ++ n ∷ [] })

-- The listener is not looked at.
abbrev pub selector_remove_listener : Bool → Event → ℤ → Option ℕ → Selector → Selector
selector_remove_listener current ev fd listener s =
    let erased = record s { listeners = erase_same fd s.listeners } in
    if any_same fd s.listeners then update_listeners current ev erased else erased

-- a call from a thread, with whether it is the selector's
pub data SelectorCall : Type 0 where
  send : Event → SelectorCall
  send_sync : ℕ → Event → SelectorCall
  add : Bool → Event → FileListener → SelectorCall
  remove : Bool → Event → ℤ → Option ℕ → SelectorCall

abbrev pub call : SelectorCall → Selector → Selector
call (send ev) s = selector_send_event ev s
call (send_sync holder ev) s = selector_send_event_sync holder ev s
call (add current ev n) s = selector_add_listener current ev n s
call (remove current ev fd listener) s = selector_remove_listener current ev fd listener s

abbrev pub calls : List SelectorCall → Selector → Selector
calls [] s = s
calls (c ∷ cs) s = calls cs (call c s)

module _ (bits : PollBits) (react : ℕ → ℤ → PollEvents → List FileChange)
    (react_to : ℕ → Event → List Change) (file_calls : ℤ → PollEvents → List SelectorCall)
    (event_calls : Outcome → List SelectorCall) where
  -- `callListeners` for an entry of another file, and what its listeners call of the selector besides the
  -- changes of `react`
  abbrev pub call_file : ℕ → ℤ → PollEvents → Selector → Option Selector
  call_file fuel fd revents s = do
    r ← call_listeners bits react fuel fd revents s.listeners s.update_fds
    some (
        calls (file_calls fd revents) (record s {
          listeners = r.iteration.before ++ r.iteration.ahead;
          update_fds = r.iteration.update_fds || r.result;
        }))

  -- `read` of at most 4 bytes, and `gotEvent`
  abbrev pub read_pipe : PollEvents → Bool → Selector → Option (Bool × Selector)
  read_pipe revents got s =
      if revents bits.poll_in
      then some (true, record s { pipe = s.pipe - 4 })
      else if is_over bits revents
      then none
      else some (got, s)

  -- The loop over the entries and what `poll` found for each, none for no event, with `gotEvent`.
  unfoldable pub handle_fds :
      ℕ → List PollFd → List (Option PollEvents) → Bool → Selector → Option (Bool × Selector)
  handle_fds fuel [] found got s = some (got, s)
  handle_fds fuel (p ∷ ps) [] got s = some (got, s)
  handle_fds fuel (p ∷ ps) (none ∷ found) got s = handle_fds fuel ps found got s
  handle_fds fuel (p ∷ ps) (some revents ∷ found) got s = elim (int_eq p.fd s.reader) [
    | true ↦ (do r ← read_pipe revents got s; handle_fds fuel ps found r.0 r.1)
    | false ↦ (do v ← call_file fuel p.fd revents s; handle_fds fuel ps found got v)
  ]

  abbrev pub with_queue : EventQueue → Selector → Selector
  with_queue q s = record s { dispatcher = record s.dispatcher { queue = q } }

  -- The event of the queue, and what the delivery of an agent, or the listeners that are called, call of
  -- the selector: `sendEvent` of the selector wakes its thread.
  abbrev pub handle_polled : ℕ → Option Event → Selector → Option Selector
  handle_polled fuel none s = some s
  handle_polled fuel (some ev) s =
      if int_eq ev.event_id selector_update_event_id
      then some (record s { dispatcher = release_event ev s.dispatcher; update_fds = true })
      else (do
        r ← handle_event react_to alone fuel ev s.dispatcher
        some (
            calls (event_calls r.1)
              (record s { dispatcher = r.2; running = if r.0 then false else s.running })))

  -- one event of the queue
  unfoldable pub handle_one : ℕ → Selector → Option Selector
  handle_one fuel s =
      let r = poll_event s.dispatcher.queue in handle_polled fuel r.0 (with_queue r.1 s)

  abbrev pub refill : Selector → Selector
  refill s =
      if s.update_fds
      then record s { fds = fill_poll_fds s.reader bits.poll_in s.listeners; update_fds = false }
      else s

  -- One turn of `threadMain`, with what `poll` found.
  unfoldable pub turn : ℕ → List (Option PollEvents) → Selector → Option Selector
  turn fuel found s = do
    r ← handle_fds fuel s.fds found false s
    v ← (if r.0 then handle_one fuel r.1 else some r.1)
    some (refill v)
