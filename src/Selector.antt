-- ===== src/Selector.antt =====
-- src/Selector.cpp and include/Selector.h: the listeners for files, the list for `poll`, the calls
-- of the listeners, and one turn of the thread. `poll` and the bits of its events are outside this
-- program: a set of events is a function of the number of the bit, and what `poll` answers is an
-- argument. What a listener does when it is called is the parameter `react`.

pub mod Fds
pub mod Calls
pub mod Thread
mod Tests
use jhcommon.Prelude.{
  ℕ, zero, suc, ◌+◌, ◌-◌, Bool, true, false, ◌&&◌, ◌||◌, not, Option, none, some, List, [], ◌∷◌,
  ◌++◌, ◌==◌, if◌then◌else◌, ◌>>=◌, length,
}
use jhcommon.Prelude.Int.{ℤ, negsuc, int_eq}
use jhcommon.Event.{Event, ptr_eq}
use jhcommon.EventQueue.{EventQueue, poll_event}
use jhcommon.Dispatcher as D
use jhcommon.Dispatcher.{Dispatcher, Outcome}

-- a set of poll events, by the numbers of its bits
abbrev pub PollEvents : Type 0
PollEvents = ℕ → Bool

pub record FileListener : Type 0 where
  pub fd : ℤ
  pub events : PollEvents
  pub listener : Option ℕ
  pub private_data : ℕ

-- `operator==` with a node for a descriptor and a listener
abbrev pub is_null : Option ℕ → Bool
is_null none = true
is_null (some p) = false

unfoldable pub same_node : ℤ → Option ℕ → FileListener → Bool
same_node fd listener n =
    int_eq n.fd fd && (is_null n.listener || is_null listener || ptr_eq n.listener listener)

unfoldable pub erase_same : ℤ → List FileListener → List FileListener
erase_same fd [] = []
erase_same fd (n ∷ ns) = if same_node fd none n then erase_same fd ns else n ∷ erase_same fd ns

abbrev pub any_same : ℤ → List FileListener → Bool
any_same fd [] = false
any_same fd (n ∷ ns) = same_node fd none n || any_same fd ns

pub find_listener : ℤ → Option ℕ → List FileListener → Option FileListener
find_listener fd listener [] = none
find_listener fd listener (n ∷ ns) =
    if same_node fd listener n then some n else find_listener fd listener ns

pub record PollFd : Type 0 where
  pub fd : ℤ
  pub events : PollEvents

abbrev pub max_poll_fds : ℕ
max_poll_fds = 64

-- the search for a descriptor in the list for `poll`, with `&=` where it is found
unfoldable pub merge : FileListener → List PollFd → Bool × List PollFd
merge n [] = (false, [])
merge n (p ∷ ps) =
    if int_eq p.fd n.fd
    then (true, record p { events = λ b. p.events b && n.events b } ∷ ps)
    else (let r = merge n ps in (r.0, p ∷ r.1))

-- The loop of `fillPollFds` over the entries from 1 on.
unfoldable pub fill_from : List PollFd → List FileListener → List PollFd
fill_from fds [] = fds
fill_from fds (n ∷ ns) =
    let merged = fill_from (merge n fds).1 ns in
    let added = fds ++ record { fd = n.fd; events = n.events } ∷ [] in
    let more = fill_from added ns in
    if (merge n fds).0 then merged else if suc (length added) == max_poll_fds then added else more

abbrev pub pipe_entry : ℤ → ℕ → PollFd
pipe_entry reader poll_in = record { fd = reader; events = λ b. b == poll_in }

unfoldable pub fill_poll_fds : ℤ → ℕ → List FileListener → List PollFd
fill_poll_fds reader poll_in ns = pipe_entry reader poll_in ∷ fill_from [] ns

-- what a listener may do while it is called
pub data FileChange : Type 0 where
  add_file_listener : FileListener → FileChange
  remove_file_listener : ℤ → Option ℕ → FileChange

-- The nodes before the iterator of `callListeners`, those from it on, and `mUpdateFds`.
pub record Iteration : Type 0 where
  pub before : List FileListener
  pub ahead : List FileListener
  pub update_fds : Bool

-- The iterator at the end of the list stays behind a node that is added.
abbrev pub add_ahead : FileListener → Iteration → Iteration
add_ahead n w = elim w.ahead [
  | [] ↦ record w { before = w.before ++ n ∷ []; update_fds = true }
  | a ∷ rest ↦ record w { ahead = a ∷ rest ++ n ∷ []; update_fds = true }
]

abbrev pub first_same : ℤ → List FileListener → Bool
first_same fd [] = false
first_same fd (n ∷ ns) = same_node fd none n

-- `addListener` and `removeListener` on the selector's thread. none where the removal deletes the
-- node at the iterator, which is then read.
unfoldable pub file_change : FileChange → Iteration → Option Iteration
file_change (add_file_listener n) w = some (add_ahead n w)
file_change (remove_file_listener fd listener) w =
    if first_same fd w.ahead
    then none
    else some (record {
      before = erase_same fd w.before;
      ahead = erase_same fd w.ahead;
      update_fds = w.update_fds || any_same fd w.before || any_same fd w.ahead;
    })

abbrev pub file_changes : List FileChange → Iteration → Option Iteration
file_changes [] w = some w
file_changes (c ∷ cs) w = do v ← file_change c w; file_changes cs v

-- the bits of the events that poll.h defines
pub record PollBits : Type 0 where
  pub poll_in : ℕ
  pub poll_hup : ℕ
  pub poll_nval : ℕ

-- `events & ( POLLHUP | POLLNVAL )`
abbrev pub is_over : PollBits → PollEvents → Bool
is_over bits revents = revents bits.poll_hup || revents bits.poll_nval

abbrev pub pass : Bool → FileListener → Iteration → List FileListener → Iteration
pass over n w rest = record w {
  before = if over then w.before else w.before ++ n ∷ [];
  ahead = rest;
}

-- the result of `callListeners`, with the calls made
pub record Called : Type 0 where
  pub iteration : Iteration
  pub result : Bool
  pub calls : List ℕ

abbrev pub with_call : Option ℕ → List ℕ → List ℕ
with_call none calls = calls
with_call (some l) calls = l ∷ calls

abbrev pub add_call : Option ℕ → Bool → Called → Called
add_call listener over r = record r {
  result = over || r.result;
  calls = with_call listener r.calls;
}

module _ (bits : PollBits) (react : ℕ → ℤ → PollEvents → List FileChange) where
  abbrev pub reaction : Option ℕ → ℤ → PollEvents → List FileChange
  reaction none fd revents = []
  reaction (some l) fd revents = react l fd revents

  -- none also when the fuel ends
  unfoldable pub call_from : ℕ → ℤ → PollEvents → Iteration → Option Called
  call_from zero fd revents w = none
  call_from (suc fuel) fd revents w = elim w.ahead [
    | [] ↦ some (record { iteration = w; result = false; calls = [] })
    | n ∷ rest ↦ elim (same_node fd none n) [
      | true ↦ (do
        v ← file_changes (reaction n.listener fd revents) (pass (is_over bits revents) n w rest)
        r ← call_from fuel fd revents v
        some (add_call n.listener (is_over bits revents) r))
      | false ↦ call_from fuel fd revents (pass false n w rest)
    ]
  ]

  unfoldable pub call_listeners : ℕ → ℤ → PollEvents → List FileListener → Bool → Option Called
  call_listeners fuel fd revents ns update =
      call_from fuel fd revents (record { before = []; ahead = ns; update_fds = update })
