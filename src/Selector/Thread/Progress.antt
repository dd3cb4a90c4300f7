-- ===== src/Selector/Thread/Progress.antt =====
-- A turn of `threadMain` of src/Selector.cpp in which `poll` finds the pipe alone.
use jhcommon.Prelude.{ℕ, ◌-◌, ◌≡◌, Option, some, List}
use jhcommon.Prelude.Int.{ℤ}
use jhcommon.Event.{Event}
use jhcommon.Dispatcher.{Change, Outcome, Dispatcher}
use jhcommon.Selector.{PollEvents, FileChange, PollBits}
use jhcommon.Selector.Thread.{Selector, SelectorCall, calls, refill}

module _ (bits : PollBits) (react : ℕ → ℤ → PollEvents → List FileChange)
    (react_to : ℕ → Event → List Change) (file_calls : ℤ → PollEvents → List SelectorCall)
    (event_calls : Outcome → List SelectorCall) where
  -- What a turn leaves that handled the event before `es`: the selector behind the handling, then the
  -- calls on it that the handling made, and the list for `poll`.
  pub record Taken (s : Selector) (es : List Event) (run : Option Selector) : Type 0 where
    pub outcome : Outcome
    pub handled : Selector
    pub gives :
        run
        ≡ some (
            refill bits react react_to file_calls event_calls (calls (event_calls outcome) handled))
    pub rest : handled.dispatcher.queue.queue ≡ es
    pub bytes : handled.pipe ≡ s.pipe - 4
    pub still_running : handled.running ≡ s.running
