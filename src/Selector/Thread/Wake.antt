-- ===== src/Selector/Thread/Wake.antt =====
-- No event of the queue of src/Selector.cpp waits without bytes in the pipe that wake the thread.
use jhcommon.Prelude.{
  ℕ, ◌+◌, ◌-◌, ◌*◌, ◌≤◌, Bool, true, false, ◌||◌, Bool-cases, inl, inr, ◌≡◌, refl, ap, ◌∙◌, Option,
  none, some, List, [], ◌∷◌, ◌++◌, if◌then◌else◌, ◌>>=◌, length, All, arith, IfSome, IfSome-bind,
  any_some,
}
use jhcommon.Prelude.Int.{ℤ, int_eq}
use jhcommon.Event.{Event}
use jhcommon.EventQueue.{EventQueue, poll_list}
use jhcommon.Dispatcher.{Change, Outcome, handle_event}
use jhcommon.Selector.{PollEvents, FileChange, PollFd, PollBits, is_over, call_listeners}
use jhcommon.Selector.Thread.{
  Selector, SelectorCall, calls, selector_update_event_id, call_file, handle_fds, handle_polled,
  handle_one, refill, turn, with_queue,
}
use jhcommon.Dispatcher.Queue.{alone, NoLonger, handle_event-NoLonger}
use jhcommon.Selector.Thread.Calls.{IsAwakeBut, IsAwake, calls-Woken}

module _ (bits : PollBits) (react : ℕ → ℤ → PollEvents → List FileChange)
    (react_to : ℕ → Event → List Change) (file_calls : ℤ → PollEvents → List SelectorCall)
    (event_calls : Outcome → List SelectorCall) where
  -- After the entries, four bytes were read if an event is to be handled.
  abbrev Read : Bool × Selector → Type 0
  Read r = IsAwakeBut (if r.0 then 4 else 0) r.1

  -- the pipe is read for no entry
  record Same (k : ℕ) (got : Bool) (r : Bool × Selector) : Type 0 where
    same_got : r.0 ≡ got
    awake : IsAwakeBut k r.1

  record SameReader (k : ℕ) (s v : Selector) : Type 0 where
    awake : IsAwakeBut k v
    same_reader : v.reader ≡ s.reader

  call_file-SameReader :
      (k fuel : ℕ) (fd : ℤ) (revents : PollEvents) (s : Selector)
      → IsAwakeBut k s
      → IfSome
          (SameReader k s)
          (call_file bits react react_to file_calls event_calls fuel fd revents s)
  call_file-SameReader k fuel fd revents s h =
      let o = call_listeners bits react fuel fd revents s.listeners s.update_fds in
      IfSome-bind (λ r. Unit {0}) (SameReader k s) o
        (λ r. some (
          calls (file_calls fd revents) (record s {
            listeners = r.iteration.before ++ r.iteration.ahead;
            update_fds = r.iteration.update_fds || r.result;
          })))
        (any_some o)
        (λ r u.
          let w =
            calls-Woken k (file_calls fd revents)
              (record s {
                listeners = r.iteration.before ++ r.iteration.ahead;
                update_fds = r.iteration.update_fds || r.result;
              })
              h in
          record { awake = w.awake; same_reader = w.same_reader })

  handle_fds-Same :
      (k fuel : ℕ) (ps : List PollFd) (found : List (Option PollEvents)) (got : Bool) (s : Selector)
      → All (λ p. int_eq p.fd s.reader ≡ false) ps
      → IsAwakeBut k s
      → IfSome
          (Same k got)
          (handle_fds bits react react_to file_calls event_calls fuel ps found got s)
  unfolding handle_fds
  handle_fds-Same k fuel [] found got s a h = record { same_got = refl; awake = h }
  handle_fds-Same k fuel (p ∷ ps) [] got s a h = record { same_got = refl; awake = h }
  handle_fds-Same k fuel (p ∷ ps) (none ∷ found) got s a h =
      handle_fds-Same k fuel ps found got s a.1 h
  handle_fds-Same k fuel (p ∷ ps) (some revents ∷ found) got s a h =
      rw (handle_fds, a.0)
        (IfSome-bind (SameReader k s) (Same k got)
          (call_file bits react react_to file_calls event_calls fuel p.fd revents s)
          (λ v. handle_fds bits react react_to file_calls event_calls fuel ps found got v)
          (call_file-SameReader k fuel p.fd revents s h)
          (λ v same. handle_fds-Same k fuel ps found got v (rw same.same_reader a.1) same.awake))

  Same-Read :
      (got : Bool) (o : Option (Bool × Selector))
      → IfSome (Same (if got then 4 else 0) got) o
      → IfSome Read o
  Same-Read got none h = tt
  Same-Read got (some (g, v)) h = rw h.same_got h.awake

  handle_fds-Read :
      (fuel : ℕ) (p : PollFd) (ps : List PollFd) (found : List (Option PollEvents)) (s : Selector)
      → int_eq p.fd s.reader ≡ true
      → All (λ q. int_eq q.fd s.reader ≡ false) ps
      → IsAwake s
      → IfSome Read
          (handle_fds bits react react_to file_calls event_calls fuel (p ∷ ps) found false s)
  unfolding handle_fds
  handle_fds-Read fuel p ps [] s e a h = h
  handle_fds-Read fuel p ps (none ∷ found) s e a h =
      Same-Read false _ (handle_fds-Same 0 fuel ps found false s a h)
  handle_fds-Read fuel p ps (some revents ∷ found) s e a h =
      elim (Bool-cases (revents bits.poll_in)) [
        | inl c ↦
            let v : Selector = record s { pipe = s.pipe - 4 } in
            rw (handle_fds, e, c)
              (Same-Read true _ (handle_fds-Same 4 fuel ps found true v a (omega arith)))
        | inr c ↦ elim (Bool-cases (is_over bits revents)) [
          | inl o ↦ rw (handle_fds, e, c, o) tt
          | inr o ↦
              rw (handle_fds, e, c, o)
                (Same-Read false _ (handle_fds-Same 0 fuel ps found false s a h))
        ]
      ]

  handle_polled-IsAwake :
      (fuel : ℕ) (es : List Event) (q : EventQueue) (s : Selector)
      → 4 * length es ≤ s.pipe + 4
      → IfSome IsAwake (
          handle_polled bits react react_to file_calls event_calls fuel (poll_list es).0 (
            with_queue bits react react_to file_calls event_calls
              (record q { queue = (poll_list es).1 })
              s))
  handle_polled-IsAwake fuel [] q s h = omega arith
  handle_polled-IsAwake fuel (e ∷ es) q s h =
      let d = record s.dispatcher { queue = record q { queue = es } } in
      elim (Bool-cases (int_eq e.event_id selector_update_event_id)) [
        | inl c ↦ rw (handle_polled, c) (omega arith)
        | inr c ↦
            rw (handle_polled, c)
              (IfSome-bind (NoLonger d) IsAwake (handle_event react_to alone fuel e d)
                (λ r. some (
                  calls (event_calls r.1)
                    (record s { dispatcher = r.2; running = if r.0 then false else s.running })))
                (handle_event-NoLonger react_to fuel e d)
                (λ r n.
                  (calls-Woken 0 (event_calls r.1)
                    (record s { dispatcher = r.2; running = if r.0 then false else s.running })
                    (omega arith)).awake))
      ]

  refill-IsAwake :
      (s : Selector) → IsAwake s → IsAwake (refill bits react react_to file_calls event_calls s)
  refill-IsAwake s h = elim (Bool-cases s.update_fds) [ inl e ↦ rw e h | inr e ↦ rw e h ]

  handle_one-IsAwake :
      (fuel : ℕ) (s : Selector)
      → IsAwakeBut 4 s
      → IfSome IsAwake (handle_one bits react react_to file_calls event_calls fuel s)
  unfolding handle_one
  handle_one-IsAwake fuel s h =
      handle_polled-IsAwake fuel s.dispatcher.queue.queue s.dispatcher.queue s h

  after_read :
      (fuel : ℕ) (got : Bool) (v : Selector)
      → Read (got, v)
      → IfSome IsAwake
          (if got then handle_one bits react react_to file_calls event_calls fuel v else some v)
  after_read fuel true v r = handle_one-IsAwake fuel v r
  after_read fuel false v r = r

  fds-Read :
      (fuel : ℕ) (p : PollFd) (ps fs : List PollFd) (found : List (Option PollEvents))
      (s : Selector)
      → fs ≡ p ∷ ps
      → int_eq p.fd s.reader ≡ true
      → All (λ q. int_eq q.fd s.reader ≡ false) ps
      → IsAwake s
      → IfSome Read (handle_fds bits react react_to file_calls event_calls fuel fs found false s)
  fds-Read fuel p ps fs found s f e a h = rw f (handle_fds-Read fuel p ps found s e a h)

  turn-awake :
      (fuel : ℕ) (found : List (Option PollEvents)) (s : Selector) (p : PollFd) (ps : List PollFd)
      → s.fds ≡ p ∷ ps
      → int_eq p.fd s.reader ≡ true
      → All (λ q. int_eq q.fd s.reader ≡ false) ps
      → IsAwake s
      → IfSome IsAwake (turn bits react react_to file_calls event_calls fuel found s)
  unfolding turn
  turn-awake fuel found s p ps f e a h =
      IfSome-bind Read IsAwake
        (handle_fds bits react react_to file_calls event_calls fuel s.fds found false s)
        (λ r.
          (if r.0 then handle_one bits react react_to file_calls event_calls fuel r.1 else some r.1)
          >>= λ v. some (refill bits react react_to file_calls event_calls v))
        (fds-Read fuel p ps s.fds found s f e a h)
        (λ r t.
          IfSome-bind IsAwake IsAwake
            (if r.0
              then handle_one bits react react_to file_calls event_calls fuel r.1
              else some r.1)
            (λ v. some (refill bits react react_to file_calls event_calls v))
            (after_read fuel r.0 r.1 t) (λ v w. refill-IsAwake v w))

-- No lost wake-up, where only the first entry for `poll` is the pipe: when the pipe holds four bytes for
-- each event of the queue, it does so after any calls that send events, or add and remove listeners, and
-- again after a turn of `threadMain` that gives a state, whatever `poll` found. In the turn the listeners
-- that are called, and an agent that is delivered, make any such calls on the selector. Of a turn that
-- aborts, or for whose walks over listeners the fuel is not enough, nothing is said.
pub turn-IsAwake :
    (bits : PollBits) (react : ℕ → ℤ → PollEvents → List FileChange)
    → (react_to : ℕ → Event → List Change) (file_calls : ℤ → PollEvents → List SelectorCall)
    → (event_calls : Outcome → List SelectorCall) (fuel : ℕ) (found : List (Option PollEvents))
    → (cs : List SelectorCall) (s : Selector) (p : PollFd) (ps : List PollFd) → s.fds ≡ p ∷ ps
    → int_eq p.fd s.reader ≡ true
    → All (λ q. int_eq q.fd s.reader ≡ false) ps
    → IsAwake s
    → IsAwake (calls cs s)
      × IfSome IsAwake (turn bits react react_to file_calls event_calls fuel found (calls cs s))
turn-IsAwake bits react react_to file_calls event_calls fuel found cs s p ps f e a h =
    let w = calls-Woken 0 cs s h in
    (
      w.awake,
      turn-awake bits react react_to file_calls event_calls fuel found (calls cs s) p ps
          (w.same_fds ∙ f) (ap (int_eq p.fd) w.same_reader ∙ e) (rw w.same_reader a) w.awake,
    )
