-- ===== src/Selector/Thread/Calls.antt =====
-- The calls on src/Selector.cpp that wake its thread.
use jhcommon.Prelude.{
  ℕ, suc, ◌+◌, ◌*◌, ◌≤◌, Bool, true, false, Bool-cases, inl, inr, ◌≡◌, refl, ap, ◌∙◌, List, [], ◌∷◌,
  ◌++◌, if◌then◌else◌, length, length-append, arith,
}
use jhcommon.Prelude.Int.{int_eq, int_lt}
use jhcommon.Event.{Event, priority_normal}
use jhcommon.EventQueue.{EventQueue, add_ref, insert, send_event}
use jhcommon.Dispatcher.{holder_event, send_event_sync}
use jhcommon.Selector.{erase_same, any_same}
use jhcommon.Selector.Thread.{
  Selector, SelectorCall, send, send_sync, add, remove, call, calls, selector_send_event,
  update_listeners,
}

-- Four bytes in the pipe for each event of the queue, but for k bytes.
abbrev pub IsAwakeBut : ℕ → Selector → Type 0
IsAwakeBut k s = 4 * length s.dispatcher.queue.queue ≤ s.pipe + k

-- Four bytes in the pipe for each event of the queue.
abbrev pub IsAwake : Selector → Type 0
IsAwake s = IsAwakeBut 0 s

length-insert : (ev : Event) (es : List Event) → length (insert ev es) ≡ suc (length es)
unfolding insert
length-insert ev [] = refl
length-insert ev (x ∷ xs) = elim (Bool-cases (int_lt x.priority ev.priority)) [
  | inl e ↦ rw e refl
  | inr e ↦ rw e (ap suc (length-insert ev xs))
]

length-send_event :
    (ev : Event) (q : EventQueue) → length (send_event ev q).queue ≡ suc (length q.queue)
unfolding send_event
length-send_event ev q = elim (Bool-cases (int_eq ev.priority priority_normal)) [
  | inl e ↦ let n = length-append q.queue (ev ∷ []) in rw e (omega arith)
  | inr e ↦ rw e (length-insert ev q.queue)
]

-- What a call leaves as the thread expects it.
pub record Woken (k : ℕ) (s v : Selector) : Type 0 where
  pub awake : IsAwakeBut k v
  pub same_fds : v.fds ≡ s.fds
  pub same_reader : v.reader ≡ s.reader

send_event-Woken :
    (k : ℕ) (ev : Event) (s : Selector) → IsAwakeBut k s → Woken k s (selector_send_event ev s)
send_event-Woken k ev s h =
    let n = length-send_event ev s.dispatcher.queue in
    record { awake = omega arith; same_fds = refl; same_reader = refl }

if-Woken :
    (k : ℕ) (b : Bool) (s x y : Selector)
    → Woken k s x
    → Woken k s y
    → Woken k s (if b then x else y)
if-Woken k true s x y p q = p
if-Woken k false s x y p q = q

update_listeners-Woken :
    (k : ℕ) (current : Bool) (ev : Event) (s : Selector)
    → IsAwakeBut k s
    → Woken k s (update_listeners current ev s)
update_listeners-Woken k current ev s h =
    let same : (b : Bool) → Woken k s (record s { update_fds = b }) =
      λ b. record { awake = h; same_fds = refl; same_reader = refl } in
    if-Woken k current s (record s { update_fds = true })
      (if s.running then selector_send_event ev s else s) (same true)
      (if-Woken k s.running s (selector_send_event ev s) s (send_event-Woken k ev s h)
        (same s.update_fds))

call-Woken : (k : ℕ) (c : SelectorCall) (s : Selector) → IsAwakeBut k s → Woken k s (call c s)
unfolding send_event_sync
call-Woken k (send ev) s h = send_event-Woken k ev s h
call-Woken k (send_sync holder ev) s h =
    let q = s.dispatcher.queue in
    let n =
      length-send_event (holder_event holder ev) (record q { refs = add_ref ev.address q.refs }) in
    record { awake = omega arith; same_fds = refl; same_reader = refl }
call-Woken k (add current ev n) s h =
    let w =
      update_listeners-Woken k current ev (record s { listeners = s.listeners ++ n ∷ [] }) h in
    record { awake = w.awake; same_fds = w.same_fds; same_reader = w.same_reader }
call-Woken k (remove current ev fd listener) s h =
    let erased = record s { listeners = erase_same fd s.listeners } in
    let w = update_listeners-Woken k current ev erased h in
    if-Woken k (any_same fd s.listeners) s (update_listeners current ev erased) erased
      (record { awake = w.awake; same_fds = w.same_fds; same_reader = w.same_reader })
      (record { awake = h; same_fds = refl; same_reader = refl })

pub calls-Woken :
    (k : ℕ) (cs : List SelectorCall) (s : Selector) → IsAwakeBut k s → Woken k s (calls cs s)
calls-Woken k [] s h = record { awake = h; same_fds = refl; same_reader = refl }
calls-Woken k (c ∷ cs) s h =
    let one = call-Woken k c s h in
    let more = calls-Woken k cs (call c s) one.awake in
    record {
      awake = more.awake;
      same_fds = more.same_fds ∙ one.same_fds;
      same_reader = more.same_reader ∙ one.same_reader;
    }
