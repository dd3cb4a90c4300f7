-- ===== src/EventQueue/Order.antt =====
-- The order of the events in src/EventQueue.cpp.
use jhcommon.Prelude.{
  ℕ, ◌==◌, ◌&&◌, Bool, false, Bool-cases, inl, inr, if◌then◌else◌, ◌≡◌, refl, sym, ap, List, [],
  ◌∷◌, ◌++◌, append-nil, All,
}
use jhcommon.Prelude.Int.{ℤ, int_eq, int_eq_iff, int_lt, int_lt-asym}
use jhcommon.Event.{Event, priority_normal, agent_event_id}
use jhcommon.EventQueue.{
  EventQueue, Op, send, poll, remove_by_id, remove_by_address, remove_by_receiver, flush_all,
  insert, send_event, erase_loop, step, run, has_id, has_address, is_agent_of, remove_id,
  remove_event, remove_agents, remove_where, poll_list, release,
}
use jhcommon.EventQueue.Sorted.{
  NotBelow, Below, NotNegative, IsSorted, IsOrdered, All-map, All-append, Below-All, insert-Placed,
  Placed,
}

-- `SendEvent` of an event whose priority is not negative, on a queue in order, places the event
-- behind all events of its priority or a higher one and before all of a lower one.
pub send_event-Placed :
    (ev : Event) (q : EventQueue)
    → IsOrdered q
    → NotNegative ev
    → Placed ev q.queue (send_event ev q).queue
unfolding send_event
send_event-Placed ev q ok fine = elim (Bool-cases (int_eq ev.priority priority_normal)) [
  | inl e ↦
      let p = (int_eq_iff ev.priority priority_normal).0 e in
      record {
        front = q.queue;
        back = [];
        old_split = sym (append-nil q.queue);
        new_split = rw e refl;
        front_above = rw p ok.1;
        back_below = tt;
      }
  | inr e ↦ rw e (insert-Placed ev q.queue ok.0)
]

insert-All :
    (P : Event → Type 0) (ev : Event) (es : List Event) → All P es → P ev → All P (insert ev es)
unfolding insert
insert-All P ev [] all p = (p, tt)
insert-All P ev (x ∷ xs) all p = elim (Bool-cases (int_lt x.priority ev.priority)) [
  | inl e ↦ rw e (p, all)
  | inr e ↦ rw e (all.0, insert-All P ev xs all.1 p)
]

insert-IsSorted : (ev : Event) (es : List Event) → IsSorted es → IsSorted (insert ev es)
unfolding insert
insert-IsSorted ev [] sorted = (tt, tt)
insert-IsSorted ev (x ∷ xs) sorted = elim (Bool-cases (int_lt x.priority ev.priority)) [
  | inl e ↦
      let later =
        All-map (Below ev) (λ y. int_lt ev.priority y.priority ≡ false)
          (λ y h. int_lt-asym y.priority ev.priority h) (x ∷ xs)
          (e, Below-All ev x xs e sorted.0) in
      rw e (later, sorted)
  | inr e ↦ rw e (
    insert-All (λ y. int_lt x.priority y.priority ≡ false) ev xs sorted.0 e,
    insert-IsSorted ev xs sorted.1,
  )
]

append-IsSorted :
    (ev : Event) (es : List Event) → IsSorted es → All (NotBelow ev) es → IsSorted (es ++ ev ∷ [])
append-IsSorted ev [] sorted all = (tt, tt)
append-IsSorted ev (x ∷ es) sorted all = (
  All-append (λ y. int_lt x.priority y.priority ≡ false) es ev sorted.0 all.0,
  append-IsSorted ev es sorted.1 all.1,
)

send_event-IsOrdered :
    (ev : Event) (q : EventQueue) → IsOrdered q → NotNegative ev → IsOrdered (send_event ev q)
unfolding send_event
send_event-IsOrdered ev q ok fine = elim (Bool-cases (int_eq ev.priority priority_normal)) [
  | inl e ↦
      let p = (int_eq_iff ev.priority priority_normal).0 e in
      rw e
        (append-IsSorted ev q.queue ok.0 (rw p ok.1), All-append NotNegative q.queue ev ok.1 fine)
  | inr e ↦ rw e (insert-IsSorted ev q.queue ok.0, insert-All NotNegative ev q.queue ok.1 fine)
]

erase_loop-All :
    (test : Event → Bool) (P : Event → Type 0) (es : List Event) (refs : ℕ → ℕ)
    → All P es
    → All P (erase_loop test es refs).0
unfolding erase_loop
erase_loop-All test P [] refs all = tt
erase_loop-All test P (e ∷ es) refs all = elim (Bool-cases (test e)) [
  | inl h ↦ rw h (erase_loop-All test P es (release e.address refs) all.1)
  | inr h ↦ rw h (all.0, erase_loop-All test P es refs all.1)
]

erase_loop-IsSorted :
    (test : Event → Bool) (es : List Event) (refs : ℕ → ℕ)
    → IsSorted es
    → IsSorted (erase_loop test es refs).0
unfolding erase_loop
erase_loop-IsSorted test [] refs sorted = tt
erase_loop-IsSorted test (e ∷ es) refs sorted = elim (Bool-cases (test e)) [
  | inl h ↦ rw h (erase_loop-IsSorted test es (release e.address refs) sorted.1)
  | inr h ↦ rw h (
    erase_loop-All test (λ y. int_lt e.priority y.priority ≡ false) es refs sorted.0,
    erase_loop-IsSorted test es refs sorted.1,
  )
]

remove_where-IsOrdered :
    (test : Event → Bool) (q : EventQueue) → IsOrdered q → IsOrdered (remove_where test q)
remove_where-IsOrdered test q ok = (
  erase_loop-IsSorted test q.queue q.refs ok.0,
  erase_loop-All test NotNegative q.queue q.refs ok.1,
)

poll_list-IsSorted : (es : List Event) → IsSorted es → IsSorted (poll_list es).1
poll_list-IsSorted [] s = tt
poll_list-IsSorted (e ∷ es) s = s.1

poll_list-All : (es : List Event) → All NotNegative es → All NotNegative (poll_list es).1
poll_list-All [] s = tt
poll_list-All (e ∷ es) s = s.1

-- The priority of an event that is sent is not negative.
abbrev pub IsProper : Op → Type 0
IsProper (send ev) = NotNegative ev
IsProper poll = Unit {0}
IsProper (remove_by_id id) = Unit
IsProper (remove_by_address ev) = Unit
IsProper (remove_by_receiver receiver) = Unit
IsProper flush_all = Unit

step-IsOrdered : (op : Op) (q : EventQueue) → IsProper op → IsOrdered q → IsOrdered (step op q)
step-IsOrdered (send ev) q fine ok = send_event-IsOrdered ev q ok fine
step-IsOrdered poll q fine ok = (poll_list-IsSorted q.queue ok.0, poll_list-All q.queue ok.1)
step-IsOrdered (remove_by_id id) q fine ok = remove_where-IsOrdered (has_id id) q ok
step-IsOrdered (remove_by_address ev) q fine ok = remove_where-IsOrdered (has_address ev) q ok
step-IsOrdered (remove_by_receiver receiver) q fine ok =
    remove_where-IsOrdered (is_agent_of receiver) q ok
step-IsOrdered flush_all q fine ok = (tt, tt)

-- Calls that send no event of a negative priority keep the queue in order: no event stands before
-- one of a higher priority, and no priority is negative.
pub run-IsOrdered :
    (ops : List Op) (q : EventQueue) → All IsProper ops → IsOrdered q → IsOrdered (run ops q)
run-IsOrdered [] q fine ok = ok
run-IsOrdered (op ∷ ops) q fine ok =
    run-IsOrdered ops (step op q) fine.1 (step-IsOrdered op q fine.0 ok)

-- the events for which the test does not hold, in the same order
abbrev pub without : (Event → Bool) → List Event → List Event
without test [] = []
without test (e ∷ es) = if test e then without test es else e ∷ without test es

erase_loop-without :
    (test : Event → Bool) (es : List Event) (refs : ℕ → ℕ)
    → (erase_loop test es refs).0 ≡ without test es
unfolding erase_loop
erase_loop-without test [] refs = refl
erase_loop-without test (e ∷ es) refs = elim (Bool-cases (test e)) [
  | inl h ↦ rw h (erase_loop-without test es (release e.address refs))
  | inr h ↦ rw h (ap (◌∷◌ e) (erase_loop-without test es refs))
]

-- The three removals erase the events with the id, the event itself wherever it stands, and the
-- agents of the receiver, and leave all others in their order.
pub remove_lem :
    (id : ℤ) (ev receiver : ℕ) (q : EventQueue)
    → ((remove_id id q).queue ≡ without (λ e. int_eq e.event_id id) q.queue)
      × ((remove_event ev q).queue ≡ without (λ e. e.address == ev) q.queue)
      × ((remove_agents receiver q).queue
          ≡ without (λ e. int_eq e.event_id agent_event_id && e.target == receiver) q.queue)
remove_lem id ev receiver q = (
  erase_loop-without (has_id id) q.queue q.refs,
  erase_loop-without (has_address ev) q.queue q.refs,
  erase_loop-without (is_agent_of receiver) q.queue q.refs,
)
