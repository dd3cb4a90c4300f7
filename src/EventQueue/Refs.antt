-- ===== src/EventQueue/Refs.antt =====
-- The references that the queue of src/EventQueue.cpp holds.
use jhcommon.Prelude.{
  ℕ, ◌+◌, ◌≤◌, ◌==◌, Bool, Bool-cases, inl, inr, if◌then◌else◌, ◌≡◌, refl, List, [], ◌∷◌, ◌++◌,
  arith, Option, none, some,
}
use jhcommon.Prelude.Int.{int_eq, int_lt}
use jhcommon.Event.{Event, priority_normal}
use jhcommon.EventQueue.{
  EventQueue, Op, send, poll, remove_by_id, remove_by_address, remove_by_receiver, flush_all,
  insert, send_event, erase_loop, step, has_id, has_address, is_agent_of, poll_event, poll_list,
  add_ref, release, flush_refs,
}

-- one for the address a
abbrev pub one_at : ℕ → ℕ → ℕ
one_at a address = if a == address then 1 else 0

-- how often the object at a stands in the list
abbrev pub held : ℕ → List Event → ℕ
held a [] = 0
held a (e ∷ es) = one_at a e.address + held a es

abbrev pub held_by_caller : ℕ → Option Event → ℕ
held_by_caller a none = 0
held_by_caller a (some e) = one_at a e.address

-- what the call hands to its caller
abbrev pub taken : ℕ → Op → EventQueue → ℕ
taken a (send ev) q = 0
taken a poll q = held_by_caller a (poll_event q).0
taken a (remove_by_id id) q = 0
taken a (remove_by_address ev) q = 0
taken a (remove_by_receiver receiver) q = 0
taken a flush_all q = 0

held-append :
    (a : ℕ) (es : List Event) (e : Event) → held a (es ++ e ∷ []) ≡ held a es + one_at a e.address
held-append a [] e = omega arith
held-append a (x ∷ es) e = omega (arith, held-append a es e)

held-insert :
    (a : ℕ) (e : Event) (es : List Event) → held a (insert e es) ≡ held a es + one_at a e.address
unfolding insert
held-insert a e [] = omega arith
held-insert a e (x ∷ es) = elim (Bool-cases (int_lt x.priority e.priority)) [
  | inl h ↦ rw h (omega arith)
  | inr h ↦ rw h (omega (arith, held-insert a e es))
]

release_lem :
    (a address : ℕ) (refs : ℕ → ℕ)
    → one_at a address ≤ refs a
    → release address refs a + one_at a address ≡ refs a
release_lem a address refs h = elim (Bool-cases (a == address)) [
  | inl e ↦ ground arith
  | inr e ↦ ground arith
]

erase_loop_refs :
    (a : ℕ) (test : Event → Bool) (es : List Event) (refs : ℕ → ℕ)
    → held a es ≤ refs a
    → (erase_loop test es refs).1 a + held a es ≡ refs a + held a (erase_loop test es refs).0
unfolding erase_loop
erase_loop_refs a test [] refs h = refl
erase_loop_refs a test (e ∷ es) refs h = elim (Bool-cases (test e)) [
  | inl t ↦
      let r = release_lem a e.address refs (omega arith) in
      rw t (omega (arith, erase_loop_refs a test es (release e.address refs) (omega arith), r))
  | inr t ↦ rw t (omega (arith, erase_loop_refs a test es refs (omega arith)))
]

flush_refs_lem :
    (a : ℕ) (es : List Event) (refs : ℕ → ℕ)
    → held a es ≤ refs a
    → flush_refs es refs a + held a es ≡ refs a
unfolding flush_refs
flush_refs_lem a [] refs h = omega arith
flush_refs_lem a (e ∷ es) refs h =
    let r = release_lem a e.address refs (omega arith) in
    omega (arith, flush_refs_lem a es (release e.address refs) (omega arith), r)

poll_list_lem :
    (a : ℕ) (es : List Event)
    → held a es ≡ held_by_caller a (poll_list es).0 + held a (poll_list es).1
poll_list_lem a [] = refl
poll_list_lem a (e ∷ es) = refl

send_event_refs :
    (a : ℕ) (ev : Event) (q : EventQueue)
    → (send_event ev q).refs a + held a q.queue ≡ q.refs a + held a (send_event ev q).queue
unfolding send_event
send_event_refs a ev q =
    let one : add_ref ev.address q.refs a ≡ q.refs a + one_at a ev.address = ground arith in
    elim (Bool-cases (int_eq ev.priority priority_normal)) [
      | inl e ↦ rw (e, held-append a q.queue ev, one) (omega arith)
      | inr e ↦ rw (e, held-insert a ev q.queue, one) (omega arith)
    ]

-- When every event of the queue is counted for the queue, each call keeps that so, and changes the
-- count of an object by what the queue gains or loses of it, and by what is handed to the caller.
pub step_refs :
    (a : ℕ) (op : Op) (q : EventQueue)
    → held a q.queue ≤ q.refs a
    → ((step op q).refs a + held a q.queue ≡ q.refs a + held a (step op q).queue + taken a op q)
      × (held a (step op q).queue ≤ (step op q).refs a)
step_refs a (send ev) q h =
    let e = send_event_refs a ev q in (omega (arith, e), omega (arith, e, h))
step_refs a poll q h = let e = poll_list_lem a q.queue in (omega (arith, e), omega (arith, e, h))
step_refs a (remove_by_id id) q h =
    let e = erase_loop_refs a (has_id id) q.queue q.refs h in
    (omega (arith, e), omega (arith, e, h))
step_refs a (remove_by_address ev) q h =
    let e = erase_loop_refs a (has_address ev) q.queue q.refs h in
    (omega (arith, e), omega (arith, e, h))
step_refs a (remove_by_receiver receiver) q h =
    let e = erase_loop_refs a (is_agent_of receiver) q.queue q.refs h in
    (omega (arith, e), omega (arith, e, h))
step_refs a flush_all q h =
    let e = flush_refs_lem a q.queue q.refs h in (omega (arith, e), omega (arith, e, h))
