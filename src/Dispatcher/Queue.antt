-- ===== src/Dispatcher/Queue.antt =====
-- The handling of an event in src/EventDispatcher.cpp and the length of the queue.
use jhcommon.Prelude.{
  ℕ, ◌≤◌, Bool, false, Bool-cases, inl, inr, ◌≡◌, refl, ap, some, List, ◌>>=◌, length, arith,
  IfSome, IfSome-bind, any_some,
}
use jhcommon.Prelude.Int.{int_eq}
use jhcommon.Event.{Event}
use jhcommon.Dispatcher.{
  Change, Outcome, Dispatcher, shutdown_event_id, sync_event_id, dispatch_event, dispatch_in,
  handle_sync_event, handle_event, remove_all, release_event, mark,
}

-- The handling of an event puts none in the queue by itself.
abbrev pub NoLonger : Dispatcher → Bool × Outcome × Dispatcher → Type 0
NoLonger d r = length r.2.queue.queue ≤ length d.queue.queue

-- where the agents and the listeners do nothing else to the dispatcher
abbrev pub alone : Outcome → Dispatcher → Dispatcher
alone o d = d

-- a dispatch, or the handling of a holder, keeps the queue
abbrev SameQueue : Dispatcher → Dispatcher × Outcome → Type 0
SameQueue d r = r.0.queue ≡ d.queue

dispatch_in-SameQueue :
    (react : ℕ → Event → List Change) (fuel : ℕ) (ev : Event) (d : Dispatcher)
    → IfSome (SameQueue d) (dispatch_in react alone fuel ev d)
dispatch_in-SameQueue react fuel ev d =
    IfSome-bind (λ r. Unit {0}) (SameQueue d) (dispatch_event react fuel ev d.listeners)
      (λ r. some (record d { listeners = r.0 }, r.1))
      (any_some (dispatch_event react fuel ev d.listeners)) (λ r u. refl)

pub handle_event-NoLonger :
    (react : ℕ → Event → List Change) (fuel : ℕ) (ev : Event) (d : Dispatcher)
    → IfSome (NoLonger d) (handle_event react alone fuel ev d)
unfolding handle_event remove_all
handle_event-NoLonger react fuel ev d = elim (Bool-cases (int_eq ev.event_id shutdown_event_id)) [
  | inl e ↦ rw e (omega arith)
  | inr e ↦ elim (Bool-cases (int_eq ev.event_id sync_event_id)) [
    | inl c ↦
        rw (e, c)
          (IfSome-bind (SameQueue d) (NoLonger d) (handle_sync_event react alone fuel ev d)
            (λ r. some (false, r.1, r.0))
            (IfSome-bind (λ i. Unit {0}) (SameQueue d) (d.real_event ev.address)
              (λ i. dispatch_in react alone fuel i d >>= λ r.
                some (record r.0 { done = mark ev.address r.0.done }, r.1))
              (any_some (d.real_event ev.address))
              (λ i u.
                IfSome-bind (SameQueue d) (SameQueue d) (dispatch_in react alone fuel i d)
                  (λ r. some (record r.0 { done = mark ev.address r.0.done }, r.1))
                  (dispatch_in-SameQueue react fuel i d) (λ r q. q)))
            (λ r q. let n = ap (λ x. length x.queue) q in omega arith))
    | inr c ↦
        rw (e, c)
          (IfSome-bind (SameQueue d) (NoLonger d) (dispatch_in react alone fuel ev d)
            (λ r. some (false, r.1, release_event ev r.0)) (dispatch_in-SameQueue react fuel ev d)
            (λ r q. let n = ap (λ x. length x.queue) q in omega arith))
  ]
]
