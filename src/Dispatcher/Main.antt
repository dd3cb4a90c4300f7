-- ===== src/Dispatcher/Main.antt =====
-- The loop of src/EventThread.cpp.
use jhcommon.Prelude.{
  ℕ, ◌≤◌, ◌<◌, true, false, Bool-cases, inl, inr, ◌≡◌, refl, Option, some, List, [], ◌++◌, length,
  All, arith,
}
use jhcommon.Prelude.Int.{int_eq}
use jhcommon.Event.{Event, agent_event_id}
use jhcommon.EventQueue.{EventQueue}
use jhcommon.Dispatcher.{
  ListenerNode, Change, Outcome, delivered, called, Dispatcher, shutdown_event_id, sync_event_id,
  dispatch_event, handle_event, mark, release_event,
}
use jhcommon.Dispatcher.Removal.{IsRemoval, lookup_listeners-Walked}

-- A dispatch that ended, on no more listeners than before.
pub record Dispatched (react : ℕ → Event → List Change) (fuel : ℕ) (ev : Event)
    (ns : List ListenerNode) : Type 0 where
  pub outcome : Outcome
  pub kept : List ListenerNode
  pub gives : dispatch_event react fuel ev ns ≡ some (kept, outcome)
  pub fewer : length kept ≤ length ns

-- An event that does not stop the thread, and is a holder if it has the holders' id.
abbrev pub IsOrdinary : (ℕ → Option Event) → Event → Type 0
IsOrdinary real ev =
    (int_eq ev.event_id shutdown_event_id ≡ false)
    × ((int_eq ev.event_id sync_event_id ≡ true) → (inner : Event) × (real ev.address ≡ some inner))

-- What leaves the queue, the holders and the number of listeners as the thread needs them: no more than
-- events at the end of the queue, further holders, and no more listeners than before.
pub record Grows (d d' : Dispatcher) : Type 0 where
  pub more : List Event
  pub appended : d'.queue.queue ≡ d.queue.queue ++ more
  pub holders : (a : ℕ) (inner : Event) → d.real_event a ≡ some inner → d'.real_event a ≡ some inner
  pub fewer : length d'.listeners ≤ length d.listeners

-- The event was handled, and the thread goes on with the rest of its queue.
pub record Handled (react : ℕ → Event → List Change) (act : Outcome → Dispatcher → Dispatcher)
    (fuel : ℕ) (ev : Event) (d : Dispatcher) : Type 0 where
  pub outcome : Outcome
  pub after : Dispatcher
  pub gives : handle_event react act fuel ev d ≡ some (false, outcome, after)
  pub grows : Grows d after

-- The thread has returned, after one outcome for each of n events, with an empty queue.
pub record Returned (n : ℕ) (run : Option (List Outcome × Dispatcher)) : Type 0 where
  pub outcomes : List Outcome
  pub after : Dispatcher
  pub gives : run ≡ some (outcomes, after)
  pub one_each : length outcomes ≡ n
  pub flushed : after.queue.queue ≡ []

module _ (react : ℕ → Event → List Change)
    (only : (l : ℕ) (ev : Event) → All IsRemoval (react l ev)) where
  pub dispatch_event-Dispatched :
      (fuel : ℕ) (ev : Event) (ns : List ListenerNode)
      → length ns < fuel
      → Dispatched react fuel ev ns
  unfolding dispatch_event
  dispatch_event-Dispatched fuel ev ns h = elim (Bool-cases (int_eq ev.event_id agent_event_id)) [
    | inl e ↦ record { outcome = delivered ev; kept = ns; gives = rw e refl; fewer = omega arith }
    | inr e ↦
        let w = lookup_listeners-Walked react ev fuel ns (λ l. only l ev) h in
        let b = w.bounded in
        record {
          outcome = called w.calls;
          kept = w.kept;
          gives = rw (e, w.gives) refl;
          fewer = omega arith;
        }
  ]

module _ (react : ℕ → Event → List Change) (act : Outcome → Dispatcher → Dispatcher)
    (only : (l : ℕ) (ev : Event) → All IsRemoval (react l ev))
    (grow : (o : Outcome) (d : Dispatcher) → Grows d (act o d)) where
  pub handle_event-Handled :
      (fuel : ℕ) (ev : Event) (d : Dispatcher)
      → IsOrdinary d.real_event ev
      → length d.listeners < fuel
      → Handled react act fuel ev d
  unfolding handle_event
  handle_event-Handled fuel ev d ordinary h = elim (Bool-cases (int_eq ev.event_id sync_event_id)) [
    | inl e ↦
        let inner = ordinary.1 e in
        let r = dispatch_event-Dispatched react only fuel inner.0 d.listeners h in
        let g = grow r.outcome (record d { listeners = r.kept }) in
        let d' = act r.outcome (record d { listeners = r.kept }) in
        record {
          outcome = r.outcome;
          after = record d' { done = mark ev.address d'.done };
          gives = rw (ordinary.0, e, inner.1, r.gives) refl;
          grows = record {
            more = g.more;
            appended = g.appended;
            holders = g.holders;
            fewer = omega (arith, g.fewer, r.fewer);
          };
        }
    | inr e ↦
        let r = dispatch_event-Dispatched react only fuel ev d.listeners h in
        let g = grow r.outcome (record d { listeners = r.kept }) in
        record {
          outcome = r.outcome;
          after = release_event ev (act r.outcome (record d { listeners = r.kept }));
          gives = rw (ordinary.0, e, r.gives) refl;
          grows = record {
            more = g.more;
            appended = g.appended;
            holders = g.holders;
            fewer = omega (arith, g.fewer, r.fewer);
          };
        }
  ]
