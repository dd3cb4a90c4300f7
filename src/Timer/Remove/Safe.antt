-- ===== src/Timer/Remove/Safe.antt =====
-- What the removals of src/Timer.cpp keep, what they leave out, and where they read through NULL.
use jhcommon.Prelude.{
  ℕ, ◌≡◌, ◌≢◌, refl, ap, sym, ==_iff, ◌&&◌, ◌∙◌, ◌↔◌, ◌⊎◌, inl, inr, ◌||◌, Bool-cases, Bool, true,
  false, Option, none, some, List, [], ◌∷◌, ◌++◌, All, Option-cases,
}
use jhcommon.Prelude.Int.{ℤ, int_eq, int_eq_iff}
use jhcommon.Event.{Event, ptr_eq, invalid_event_id}
use jhcommon.Timer.{TimerNode, Timer}
use jhcommon.Timer.Order.{key, SortedFrom, SortedFrom-weaken}
use jhcommon.Timer.Remove.{
  id_matches, is_for, erase_id, remove_timed_event_id, event_address, erase_event,
  remove_timed_event, agent_matches, erase_agents, remove_agents_by_receiver,
}
use jhcommon.Timer.Tick.{IsReady}
use jhcommon.Timer.Valid.{IsValid}

-- `l'` is `l` without the nodes that the test holds of, in the same order.
pub data Without (test : TimerNode → Bool) : List TimerNode → List TimerNode → Type 0 where
  done : Without test [] []
  erased :
      {n : TimerNode} {l l' : List TimerNode}
      → test n ≡ true
      → Without test l l'
      → Without test (n ∷ l) l'
  kept :
      {n : TimerNode} {l l' : List TimerNode}
      → test n ≡ false
      → Without test l l'
      → Without test (n ∷ l) (n ∷ l')

Without-SortedFrom :
    {test : TimerNode → Bool} (base lo : ℕ) {l l' : List TimerNode}
    → Without test l l'
    → SortedFrom base lo l
    → SortedFrom base lo l'
Without-SortedFrom base lo done s = tt
Without-SortedFrom base lo (erased {n} {l} {l'} e w) s =
    SortedFrom-weaken base (key base n) lo l' s.0 (Without-SortedFrom base (key base n) w s.2)
Without-SortedFrom base lo (kept {n} e w) s = (s.0, s.1, Without-SortedFrom base (key base n) w s.2)

Without-All :
    {test : TimerNode → Bool} (P : TimerNode → Type 0) {l l' : List TimerNode}
    → Without test l l'
    → All P l
    → All P l'
Without-All P done a = tt
Without-All P (erased e w) a = Without-All P w a.1
Without-All P (kept e w) a = (a.0, Without-All P w a.1)

Without-IsValid :
    {test : TimerNode → Bool} {t : Timer} {l' : List TimerNode}
    → IsValid t
    → Without test t.list l'
    → IsValid (record t { list = l' })
Without-IsValid {t = t} v w = record {
  tick_time = v.tick_time;
  ticks_in = v.ticks_in;
  sorted = Without-SortedFrom t.ticks 0 w v.sorted;
  ready = Without-All (IsReady t.ms_per_tick) w v.ready;
}

erase_id-Without :
    (id : ℤ) (dispatcher : Option ℕ) (l : List TimerNode)
    → Without (is_for id dispatcher) l (erase_id id dispatcher l)
unfolding erase_id
erase_id-Without id dispatcher [] = done
erase_id-Without id dispatcher (n ∷ l) = elim (Bool-cases (is_for id dispatcher n)) [
  | inl e ↦ rw e (erased e (erase_id-Without id dispatcher l))
  | inr e ↦ rw e (kept e (erase_id-Without id dispatcher l))
]

erase_event-Without :
    (ev : Option ℕ) (l : List TimerNode)
    → Without (λ n. ptr_eq (event_address n.event) ev) l (erase_event ev l)
unfolding erase_event
erase_event-Without ev [] = done
erase_event-Without ev (n ∷ l) = elim (Bool-cases (ptr_eq (event_address n.event) ev)) [
  | inl e ↦ rw e (erased e (erase_event-Without ev l))
  | inr e ↦ rw e (kept e (erase_event-Without ev l))
]

-- The list l' is l without the nodes that are meant, in the same order.
pub data Removed (Meant : TimerNode → Type 0) : List TimerNode → List TimerNode → Type 0 where
  none_left : Removed Meant [] []
  taken :
      {n : TimerNode} {l l' : List TimerNode}
      → Meant n
      → Removed Meant l l'
      → Removed Meant (n ∷ l) l'
  left :
      {n : TimerNode} {l l' : List TimerNode}
      → ¬ Meant n
      → Removed Meant l l'
      → Removed Meant (n ∷ l) (n ∷ l')

Without-Removed :
    {test : TimerNode → Bool} (Meant : TimerNode → Type 0) {l l' : List TimerNode}
    → ((n : TimerNode) → (test n ≡ true) ↔ Meant n)
    → Without test l l'
    → Removed Meant l l'
Without-Removed Meant decides done = none_left
Without-Removed Meant decides (erased {n} e w) =
    taken ((decides n).0 e) (Without-Removed Meant decides w)
Without-Removed Meant decides (kept {n} e w) =
    left (λ m. let hit = (decides n).1 m in cc) (Without-Removed Meant decides w)

-- a node of the dispatcher with an event of the id, or with any event for the invalid id
pub record IsOf (id : ℤ) (dispatcher : Option ℕ) (n : TimerNode) : Type 0 where
  pub sent_by : n.dispatcher ≡ dispatcher
  pub event : Event
  pub has_event : n.event ≡ some event
  pub same_id : (event.event_id ≡ id) ⊎ (id ≡ invalid_event_id)

-- a node with the event at the address, or, for NULL, one without an event
abbrev pub EventAt : Option ℕ → Option Event → Type 0
EventAt none o = o ≡ none
EventAt (some address) o = (e : Event) × (o ≡ some e) × (e.address ≡ address)

abbrev pub HasEvent : Option ℕ → TimerNode → Type 0
HasEvent ev n = EventAt ev n.event

ptr_eq_iff : (a b : Option ℕ) → (ptr_eq a b ≡ true) ↔ (a ≡ b)
ptr_eq_iff none none = (λ h. refl, λ h. refl)
ptr_eq_iff none (some b) = (λ h. cc, λ h. cc)
ptr_eq_iff (some a) none = (λ h. cc, λ h. cc)
ptr_eq_iff (some a) (some b) =
    let same = ==_iff a b in (λ h. ap some (same.0 h), λ h. let q : a ≡ b = cc in same.1 q)

and-true : (a b : Bool) → ((a && b) ≡ true) ↔ ((a ≡ true) × (b ≡ true))
and-true true b = (λ h. (refl, h), λ h. h.1)
and-true false b = (λ h. cc, λ h. h.0)

or-true : (a b : Bool) → ((a || b) ≡ true) ↔ ((a ≡ true) ⊎ (b ≡ true))
or-true true b = (λ h. inl refl, λ h. refl)
or-true false b = (λ h. inr h, λ h. elim h [ inl e ↦ cc | inr e ↦ e ])

-- an event of the id, or any for the invalid id
abbrev Named : ℤ → Option Event → Type 0
Named id o = (e : Event) × (o ≡ some e) × ((e.event_id ≡ id) ⊎ (id ≡ invalid_event_id))

id_matches-Named : (id : ℤ) (o : Option Event) → (id_matches id o ≡ true) ↔ Named id o
id_matches-Named id none = (λ h. cc, λ h. let e = h.1 in cc)
id_matches-Named id (some e) =
    let either = or-true (int_eq e.event_id id) (int_eq id invalid_event_id) in
    let here = int_eq_iff e.event_id id in
    let any = int_eq_iff id invalid_event_id in
    (
      λ h. (e, refl, elim (either.0 h) [ inl x ↦ inl (here.0 x) | inr x ↦ inr (any.0 x) ]),
      λ m.
          let (x, same, c) = m in
          let q : x ≡ e = cc in
          either.1 (elim c [
            | inl y ↦ inl (here.1 (ap (λ z. z.event_id) (sym q) ∙ y))
            | inr y ↦ inr (any.1 y)
          ]),
    )

is_for-IsOf :
    (id : ℤ) (dispatcher : Option ℕ) (n : TimerNode)
    → (is_for id dispatcher n ≡ true) ↔ IsOf id dispatcher n
is_for-IsOf id dispatcher n =
    let both = and-true (ptr_eq n.dispatcher dispatcher) (id_matches id n.event) in
    let same = ptr_eq_iff n.dispatcher dispatcher in
    let named = id_matches-Named id n.event in
    (
      λ h.
          let (sent, match_id) = both.0 h in
          let (e, has, c) = named.0 match_id in
          record { sent_by = same.0 sent; event = e; has_event = has; same_id = c },
      λ m. both.1 (same.1 m.sent_by, named.1 (m.event, m.has_event, m.same_id)),
    )

event_address-EventAt :
    (ev : Option ℕ) (o : Option Event) → (ptr_eq (event_address o) ev ≡ true) ↔ EventAt ev o
event_address-EventAt none none = (λ h. refl, λ h. refl)
event_address-EventAt none (some e) = (λ h. cc, λ h. cc)
event_address-EventAt (some a) none = (λ h. cc, λ h. let e = h.1 in cc)
event_address-EventAt (some a) (some e) =
    let same = ==_iff e.address a in
    (
      λ h. (e, refl, same.0 h),
      λ m. let (x, here, y) = m in let q : x ≡ e = cc in same.1 (ap (λ z. z.address) (sym q) ∙ y),
    )

event_address-HasEvent :
    (ev : Option ℕ) (n : TimerNode) → (ptr_eq (event_address n.event) ev ≡ true) ↔ HasEvent ev n
event_address-HasEvent ev n = event_address-EventAt ev n.event

-- Both forms of `removeTimedEvent` keep a timer valid, and take out of its list the nodes meant, and
-- no other: those of the dispatcher with an event of the id, or with any event for the invalid id;
-- and those with the event at the address, where NULL means the nodes without an event.
pub remove_timed_event_lem :
    (id : ℤ) (dispatcher ev : Option ℕ) {t : Timer}
    → IsValid t
    → IsValid (remove_timed_event_id id dispatcher t)
      × Removed (IsOf id dispatcher) t.list (remove_timed_event_id id dispatcher t).list
      × IsValid (remove_timed_event ev t)
      × Removed (HasEvent ev) t.list (remove_timed_event ev t).list
unfolding remove_timed_event_id remove_timed_event
remove_timed_event_lem id dispatcher ev {t} v =
    let a = erase_id-Without id dispatcher t.list in
    let b = erase_event-Without ev t.list in
    (
      Without-IsValid v a,
      Without-Removed (IsOf id dispatcher) (is_for-IsOf id dispatcher) a,
      Without-IsValid v b,
      Without-Removed (HasEvent ev) (event_address-HasEvent ev) b,
    )

-- the test of `removeAgentsByReceiver`, false at a node with no event
abbrev pub agent_test : ℕ → Option ℕ → TimerNode → Option Event → Bool
agent_test receiver dispatcher n none = false
agent_test receiver dispatcher n (some e) = agent_matches receiver dispatcher n e

abbrev pub is_agent_for : ℕ → Option ℕ → TimerNode → Bool
is_agent_for receiver dispatcher n = agent_test receiver dispatcher n n.event

erase_agents-Without :
    (receiver : ℕ) (dispatcher : Option ℕ) (l : List TimerNode)
    → All (λ n. n.event ≢ none) l
    → (l' : List TimerNode) × (erase_agents receiver dispatcher l ≡ some l')
      × Without (is_agent_for receiver dispatcher) l l'
unfolding erase_agents
erase_agents-Without receiver dispatcher [] a = ([], refl, done)
erase_agents-Without receiver dispatcher (n ∷ l) a = elim (Option-cases n.event) [
  | inl e ↦ absurd (a.0 e)
  | inr (ev, e) ↦
      let (l', r, w) = erase_agents-Without receiver dispatcher l a.1 in
      let tested : is_agent_for receiver dispatcher n ≡ agent_matches receiver dispatcher n ev =
        ap (agent_test receiver dispatcher n) e in
      elim (Bool-cases (agent_matches receiver dispatcher n ev)) [
        | inl m ↦ (l', rw (e, r, m), erased (tested ∙ m) w)
        | inr m ↦ (n ∷ l', rw (e, r, m), kept (tested ∙ m) w)
      ]
]

erase_agents-none :
    (receiver : ℕ) (dispatcher : Option ℕ) (l r : List TimerNode) (n : TimerNode)
    → n.event ≡ none
    → erase_agents receiver dispatcher (l ++ n ∷ r) ≡ none
unfolding erase_agents
erase_agents-none receiver dispatcher [] r n e = rw e
erase_agents-none receiver dispatcher (x ∷ l) r n e = elim (Option-cases x.event) [
  | inl no_event ↦ rw no_event
  | inr (ev, has) ↦ rw (has, erase_agents-none receiver dispatcher l r n e)
]

-- While every pending timer has an event, `removeAgentsByReceiver` keeps a timer valid and takes
-- out exactly the agents for the receiver that the dispatcher would deliver.
pub remove_agents_lem :
    (receiver : ℕ) (dispatcher : Option ℕ) {t : Timer}
    → IsValid t
    → All (λ n. n.event ≢ none) t.list
    → (t' : Timer) × (remove_agents_by_receiver receiver dispatcher t ≡ some t')
      × IsValid t'
      × Without (is_agent_for receiver dispatcher) t.list t'.list
unfolding remove_agents_by_receiver
remove_agents_lem receiver dispatcher {t} v a =
    let (l', e, w) = erase_agents-Without receiver dispatcher t.list a in
    (record t { list = l' }, rw e, Without-IsValid v w, w)

-- One pending timer without an event, as `addTimer` and `addPeriodicTimer` make them, is enough for
-- `removeAgentsByReceiver` to read through NULL, whatever it is to remove.
pub remove_agents_faults :
    (receiver : ℕ) (dispatcher : Option ℕ) (t : Timer) (before behind : List TimerNode)
    (n : TimerNode)
    → n.event ≡ none
    → t.list ≡ before ++ n ∷ behind
    → remove_agents_by_receiver receiver dispatcher t ≡ none
unfolding remove_agents_by_receiver
remove_agents_faults receiver dispatcher t before behind n e split =
    rw (split, erase_agents-none receiver dispatcher before behind n e)
