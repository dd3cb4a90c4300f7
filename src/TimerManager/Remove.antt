-- ===== src/TimerManager/Remove.antt =====
-- What the removals of src/TimerManager.cpp reach.
use jhcommon.Prelude.{
  ℕ, true, false, ◌≡◌, refl, ap, ◌∙◌, Option, List, [], ◌∷◌, ◌==◌, ==_iff, if◌then◌else◌,
  Bool-cases, inl, inr, arith,
}
use jhcommon.Prelude.Int.{ℤ}
use jhcommon.Event.{ptr_eq}
use jhcommon.Timer.{TimerNode, Timer}
use jhcommon.Timer.Remove.{
  is_for, erase_id, event_address, remove_timed_event_id, erase_event, remove_timed_event,
}
use jhcommon.TimerManager.{
  TimerManager, update, mem, on_each, manager_remove_id, manager_remove_event,
}

update_self :
    (p a : ℕ) (f : Timer → Timer) (store : ℕ → Timer)
    → (p == a) ≡ true
    → update p (f (store p)) store a ≡ f (store a)
update_self p a f store e =
    let same : (a == p) ≡ true = ground arith in rw same (ap (λ q. f (store q)) ((==_iff p a).0 e))

update_other :
    (p a : ℕ) (t : Timer) (store : ℕ → Timer) → (p == a) ≡ false → update p t store a ≡ store a
update_other p a t store e = let other : (a == p) ≡ false = ground arith in rw other refl

-- A call whose repetition changes nothing is made on each timer of the list, and on no other.
module _ (f : Timer → Timer) (again : (t : Timer) → f (f t) ≡ f t) where
  on_each_lem :
      (a : ℕ) (ps : List ℕ) (store : ℕ → Timer)
      → on_each f ps store a ≡ (if mem a ps then f (store a) else store a)
  unfolding on_each
  on_each_lem a [] store = refl
  on_each_lem a (p ∷ ps) store =
      let rest = on_each_lem a ps (update p (f (store p)) store) in
      elim (Bool-cases (p == a)) [
        | inl e ↦
            let now = update_self p a f store e in
            rest ∙ elim (Bool-cases (mem a ps)) [
              | inl m ↦ rw (e, m, now) (again (store a))
              | inr m ↦ rw (e, m, now) refl
            ]
        | inr e ↦
            rest
            ∙ (rw e
                (ap (λ t. if mem a ps then f t else t) (update_other p a (f (store p)) store e)))
      ]

erase_id_again :
    (id : ℤ) (dispatcher : Option ℕ) (l : List TimerNode)
    → erase_id id dispatcher (erase_id id dispatcher l) ≡ erase_id id dispatcher l
unfolding erase_id
erase_id_again id dispatcher [] = refl
erase_id_again id dispatcher (n ∷ l) = elim (Bool-cases (is_for id dispatcher n)) [
  | inl e ↦ rw e (erase_id_again id dispatcher l)
  | inr e ↦ rw (e, e) (ap (◌∷◌ n) (erase_id_again id dispatcher l))
]

erase_event_again :
    (ev : Option ℕ) (l : List TimerNode) → erase_event ev (erase_event ev l) ≡ erase_event ev l
unfolding erase_event
erase_event_again ev [] = refl
erase_event_again ev (n ∷ l) = elim (Bool-cases (ptr_eq (event_address n.event) ev)) [
  | inl e ↦ rw e (erase_event_again ev l)
  | inr e ↦ rw (e, e) (ap (◌∷◌ n) (erase_event_again ev l))
]

-- Both forms of `removeTimedEvent` of the manager are the removal from each timer that is
-- registered, however often it is, and leave every other timer, the default one included, as it is.
pub manager_remove_lem :
    (id : ℤ) (dispatcher ev : Option ℕ) (m : TimerManager) (a : ℕ)
    → ((manager_remove_id id dispatcher m).store a
        ≡ (if mem a m.timers then remove_timed_event_id id dispatcher (m.store a) else m.store a))
      × ((manager_remove_event ev m).store a
          ≡ (if mem a m.timers then remove_timed_event ev (m.store a) else m.store a))
unfolding remove_timed_event_id remove_timed_event
manager_remove_lem id dispatcher ev m a = (
  on_each_lem (remove_timed_event_id id dispatcher)
      (λ t. ap (λ l. record t { list = l }) (erase_id_again id dispatcher t.list)) a m.timers
      m.store,
  on_each_lem (remove_timed_event ev)
      (λ t. ap (λ l. record t { list = l }) (erase_event_again ev t.list)) a m.timers m.store,
)
