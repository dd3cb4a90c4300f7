-- ===== src/EventQueue/Sorted.antt =====
-- src/EventQueue.cpp: what it is for a queue to be in order, and the place of a new event.
use jhcommon.Prelude.{true, false, Bool-cases, inl, inr, ◌≡◌, refl, ap, List, [], ◌∷◌, ◌++◌, All}
use jhcommon.Prelude.Int.{int_lt, int_lt-below}
use jhcommon.Event.{Event, priority_normal}
use jhcommon.EventQueue.{EventQueue, insert}

-- The priority of x is at least that of e.
abbrev pub NotBelow : Event → Event → Type 0
NotBelow e x = int_lt x.priority e.priority ≡ false

abbrev pub Below : Event → Event → Type 0
Below e x = int_lt x.priority e.priority ≡ true

abbrev pub NotNegative : Event → Type 0
NotNegative e = int_lt e.priority priority_normal ≡ false

-- No event stands before one of a higher priority.
abbrev pub IsSorted : List Event → Type 0
IsSorted [] = Unit {0}
IsSorted (e ∷ es) = All (λ x. int_lt e.priority x.priority ≡ false) es × IsSorted es

abbrev pub IsOrdered : EventQueue → Type 0
IsOrdered q = IsSorted q.queue × All NotNegative q.queue

-- The event came to stand behind all of its priority or a higher one, before all of a lower one.
pub record Placed (ev : Event) (old new : List Event) : Type 0 where
  pub front : List Event
  pub back : List Event
  pub old_split : old ≡ front ++ back
  pub new_split : new ≡ front ++ ev ∷ back
  pub front_above : All (NotBelow ev) front
  pub back_below : All (Below ev) back

pub All-map :
    (P Q : Event → Type 0) → ((e : Event) → P e → Q e) → (es : List Event) → All P es → All Q es
All-map P Q f [] all = tt
All-map P Q f (e ∷ es) all = (f e all.0, All-map P Q f es all.1)

pub All-append :
    (P : Event → Type 0) (es : List Event) (e : Event) → All P es → P e → All P (es ++ e ∷ [])
All-append P [] e all p = (p, tt)
All-append P (x ∷ es) e all p = (all.0, All-append P es e all.1 p)

pub Below-All :
    (ev x : Event) (es : List Event)
    → Below ev x
    → All (λ y. int_lt x.priority y.priority ≡ false) es
    → All (Below ev) es
Below-All ev x es b all =
    All-map (λ y. int_lt x.priority y.priority ≡ false) (Below ev)
      (λ y h. int_lt-below y.priority x.priority ev.priority b h) es all

pub insert-Placed : (ev : Event) (es : List Event) → IsSorted es → Placed ev es (insert ev es)
unfolding insert
insert-Placed ev [] sorted = record {
  front = [];
  back = [];
  old_split = refl;
  new_split = refl;
  front_above = tt;
  back_below = tt;
}
insert-Placed ev (x ∷ xs) sorted = elim (Bool-cases (int_lt x.priority ev.priority)) [
  | inl e ↦ record {
    front = [];
    back = x ∷ xs;
    old_split = refl;
    new_split = rw e refl;
    front_above = tt;
    back_below = (e, Below-All ev x xs e sorted.0);
  }
  | inr e ↦
      let p = insert-Placed ev xs sorted.1 in
      record {
        front = x ∷ p.front;
        back = p.back;
        old_split = ap (◌∷◌ x) p.old_split;
        new_split = rw e (ap (◌∷◌ x) p.new_split);
        front_above = (e, p.front_above);
        back_below = p.back_below;
      }
]
