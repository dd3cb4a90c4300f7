-- ===== src/Listeners/Tests.antt =====
-- include/ListenerContainer.h: a removal from a concrete list.
use jhcommon.Prelude.{ℕ, ◌≡◌, refl, none, some, [], ◌∷◌, arith}
use jhcommon.LinkedList.{Heap, JhList, node, write, next_of, prev_of, val_of, load}
use jhcommon.LinkedList.Links.{Linked, Chain, Distinct, Holds}
use jhcommon.Listeners.{remove_listener}
use jhcommon.Listeners.Refine.{remove_listener-Holds}

abbrev ends : JhList
ends = record { head = 1; tail = 2 }

-- the listeners 70 and 80
unfoldable listeners : Heap ℕ
listeners =
    write
      (write (write (write (λ a. none) 1 (some (node none 3 0))) 2 (some (node none 0 4))) 3
        (some (node (some 70) 4 1)))
      4 (some (node (some 80) 2 3))

listeners-Holds : Holds listeners ends ((3, 70) ∷ (4, 80) ∷ [])
unfolding listeners write Chain Linked Distinct next_of prev_of val_of load
listeners-Holds = record {
  chain = ((refl, refl), refl, ((refl, refl), refl, (refl, refl)));
  before = refl;
  after = refl;
  ends = omega arith;
  head_apart = refl;
  tail_apart = refl;
  apart = (refl, (refl, tt));
}

remove_listener-Holds_example :
    (g : Heap ℕ) × (remove_listener 3 80 ends listeners ≡ some g) × Holds g ends ((3, 70) ∷ [])
remove_listener-Holds_example =
    remove_listener-Holds listeners ends 80 3 ((3, 70) ∷ (4, 80) ∷ []) listeners-Holds (omega arith)
