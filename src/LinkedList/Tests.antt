-- ===== src/LinkedList/Tests.antt =====
-- include/jh_list.h: runs of the list on a concrete heap.
use jhcommon.Prelude.{ℕ, ◌≡◌, refl, Option, none, some, ◌>>=◌, [], ◌∷◌, arith}
use jhcommon.LinkedList.{
  Heap, JhList, node, write, next_of, prev_of, val_of, load, new_node, set_val, set_next, set_prev,
  delete, new_list, push_front, push_back, pop_back, size, count_from, front, back, end, erase,
  insert_after, clear, destroy,
}
use jhcommon.LinkedList.Splice.{SameBut}
use jhcommon.LinkedList.Links.{Linked, Chain, Cells, Distinct, Holds}
use jhcommon.LinkedList.Refine.{Leaves, push_back-Holds, erase-Holds}
use jhcommon.LinkedList.Loops.{Cleared, clear-Cleared}
use jhcommon.LinkedList.Destroy.{Destroyed, destroy-Holds}

-- the placeholders at 1 and 2, the values 70 and 80 at 3 and 4
abbrev nothing : Heap ℕ
nothing a = none

abbrev built : Option (Heap ℕ)
built = do r ← new_list nothing 1 2; h ← push_back (r.0) 80 4 (r.1); push_front (r.0) 70 3 h

abbrev ends : JhList
ends = record { head = 1; tail = 2 }

built_size : (built >>= λ h. size 6 ends h) ≡ some 2
unfolding new_list push_back push_front size count_from write load next_of prev_of val_of new_node
    set_val set_next set_prev delete
built_size = refl

built_front : (built >>= λ h. front ends h) ≡ some (some 70)
unfolding new_list push_back push_front front write load next_of prev_of val_of new_node set_val
    set_next set_prev delete
built_front = refl

-- a list that is popped empty: its `back` reads the value of the head placeholder, never written
popped_back : (do h ← built; h ← pop_back ends h; h ← pop_back ends h; back ends h) ≡ some none
unfolding new_list push_back push_front pop_back back write load next_of prev_of val_of new_node
    set_val set_next set_prev delete
popped_back = refl

-- `erase` at the tail placeholder changes nothing
erased_end : (built >>= λ h. erase (end ends) h >>= λ r. some (r.0)) ≡ some 2
unfolding new_list push_back push_front erase end write load next_of prev_of val_of new_node set_val
    set_next set_prev delete
erased_end = refl

-- `insertAfter` at the tail placeholder dereferences NULL
after_end : (built >>= λ h. insert_after (end ends) 5 9 h) ≡ none
unfolding new_list push_back push_front insert_after end write load next_of prev_of val_of new_node
    set_val set_next set_prev delete
after_end = refl

unfoldable items : Heap ℕ
items =
    write
      (write (write (write nothing 1 (some (node none 3 0))) 2 (some (node none 0 4))) 3
        (some (node (some 70) 4 1)))
      4 (some (node (some 80) 2 3))

abbrev cells : Cells ℕ
cells = (3, 70) ∷ (4, 80) ∷ []

items-Holds : Holds items ends cells
unfolding items write Chain Linked Distinct next_of prev_of val_of load
items-Holds = record {
  chain = ((refl, refl), refl, ((refl, refl), refl, (refl, refl)));
  before = refl;
  after = refl;
  ends = omega arith;
  head_apart = refl;
  tail_apart = refl;
  apart = (refl, (refl, tt));
}

unused : items 5 ≡ none
unfolding items write
unused = refl

push_back-Holds_example :
    Leaves (push_back ends 90 5 items) items ends ((3, 70) ∷ (4, 80) ∷ (5, 90) ∷ []) 4 2 5
push_back-Holds_example = push_back-Holds items ends cells 90 5 items-Holds (omega arith) unused

erase-Holds_example :
    (g : Heap ℕ) × (erase 3 items ≡ some (4, g))
    × Holds g ends ((4, 80) ∷ [])
    × SameBut items g 1 4 3
    × (g 3 ≡ none)
erase-Holds_example = erase-Holds items ends [] ((4, 80) ∷ []) 70 3 items-Holds

clear-Cleared_example : Cleared (clear 3 ends items) items ends cells
clear-Cleared_example = clear-Cleared items ends cells 3 items-Holds (omega arith)

destroy-Holds_example : Destroyed (destroy 5 ends items) items 1 cells 2
destroy-Holds_example = destroy-Holds items ends cells 5 items-Holds (omega arith)
