-- ===== src/Listeners.antt =====
-- include/ListenerContainer.h: the listeners, addresses as numbers, in the list of
-- include/jh_list.h. The lock is held throughout, and a listener that is called leaves the list as
-- it is, as the source asks.
mod Refine
mod Tests
use jhcommon.Prelude.{ℕ, zero, suc, Option, none, some, List, [], ◌∷◌, ◌>>=◌, ◌==◌, if◌then◌else◌}
use jhcommon.LinkedList.{Ptr, Heap, JhList, begin, end, val_of, step_forward, push_back, erase}

-- `addListener`, the new node at `a`
unfoldable pub add_listener : ℕ → Ptr → JhList → Heap ℕ → Option (Heap ℕ)
add_listener x a l h = push_back l x a h

-- the loop of `removeListener` from the iterator i
unfoldable pub remove_from : ℕ → ℕ → Ptr → JhList → Heap ℕ → Option (Heap ℕ)
remove_from zero x i l h = none
remove_from (suc fuel) x i l h = if i == end l then some h else do
  v ← val_of h i
  node ← v
  if node == x
      then (erase i h >>= λ r. some (r.1))
      else (step_forward i h >>= λ i. remove_from fuel x i l h)

unfoldable pub remove_listener : ℕ → ℕ → JhList → Heap ℕ → Option (Heap ℕ)
remove_listener fuel x l h = do i ← begin l h; remove_from fuel x i l h

-- the loop of `invokeListeners`, with the listeners that it calls, in order
unfoldable pub invoke_from : ℕ → Ptr → JhList → Heap ℕ → Option (List ℕ)
invoke_from zero i l h = none
invoke_from (suc fuel) i l h = if i == end l then some [] else do
  v ← val_of h i
  node ← v
  i ← step_forward i h
  rest ← invoke_from fuel i l h
  some (node ∷ rest)

unfoldable pub invoke_listeners : ℕ → JhList → Heap ℕ → Option (List ℕ)
invoke_listeners fuel l h = do i ← begin l h; invoke_from fuel i l h
