-- ===== src/Listeners/Refine.antt =====
-- include/ListenerContainer.h: the removal is that of the first equal listener of a sequence.
use jhcommon.Prelude.{
  ℕ, zero, suc, ◌<◌, ◌≡◌, ◌≢◌, refl, sym, ◌∙◌, true, false, some, [], ◌∷◌, ◌++◌, ◌==◌,
  if◌then◌else◌, arith, length, Bool-cases, inl, inr, append_assoc,
}
use mathlib.Core.Path.{subst}
use jhcommon.LinkedList.{Ptr, Heap, JhList, begin, end, next_of, val_of, step_forward, erase}
use jhcommon.LinkedList.Links.{Linked, Chain, Cells, first_of, Holds}
use jhcommon.LinkedList.Cells.{lacks-delete}
use jhcommon.LinkedList.Splice.{Chain-from}
use jhcommon.LinkedList.Place.{first-Linked}
use jhcommon.LinkedList.Loops.{next_of_ne}
use jhcommon.LinkedList.Refine.{erased, erased-Holds, erase-erased}
use jhcommon.Listeners.{remove_from, remove_listener}

abbrev pub remove_first : ℕ → Cells ℕ → Cells ℕ
remove_first x [] = []
remove_first x ((a, v) ∷ xs) = if v == x then xs else (a, v) ∷ remove_first x xs

remove_from-end :
    (h : Heap ℕ) (l : JhList) (x fuel : ℕ) → remove_from (suc fuel) x l.tail l h ≡ some h
unfolding remove_from end
remove_from-end h l x fuel = let t : (l.tail == l.tail) ≡ true = ground arith in rw t refl

remove_from-hit :
    (h g : Heap ℕ) (l : JhList) (x fuel v n : ℕ) (a : Ptr)
    → a ≢ l.tail
    → val_of h a ≡ some (some v)
    → (v == x) ≡ true
    → erase a h ≡ some (n, g)
    → remove_from (suc fuel) x a l h ≡ some g
unfolding remove_from end
remove_from-hit h g l x fuel v n a at e q r =
    let t : (a == l.tail) ≡ false = ground arith in simp (t, e, q, r) refl

remove_from-miss :
    (h : Heap ℕ) (l : JhList) (x fuel v n : ℕ) (a : Ptr)
    → a ≢ l.tail
    → val_of h a ≡ some (some v)
    → (v == x) ≡ false
    → next_of h a ≡ some n
    → remove_from (suc fuel) x a l h ≡ remove_from fuel x n l h
unfolding remove_from end step_forward
remove_from-miss h l x fuel v n a at e q r =
    let t : (a == l.tail) ≡ false = ground arith in
    let z = next_of_ne h a n r in simp (t, e, q, z, r) refl

remove_from-Holds :
    (h : Heap ℕ) (l : JhList) (x fuel : ℕ) (xs ys : Cells ℕ)
    → Holds h l (xs ++ ys)
    → length ys < fuel
    → (g : Heap ℕ) × (remove_from fuel x (first_of ys l.tail) l h ≡ some g)
      × Holds g l (xs ++ remove_first x ys)
unfolding Chain Linked
remove_from-Holds h l x zero xs ys is f = absurd (omega arith)
remove_from-Holds h l x (suc fuel) xs [] is f = (h, remove_from-end h l x fuel, is)
remove_from-Holds h l x (suc fuel) xs ((a, v) ∷ ys) is f =
    let c = Chain-from h l.head xs ((a, v) ∷ ys) l.tail is.chain in
    let next = (first-Linked h a ys l.tail (c.2)).0 in
    let at : a ≢ l.tail = λ e. (lacks-delete l.tail xs ys a v is.tail_apart).1 (sym e) in
    elim (Bool-cases (v == x)) [
      | inl q ↦ (
        erased h l xs ys v a is,
        remove_from-hit h _ l x fuel v _ a at (c.1) q (erase-erased h l xs ys v a is),
        rw q (erased-Holds h l xs ys v a is),
      )
      | inr q ↦
          let split = append_assoc xs ((a, v) ∷ []) ys in
          let (g, e, gs) =
            remove_from-Holds h l x fuel (xs ++ ((a, v) ∷ [])) ys (subst (Holds h l) (sym split) is)
              (omega arith) in
          (
            g,
            remove_from-miss h l x fuel v _ a at (c.1) q next ∙ e,
            rw q (subst (Holds g l) (append_assoc xs ((a, v) ∷ []) (remove_first x ys)) gs),
          )
    ]

-- With fuel for each listener and one more, `removeListener` ends without a fault, and takes the
-- first node with the listener out of the list; without such a node the list is as it was.
pub remove_listener-Holds :
    (h : Heap ℕ) (l : JhList) (x fuel : ℕ) (xs : Cells ℕ)
    → Holds h l xs
    → length xs < fuel
    → (g : Heap ℕ) × (remove_listener fuel x l h ≡ some g) × Holds g l (remove_first x xs)
unfolding remove_listener begin Linked
remove_listener-Holds h l x fuel xs is f =
    let first = (first-Linked h l.head xs l.tail is.chain).0 in
    let (g, e, gs) = remove_from-Holds h l x fuel [] xs is f in (g, rw first e, gs)
