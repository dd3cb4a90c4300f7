-- ===== src/LinkedList/Links.antt =====
-- include/jh_list.h: the chain of nodes of a list, and what a write to the heap leaves of it.
use jhcommon.Prelude.{◌≡◌, ◌≢◌, refl, Bool, false, ◌||◌, some, List, [], ◌∷◌, ◌++◌, ◌==◌, arith}
use jhcommon.LinkedList.{Ptr, Heap, JhList, next_of, prev_of, val_of}

-- a heap address and the value of the node there, in order
abbrev pub Cells : Type 0 → Type 0
Cells A = List (Ptr × A)

module _ {A : Type 0} where
  -- `p->next` is `q` and `q->prev` is `p`
  unfoldable pub Linked : Heap A → Ptr → Ptr → Type 0
  Linked h p q = (next_of h p ≡ some q) × (prev_of h q ≡ some p)

  -- the nodes `xs` stand between `p` and `q`, linked both ways
  unfoldable pub Chain : Heap A → Ptr → Cells A → Ptr → Type 0
  Chain h p [] q = Linked h p q
  Chain h p ((a, v) ∷ xs) q = Linked h p a × (val_of h a ≡ some (some v)) × Chain h a xs q

  abbrev pub has : Ptr → Cells A → Bool
  has a [] = false
  has a ((p, _) ∷ xs) = (a == p) || has a xs

  infix 40 ◌∉◌
  abbrev pub ◌∉◌ : Ptr → Cells A → Type 0
  a ∉ xs = has a xs ≡ false

  unfoldable pub Distinct : Cells A → Type 0
  Distinct [] = Unit {0}
  Distinct ((a, _) ∷ xs) = (a ∉ xs) × Distinct xs

  -- the node before, or after, a segment that begins or ends at the given node
  abbrev pub last_of : Ptr → Cells A → Ptr
  last_of p [] = p
  last_of p ((a, _) ∷ xs) = last_of a xs

  abbrev pub first_of : Cells A → Ptr → Ptr
  first_of [] q = q
  first_of ((a, _) ∷ xs) q = a

  -- The heap holds the list `l` with the nodes `xs`: the placeholders end the chain, and no node
  -- stands in it twice.
  pub record Holds (h : Heap A) (l : JhList) (xs : Cells A) : Type 0 where
    pub chain : Chain h l.head xs l.tail
    pub before : prev_of h l.head ≡ some 0
    pub after : next_of h l.tail ≡ some 0
    pub ends : l.head ≢ l.tail
    pub head_apart : l.head ∉ xs
    pub tail_apart : l.tail ∉ xs
    pub apart : Distinct xs

module _ {A : Type 0} where
  pub has-append : (a : Ptr) (xs ys : Cells A) → has a (xs ++ ys) ≡ (has a xs || has a ys)
  has-append a [] ys = refl
  has-append a ((p, v) ∷ xs) ys = ground (arith, has-append a xs ys)

  pub lacks-append : (a : Ptr) (xs ys : Cells A) → a ∉ xs → a ∉ ys → a ∉ (xs ++ ys)
  lacks-append a xs ys o p = rw (has-append, o, p)

  pub lacks_left : (a : Ptr) (xs ys : Cells A) → a ∉ (xs ++ ys) → a ∉ xs
  lacks_left a xs ys o = let e = has-append a xs ys in ground arith

  pub lacks_right : (a : Ptr) (xs ys : Cells A) → a ∉ (xs ++ ys) → a ∉ ys
  lacks_right a xs ys o = let e = has-append a xs ys in ground arith
