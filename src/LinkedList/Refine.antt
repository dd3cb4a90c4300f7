-- ===== src/LinkedList/Refine.antt =====
-- include/jh_list.h: the operations on the heap are those of a sequence of values.
use jhcommon.Prelude.{
  ◌≡◌, ◌≢◌, refl, sym, ap, true, Option, none, some, [], ◌∷◌, ◌++◌, ◌==◌, arith, append-nil, drop,
  ◌⊎◌, inl, inr,
}
use mathlib.Core.Path.{subst}
use jhcommon.LinkedList.{
  Ptr, Heap, JhList, insert_after, insert_before, push_front, push_back, pop_front, pop_back, erase,
}
use jhcommon.LinkedList.Links.{Linked, Chain, Cells, last_of, first_of, Holds}
use jhcommon.LinkedList.Splice.{SameBut, Chain-from, Holds-erase}
use jhcommon.LinkedList.Cells.{lacks-delete}
use jhcommon.LinkedList.Insert.{insert_after_ok, push_front_ok, push_back_ok, linked_in-SameBut}
use jhcommon.LinkedList.Erase.{
  linked_out, erase_ok, pop_front_ok, pop_back_ok, linked_out-SameBut, linked_out-Linked,
  linked_out_freed, linked_out_other,
}
use jhcommon.LinkedList.Place.{place, inserted, inserted-Holds, around, Around, first-Linked}

module _ {A : Type 0} where
  -- The operation does not fault, it leaves the list `l` with these nodes, and it writes at most
  -- the node `a`, the `next` of the node before it and the `prev` of the node after it.
  unfoldable pub Leaves : Option (Heap A) → Heap A → JhList → Cells A → Ptr → Ptr → Ptr → Type 0
  Leaves o h l xs p q a = (g : Heap A) × (o ≡ some g) × Holds g l xs × SameBut h g p q a

  module _ (h : Heap A) (l : JhList) (xs ys : Cells A) (v : A) (a : Ptr) (is : Holds h l (xs ++ ys))
      (na : a ≢ 0) (ea : h a ≡ none) where
    -- `insertAfter` at any node or at the head placeholder, with an unused address, puts the value
    -- right behind that node.
    pub insert_after-Holds :
        Leaves
          (insert_after (last_of l.head xs) v a h)
          h
          l
          (xs ++ ((a, v) ∷ ys))
          (last_of l.head xs)
          (first_of ys l.tail)
          a
    unfolding Leaves inserted
    insert_after-Holds =
        let w = place h l xs ys is in
        (
          _,
          insert_after_ok h _ _ a w.np w.nq v w.at_p w.at_q w.to_q w.to_p w.differ na ea,
          inserted-Holds h l xs ys v a is na ea,
          linked_in-SameBut h _ _ a w.np w.nq v w.at_p w.at_q w.to_q w.to_p w.differ na ea,
        )

    -- `insertBefore` at any node or at the tail placeholder, with an unused address, puts the value
    -- right before that node.
    pub insert_before-Holds :
        Leaves
          (insert_before (first_of ys l.tail) v a h)
          h
          l
          (xs ++ ((a, v) ∷ ys))
          (last_of l.head xs)
          (first_of ys l.tail)
          a
    unfolding insert_before Linked
    insert_before-Holds =
        let c = Chain-from h l.head xs ys l.tail is.chain in
        let k = first-Linked h (last_of l.head xs) ys l.tail c in rw (k.1) insert_after-Holds

  module _ (h : Heap A) (l : JhList) (xs : Cells A) (v : A) (a : Ptr) (is : Holds h l xs)
      (na : a ≢ 0) (ea : h a ≡ none) where
    -- `push_front` with an unused address puts the value first.
    pub push_front-Holds :
        Leaves (push_front l v a h) h l ((a, v) ∷ xs) l.head (first_of xs l.tail) a
    unfolding Leaves inserted
    push_front-Holds =
        let w = place h l [] xs is in
        (
          _,
          push_front_ok h _ _ a w.np w.nq v w.at_p w.at_q w.to_q w.to_p w.differ na ea l refl,
          inserted-Holds h l [] xs v a is na ea,
          linked_in-SameBut h _ _ a w.np w.nq v w.at_p w.at_q w.to_q w.to_p w.differ na ea,
        )

    -- `push_back` with an unused address puts the value last.
    pub push_back-Holds :
        Leaves (push_back l v a h) h l (xs ++ ((a, v) ∷ [])) (last_of l.head xs) l.tail a
    unfolding Leaves inserted
    push_back-Holds =
        let all = subst (Holds h l) (sym (append-nil xs)) is in
        let w = place h l xs [] all in
        (
          _,
          push_back_ok h _ _ a w.np w.nq v w.at_p w.at_q w.to_q w.to_p w.differ na ea l refl,
          inserted-Holds h l xs [] v a all na ea,
          linked_in-SameBut h _ _ a w.np w.nq v w.at_p w.at_q w.to_q w.to_p w.differ na ea,
        )

  module _ (h : Heap A) (l : JhList) (xs ys : Cells A) (v : A) (a : Ptr)
      (is : Holds h l (xs ++ ((a, v) ∷ ys))) where
    abbrev w : Around h (last_of l.head xs) a (first_of ys l.tail)
    w = around h l xs ys v a is

    unfoldable pub erased : Heap A
    erased = linked_out h (last_of l.head xs) (first_of ys l.tail) a w.np w.nq

    pub erased-SameBut : SameBut h erased (last_of l.head xs) (first_of ys l.tail) a
    unfolding erased
    erased-SameBut =
        linked_out-SameBut h _ _ a w.np w.nq w.na w.at_p w.at_q w.at_a w.p_to_a w.q_to_a w.a_to_q
          w.a_to_p w.p_ne_q w.p_ne_a w.q_ne_a

    pub erased-Holds : Holds erased l (xs ++ ys)
    unfolding erased
    erased-Holds = Holds-erase xs ys a v is erased-SameBut (
        linked_out-Linked h _ _ a w.np w.nq w.na w.at_p w.at_q w.at_a w.p_to_a w.q_to_a w.a_to_q
          w.a_to_p w.p_ne_q w.p_ne_a w.q_ne_a)

    pub erased_freed : erased a ≡ none
    unfolding erased
    erased_freed =
        linked_out_freed h _ _ a w.np w.nq w.na w.at_p w.at_q w.at_a w.p_to_a w.q_to_a w.a_to_q
          w.a_to_p w.p_ne_q w.p_ne_a w.q_ne_a

    pub erased_other :
        (x : Ptr) → x ≢ last_of l.head xs → x ≢ first_of ys l.tail → x ≢ a → erased x ≡ h x
    unfolding erased
    erased_other =
        linked_out_other h _ _ a w.np w.nq w.na w.at_p w.at_q w.at_a w.p_to_a w.q_to_a w.a_to_q
          w.a_to_p w.p_ne_q w.p_ne_a w.q_ne_a

    pub erase-erased : erase a h ≡ some (first_of ys l.tail, erased)
    unfolding erased
    erase-erased =
        erase_ok h _ _ a w.np w.nq w.na w.at_p w.at_q w.at_a w.p_to_a w.q_to_a w.a_to_q w.a_to_p
          w.p_ne_q w.p_ne_a w.q_ne_a

    -- `erase` at any node of the list deletes it, and returns an iterator at the next one, or at the
    -- tail placeholder.
    pub erase-Holds :
        (g : Heap A) × (erase a h ≡ some (first_of ys l.tail, g))
        × Holds g l (xs ++ ys)
        × SameBut h g (last_of l.head xs) (first_of ys l.tail) a
        × (g a ≡ none)
    erase-Holds = (erased, erase-erased, erased-Holds, erased-SameBut, erased_freed)

  empty_next : (h : Heap A) (l : JhList) → Holds h l [] → Linked h l.head l.tail
  unfolding Chain
  empty_next h l is = is.chain

  -- `pop_front` drops the first node, and leaves an empty list as it is.
  pub pop_front-Holds :
      (h : Heap A) (l : JhList) (xs : Cells A)
      → Holds h l xs
      → (g : Heap A) × (pop_front l h ≡ some g) × Holds g l (drop 1 xs)
  unfolding pop_front Linked erased
  pop_front-Holds h l [] is =
      let e = (empty_next h l is).0 in
      let t : (l.tail == l.tail) ≡ true = ground arith in (h, rw (e, t) refl, is)
  pop_front-Holds h l ((a, v) ∷ ys) is =
      let w = around h l [] ys v a is in
      let ta : l.tail ≢ a = (lacks-delete l.tail [] ys a v is.tail_apart).1 in
      (
        _,
        pop_front_ok h _ _ a w.np w.nq w.na w.at_p w.at_q w.at_a w.p_to_a w.q_to_a w.a_to_q w.a_to_p
            w.p_ne_q w.p_ne_a w.q_ne_a l refl ta,
        erased-Holds h l [] ys v a is,
      )

  -- all but the last node
  abbrev pub init : Cells A → Cells A
  init [] = []
  init (x ∷ []) = []
  init (x ∷ (y ∷ ys)) = x ∷ init (y ∷ ys)

  init_last : (xs : Cells A) → (xs ≡ []) ⊎ ((a : Ptr) × (v : A) × (xs ≡ init xs ++ ((a, v) ∷ [])))
  init_last [] = inl refl
  init_last ((a, v) ∷ []) = inr (a, v, refl)
  init_last (x ∷ (y ∷ ys)) = elim (init_last (y ∷ ys)) [
    | inl e ↦ absurd cc
    | inr (a, v, e) ↦ inr (a, v, ap (◌∷◌ x) e)
  ]

  -- `pop_back` drops the last node, and leaves an empty list as it is.
  pub pop_back-Holds :
      (h : Heap A) (l : JhList) (xs : Cells A)
      → Holds h l xs
      → (g : Heap A) × (pop_back l h ≡ some g) × Holds g l (init xs)
  unfolding pop_back Linked erased
  pop_back-Holds h l xs is = elim (init_last xs) [
    | inl z ↦
        let is0 = subst (Holds h l) z is in
        let e = (empty_next h l is0).1 in
        let t : (l.head == l.head) ≡ true = ground arith in (h, rw (e, t) refl, rw z is0)
    | inr (a, v, z) ↦
        let isz = subst (Holds h l) z is in
        let w = around h l (init xs) [] v a isz in
        let (hn, ha) = lacks-delete l.head (init xs) [] a v isz.head_apart in
        (
          _,
          pop_back_ok h _ _ a w.np w.nq w.na w.at_p w.at_q w.at_a w.p_to_a w.q_to_a w.a_to_q
              w.a_to_p w.p_ne_q w.p_ne_a w.q_ne_a l refl ha,
          subst (Holds _ l) (append-nil (init xs)) (erased-Holds h l (init xs) [] v a isz),
        )
  ]
