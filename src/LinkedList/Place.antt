-- ===== src/LinkedList/Place.antt =====
-- include/jh_list.h: the nodes at a place of a list, and the heap after one was put there or taken out.
use jhcommon.Prelude.{◌≡◌, ◌≢◌, refl, sym, ap, Option, none, some, [], ◌∷◌, ◌++◌, ◌>>=◌, arith}
use jhcommon.LinkedList.{Ptr, Node, Heap, JhList, load, next_of, prev_of}
use jhcommon.LinkedList.Links.{
  Linked, Chain, Distinct, Cells, ◌∉◌, last_of, first_of, Holds, lacks_left, lacks_right,
}
use jhcommon.LinkedList.Splice.{Chain-from, Holds-insert}
use jhcommon.LinkedList.Cells.{last_ne, first_ne, first_lacks, lacks-delete, Distinct-delete}
use jhcommon.LinkedList.Insert.{
  linked_in, linked_in-SameBut, linked_in_before, linked_in_after, linked_in_val,
}

module _ {A : Type 0} where
  field_some :
      (o : Option (Node A)) (f : Node A → Ptr) (q : Ptr)
      → (o >>= λ n. some (f n)) ≡ some q
      → (n : Node A) × (o ≡ some n) × (f n ≡ q)
  field_some none f q e = absurd cc
  field_some (some n) f q e = (n, refl, cc)

  pub node_next :
      (h : Heap A) (p q : Ptr)
      → next_of h p ≡ some q
      → (n : Node A) × (load h p ≡ some n) × (n.next ≡ q)
  unfolding next_of
  node_next h p q e = field_some (load h p) (λ n. n.next) q e

  node_prev :
      (h : Heap A) (p q : Ptr)
      → prev_of h q ≡ some p
      → (n : Node A) × (load h q ≡ some n) × (n.prev ≡ p)
  unfolding prev_of
  node_prev h p q e = field_some (load h q) (λ n. n.prev) p e

  pub first-Linked :
      (h : Heap A) (p : Ptr) (ys : Cells A) (e : Ptr) → Chain h p ys e → Linked h p (first_of ys e)
  unfolding Chain
  first-Linked h p [] e c = c
  first-Linked h p ((b, v) ∷ ys) e c = c.0

  load_live : (h : Heap A) (p a : Ptr) (n : Node A) → load h p ≡ some n → h a ≡ none → a ≢ p
  unfolding load
  load_live h p a n e z x = ground arith

  fresh_lacks :
      (h : Heap A) (s : Ptr) (xs : Cells A) (e a : Ptr) → Chain h s xs e → h a ≡ none → a ∉ xs
  unfolding Chain Linked
  fresh_lacks h s [] e a c z = refl
  fresh_lacks h s ((b, v) ∷ xs) e a c z =
      let (n, l, _) = node_prev h s b ((c.0).1) in
      let ne = load_live h b a n l z in let r = fresh_lacks h b xs e a (c.2) z in ground arith

  -- what stands at a place of a list: the nodes before it and after it, and that an unused address
  -- is apart from all of them
  pub record Place (h : Heap A) (l : JhList) (xs ys : Cells A) : Type 0 where
    pub np : Node A
    pub nq : Node A
    pub at_p : load h (last_of l.head xs) ≡ some np
    pub at_q : load h (first_of ys l.tail) ≡ some nq
    pub to_q : np.next ≡ first_of ys l.tail
    pub to_p : nq.prev ≡ last_of l.head xs
    pub differ : last_of l.head xs ≢ first_of ys l.tail

  pub place : (h : Heap A) (l : JhList) (xs ys : Cells A) → Holds h l (xs ++ ys) → Place h l xs ys
  unfolding Linked
  place h l xs ys is =
      let k =
        first-Linked h (last_of l.head xs) ys l.tail (Chain-from h l.head xs ys l.tail is.chain) in
      let (np, ap, tp) = node_next h (last_of l.head xs) (first_of ys l.tail) (k.0) in
      let (nq, aq, tq) = node_prev h (last_of l.head xs) (first_of ys l.tail) (k.1) in
      let hq : l.head ≢ first_of ys l.tail = λ x.
        first_ne l.head l.tail ys (λ y. is.ends (sym y)) (lacks_right l.head xs ys is.head_apart)
          (sym x) in
      record {
        np = np;
        nq = nq;
        at_p = ap;
        at_q = aq;
        to_q = tp;
        to_p = tq;
        differ =
            last_ne (first_of ys l.tail) l.head xs hq
              (first_lacks xs ys l.tail is.tail_apart is.apart);
      }

  module _ (h : Heap A) (l : JhList) (xs ys : Cells A) (v : A) (a : Ptr) (is : Holds h l (xs ++ ys))
      (na : a ≢ 0) (ea : h a ≡ none) where
    abbrev at : Place h l xs ys
    at = place h l xs ys is

    unfoldable pub inserted : Heap A
    inserted = linked_in h (last_of l.head xs) (first_of ys l.tail) a at.np at.nq v

    pub inserted-Holds : Holds inserted l (xs ++ ((a, v) ∷ ys))
    unfolding inserted Linked
    inserted-Holds =
        let p = last_of l.head xs in
        let q = first_of ys l.tail in
        let w = at in
        let (nh, lh, _) = node_prev h 0 l.head is.before in
        let (nt, lt, _) = node_next h l.tail 0 is.after in
        Holds-insert xs ys a v is
          (linked_in-SameBut h p q a w.np w.nq v w.at_p w.at_q w.to_q w.to_p w.differ na ea)
          (linked_in_before h p q a w.np w.nq v w.at_p w.at_q w.to_q w.to_p w.differ na ea)
          (linked_in_val h p q a w.np w.nq v w.at_p w.at_q w.to_q w.to_p w.differ na ea)
          (linked_in_after h p q a w.np w.nq v w.at_p w.at_q w.to_q w.to_p w.differ na ea)
          (load_live h l.head a nh lh ea) (load_live h l.tail a nt lt ea)
          (fresh_lacks h l.head (xs ++ ys) l.tail a is.chain ea)

  prev_node :
      (h : Heap A) (p q : Ptr) (n : Node A) → load h q ≡ some n → prev_of h q ≡ some p → n.prev ≡ p
  unfolding prev_of
  prev_node h p q n l e = let k = rw l at e in cc

  -- a node of a list with its two neighbours
  pub record Around (h : Heap A) (p a q : Ptr) : Type 0 where
    pub np : Node A
    pub nq : Node A
    pub na : Node A
    pub at_p : load h p ≡ some np
    pub at_q : load h q ≡ some nq
    pub at_a : load h a ≡ some na
    pub p_to_a : np.next ≡ a
    pub q_to_a : nq.prev ≡ a
    pub a_to_q : na.next ≡ q
    pub a_to_p : na.prev ≡ p
    pub p_ne_q : p ≢ q
    pub p_ne_a : p ≢ a
    pub q_ne_a : q ≢ a

  pub around :
      (h : Heap A) (l : JhList) (xs ys : Cells A) (v : A) (a : Ptr)
      → Holds h l (xs ++ ((a, v) ∷ ys))
      → Around h (last_of l.head xs) a (first_of ys l.tail)
  unfolding Chain Linked Distinct
  around h l xs ys v a is =
      let c = Chain-from h l.head xs ((a, v) ∷ ys) l.tail is.chain in
      let (np, ap, tp) = node_next h (last_of l.head xs) a ((c.0).0) in
      let k = first-Linked h a ys l.tail (c.2) in
      let (na, aa, ta) = node_next h a (first_of ys l.tail) (k.0) in
      let (nq, aq, tq) = node_prev h a (first_of ys l.tail) (k.1) in
      let (hn, ha) = lacks-delete l.head xs ys a v is.head_apart in
      let (tn, te) = lacks-delete l.tail xs ys a v is.tail_apart in
      let (d, da) = Distinct-delete xs ys a v is.apart in
      let hq : l.head ≢ first_of ys l.tail = λ x.
        first_ne l.head l.tail ys (λ y. is.ends (sym y)) (lacks_right l.head xs ys hn) (sym x) in
      record {
        np = np;
        nq = nq;
        na = na;
        at_p = ap;
        at_q = aq;
        at_a = aa;
        p_to_a = tp;
        q_to_a = tq;
        a_to_q = ta;
        a_to_p = prev_node h (last_of l.head xs) a na aa ((c.0).1);
        p_ne_q = last_ne (first_of ys l.tail) l.head xs hq (first_lacks xs ys l.tail tn d);
        p_ne_a = last_ne a l.head xs ha (lacks_left a xs ys da);
        q_ne_a = first_ne a l.tail ys te (lacks_right a xs ys da);
      }
