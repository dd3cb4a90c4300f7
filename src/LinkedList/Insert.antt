-- ===== src/LinkedList/Insert.antt =====
-- include/jh_list.h: `insertAfter`, `push_front` and `push_back` write one and the same heap, and
-- its chain has the new node in its place.
use jhcommon.Prelude.{◌≡◌, ◌≢◌, refl, ap, fun_ext, true, false, Option, none, some, ◌==◌, arith}
use jhcommon.LinkedList.{
  Ptr, Node, node, Heap, JhList, load, write, next_of, prev_of, val_of, new_node, set_val, set_next,
  set_prev, insert_after, push_front, push_back,
}
use jhcommon.LinkedList.Links.{Linked}
use jhcommon.LinkedList.Splice.{SameBut}

module _ {A : Type 0} where
  pub write-write :
      (h : Heap A) (a : Ptr) (c d : Option (Node A)) → write (write h a c) a d ≡ write h a d
  unfolding write
  write-write h a c d = fun_ext λ x. ground arith

  -- the heap after a node `a` with value `v` was put between `p` and `q`
  unfoldable pub linked_in : Heap A → Ptr → Ptr → Ptr → Node A → Node A → A → Heap A
  linked_in h p q a np nq v =
      write (write (write h a (some (node (some v) q p))) q (some (record nq { prev = a }))) p
        (some (record np { next = a }))

  pub write_swap :
      (h : Heap A) (a b : Ptr) (c d : Option (Node A))
      → a ≢ b
      → write (write h a c) b d ≡ write (write h b d) a c
  unfolding write
  write_swap h a b c d n = fun_ext λ x. ground arith

  module _ (h : Heap A) (p q a : Ptr) (np nq : Node A) (v : A) (ep : load h p ≡ some np)
      (eq : load h q ≡ some nq) (en : np.next ≡ q) (er : nq.prev ≡ p) (ne : p ≢ q) (na : a ≢ 0)
      (ea : h a ≡ none) where
    a0 : (a == 0) ≡ false
    a0 = ground arith

    aa : (a == a) ≡ true
    aa = ground arith

    pp : (p == p) ≡ true
    pp = ground arith

    qq : (q == q) ≡ true
    qq = ground arith

    ap_ne : (a == p) ≡ false
    unfolding load
    ap_ne = ground arith

    aq_ne : (a == q) ≡ false
    unfolding load
    aq_ne = ground arith

    p0 : (p == 0) ≡ false
    unfolding load
    p0 = ground arith

    q0 : (q == 0) ≡ false
    unfolding load
    q0 = ground arith

    hp : h p ≡ some np
    unfolding load
    hp = ground arith

    hq : h q ≡ some nq
    unfolding load
    hq = ground arith

    pa : (p == a) ≡ false
    unfolding load
    pa = ground arith

    qa : (q == a) ≡ false
    unfolding load
    qa = ground arith

    pq : (p == q) ≡ false
    pq = ground arith

    qp : (q == p) ≡ false
    qp = ground arith

    pub insert_after_ok : insert_after p v a h ≡ some (linked_in h p q a np nq v)
    unfolding insert_after linked_in load write new_node set_val set_next set_prev next_of prev_of
    insert_after_ok = simp (a0, aa, p0, q0, hp, hq, pa, qa, pq, en) (simp write-write refl)

    pub push_front_ok :
        (l : JhList) → l.head ≡ p → push_front l v a h ≡ some (linked_in h p q a np nq v)
    unfolding push_front linked_in load write new_node set_val set_next set_prev next_of prev_of
    push_front_ok l e = simp (e, a0, aa, p0, q0, hp, hq, pa, qa, pq, en) (simp write-write refl)

    pub push_back_ok :
        (l : JhList) → l.tail ≡ q → push_back l v a h ≡ some (linked_in h p q a np nq v)
    unfolding push_back linked_in load write new_node set_val set_next set_prev next_of prev_of
    push_back_ok l e =
        simp (e, a0, aa, p0, q0, hp, hq, pa, qa, qp, er)
          (simp write-write (ap some (write_swap _ p q _ _ ne)))

    pub linked_in-SameBut : SameBut h (linked_in h p q a np nq v) p q a
    unfolding linked_in load write next_of prev_of val_of
    linked_in-SameBut = record {
      next_same = λ x xp xa. ground (arith, hp, hq);
      prev_same = λ x xq xa. ground (arith, hp, hq);
      val_same = λ x xa. ground (arith, hp, hq);
    }

    pub linked_in_before : Linked (linked_in h p q a np nq v) p a
    unfolding Linked linked_in load write next_of prev_of
    linked_in_before = (simp (p0, pp) refl, simp (a0, ap_ne, aq_ne, aa) refl)

    pub linked_in_after : Linked (linked_in h p q a np nq v) a q
    unfolding Linked linked_in load write next_of prev_of
    linked_in_after = (simp (a0, ap_ne, aq_ne, aa) refl, simp (q0, qp, qq) refl)

    pub linked_in_val : val_of (linked_in h p q a np nq v) a ≡ some (some v)
    unfolding linked_in load write val_of
    linked_in_val = simp (a0, ap_ne, aq_ne, aa) refl
