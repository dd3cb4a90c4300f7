-- ===== src/LinkedList/Erase.antt =====
-- include/jh_list.h: `erase`, `pop_front` and `pop_back` write one and the same heap, and its chain
-- lacks the node.
use jhcommon.Prelude.{◌≡◌, ◌≢◌, refl, sym, ◌∙◌, ap, true, false, none, some, ◌==◌, arith}
use jhcommon.LinkedList.{
  Ptr, Node, Heap, JhList, load, write, next_of, prev_of, val_of, set_next, set_prev, delete,
  unlink, erase, pop_front, pop_back,
}
use jhcommon.LinkedList.Links.{Linked}
use jhcommon.LinkedList.Splice.{SameBut}
use jhcommon.LinkedList.Insert.{write_swap}

module _ {A : Type 0} where
  -- the heap after the node `a` was taken from between `p` and `q` and deleted
  unfoldable pub linked_out : Heap A → Ptr → Ptr → Ptr → Node A → Node A → Heap A
  linked_out h p q a np nq =
      write (write (write h p (some (record np { next = q }))) q (some (record nq { prev = p }))) a
        none

  module _ (h : Heap A) (p q a : Ptr) (np nq na : Node A) (ep : load h p ≡ some np)
      (eq : load h q ≡ some nq) (ea : load h a ≡ some na) (en : np.next ≡ a) (er : nq.prev ≡ a)
      (an : na.next ≡ q) (ar : na.prev ≡ p) (ne : p ≢ q) (pa_ne : p ≢ a) (qa_ne : q ≢ a) where
    aa : (a == a) ≡ true
    aa = ground arith

    pp : (p == p) ≡ true
    pp = ground arith

    qq : (q == q) ≡ true
    qq = ground arith

    a0 : (a == 0) ≡ false
    unfolding load
    a0 = ground arith

    p0 : (p == 0) ≡ false
    unfolding load
    p0 = ground arith

    q0 : (q == 0) ≡ false
    unfolding load
    q0 = ground arith

    hp : h p ≡ some np
    unfolding load
    hp = ground arith

    hq : h q ≡ some nq
    unfolding load
    hq = ground arith

    ha : h a ≡ some na
    unfolding load
    ha = ground arith

    ap_ne : (a == p) ≡ false
    ap_ne = ground arith

    aq_ne : (a == q) ≡ false
    aq_ne = ground arith

    pa : (p == a) ≡ false
    pa = ground arith

    qa : (q == a) ≡ false
    qa = ground arith

    pq : (p == q) ≡ false
    pq = ground arith

    qp : (q == p) ≡ false
    qp = ground arith

    pub erase_ok : erase a h ≡ some (q, linked_out h p q a np nq)
    unfolding erase unlink linked_out load write set_next set_prev next_of prev_of delete
    erase_ok = simp (a0, ha, an, q0, ar, p0, hp, qp, hq, aq_ne, ap_ne) refl

    pub pop_front_ok :
        (l : JhList) → l.head ≡ p → l.tail ≢ a → pop_front l h ≡ some (linked_out h p q a np nq)
    unfolding pop_front linked_out load write set_next set_prev next_of prev_of delete
    pop_front_ok l e te =
        let at : (a == l.tail) ≡ false = ground arith in
        simp (e, p0, hp, en, at, a0, ha, an, ap_ne, pa, pp, q0, qa, qp, hq)
          (ap some (write_swap _ a q _ _ (λ x. qa_ne (sym x))))

    pub pop_back_ok :
        (l : JhList) → l.tail ≡ q → l.head ≢ a → pop_back l h ≡ some (linked_out h p q a np nq)
    unfolding pop_back linked_out load write set_next set_prev next_of prev_of delete
    pop_back_ok l e te =
        let at : (a == l.head) ≡ false = ground arith in
        simp (e, q0, hq, er, at, a0, ha, ar, aq_ne, qa, qq, p0, pa, pq, hp)
          (ap some (
            write_swap _ a p _ _ (λ x. pa_ne (sym x))
            ∙ ap (λ z. write z a none) (write_swap h q p _ _ (λ x. ne (sym x)))))

    pub linked_out-SameBut : SameBut h (linked_out h p q a np nq) p q a
    unfolding linked_out load write next_of prev_of val_of
    linked_out-SameBut = record {
      next_same = λ x xp xa. ground (arith, hp, hq);
      prev_same = λ x xq xa. ground (arith, hp, hq);
      val_same = λ x xa. ground (arith, hp, hq);
    }

    pub linked_out-Linked : Linked (linked_out h p q a np nq) p q
    unfolding Linked linked_out load write next_of prev_of
    linked_out-Linked = (simp (p0, pa, pq, pp) refl, simp (q0, qa, qq) refl)

    pub linked_out_freed : linked_out h p q a np nq a ≡ none
    unfolding linked_out write
    linked_out_freed = simp aa refl

    pub linked_out_other : (x : Ptr) → x ≢ p → x ≢ q → x ≢ a → linked_out h p q a np nq x ≡ h x
    unfolding linked_out write
    linked_out_other x xp xq xa = ground arith
