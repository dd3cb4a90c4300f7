-- ===== src/LinkedList/Destroy.antt =====
-- include/jh_list.h: the destructor deletes the nodes from the head placeholder on.
use jhcommon.Prelude.{
  ℕ, zero, suc, ◌+◌, ◌≤◌, ◌<◌, ◌≡◌, ◌≢◌, refl, sym, ◌∙◌, Option, none, some, [], ◌∷◌, arith, length,
  All,
}
use jhcommon.LinkedList.{
  Ptr, Heap, JhList, load, write, next_of, prev_of, val_of, delete, destroy_from, destroy,
}
use jhcommon.LinkedList.Links.{Linked, Chain, Cells, Distinct, ◌∉◌, Holds}
use jhcommon.LinkedList.Splice.{SameBut, Chain-spare}
use jhcommon.LinkedList.Cells.{head_ne, tail_lacks}
use jhcommon.LinkedList.Place.{node_next}
use jhcommon.LinkedList.Loops.{next_of_ne}

module _ {A : Type 0} where
  -- what the destructor gives: no node from `s` over `xs` to `e` is left, and no other is touched
  unfoldable pub Destroyed : Option (Heap A) → Heap A → Ptr → Cells A → Ptr → Type 0
  Destroyed o h s xs e =
      (g : Heap A) × (o ≡ some g)
      × (g s ≡ none)
      × All (λ x. g (x.0) ≡ none) xs
      × (g e ≡ none)
      × ((x : Ptr) → x ≢ s → x ≢ e → x ∉ xs → g x ≡ h x)

  deleted-SameBut : (h : Heap A) (s : Ptr) → SameBut h (write h s none) s s s
  unfolding write load next_of prev_of val_of
  deleted-SameBut h s = record {
    next_same = λ x n m. ground arith;
    prev_same = λ x n m. ground arith;
    val_same = λ x n. ground arith;
  }

  destroy_from_node :
      (h : Heap A) (p q fuel : ℕ)
      → next_of h p ≡ some q
      → destroy_from (suc fuel) p h ≡ destroy_from fuel q (write h p none)
  unfolding destroy_from delete next_of
  destroy_from_node h p q fuel e =
      let (n, l, t) = node_next h p q e in rw (next_of_ne h p q e, l, t) refl

  destroy_from_null : (h : Heap A) (fuel : ℕ) → 0 < fuel → destroy_from fuel 0 h ≡ some h
  unfolding destroy_from
  destroy_from_null h zero f = absurd (omega arith)
  destroy_from_null h (suc fuel) f = refl

  write_self : (h : Heap A) (s : Ptr) → write h s none s ≡ none
  unfolding write
  write_self h s = ground arith

  write_other : (h : Heap A) (s x : Ptr) → x ≢ s → write h s none x ≡ h x
  unfolding write
  write_other h s x n = ground arith

  destroy-Chain :
      (h : Heap A) (s : Ptr) (xs : Cells A) (e : Ptr) (fuel : ℕ)
      → Chain h s xs e
      → next_of h e ≡ some 0
      → s ≢ e
      → s ∉ xs
      → e ∉ xs
      → Distinct xs
      → length xs + 3 ≤ fuel
      → Destroyed (destroy_from fuel s h) h s xs e
  unfolding Destroyed Chain Linked Distinct
  destroy-Chain h s xs e zero c z se ns ne d f = absurd (omega arith)
  destroy-Chain h s [] e (suc zero) c z se ns ne d f = absurd (omega arith)
  destroy-Chain h s [] e (suc (suc fuel)) c z se ns ne d f =
      let g = write h s none in
      let es : e ≢ s = λ x. se (sym x) in
      let ze = (deleted-SameBut h s).next_same e es es ∙ z in
      (
        write g e none,
        destroy_from_node h s e (suc fuel) (c.0)
            ∙ destroy_from_node g e 0 fuel ze
            ∙ destroy_from_null (write g e none) fuel (omega arith),
        write_other g e s se ∙ write_self h s,
        tt,
        write_self g e,
        λ x xs xe xo. write_other g e x xe ∙ write_other h s x xs,
      )
  destroy-Chain h s ((b, v) ∷ xs) e (suc fuel) c z se ns ne d f =
      let g = write h s none in
      let es : e ≢ s = λ x. se (sym x) in
      let bs = head_ne s b v xs ns in
      let out = tail_lacks s b v xs ns in
      let be : b ≢ e = head_ne e b v xs ne in
      let same = deleted-SameBut h s in
      let left = Chain-spare same b xs e (c.2) bs bs es es out out out in
      let r =
        destroy-Chain g b xs e fuel left (same.next_same e es es ∙ z) be (d.0)
          (tail_lacks e b v xs ne) (d.1) (omega arith) in
      (
        r.0,
        destroy_from_node h s b fuel ((c.0).0) ∙ r.1,
        r.5 s (λ x. bs (sym x)) se out ∙ write_self h s,
        (r.2, r.3),
        r.4,
        λ x xs' xe xo.
            r.5 x (λ y. head_ne x b v xs xo (sym y)) xe (tail_lacks x b v xs xo)
            ∙ write_other h s x xs',
      )

  -- With fuel for the nodes, the placeholders and the last test, the destructor deletes every node
  -- of the list and both placeholders, and touches no other address.
  pub destroy-Holds :
      (h : Heap A) (l : JhList) (xs : Cells A) (fuel : ℕ)
      → Holds h l xs
      → length xs + 3 ≤ fuel
      → Destroyed (destroy fuel l h) h l.head xs l.tail
  unfolding destroy
  destroy-Holds h l xs fuel is f =
      destroy-Chain h l.head xs l.tail fuel is.chain is.after is.ends is.head_apart is.tail_apart
        is.apart f
