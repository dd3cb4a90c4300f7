-- ===== src/LinkedList/Loops.antt =====
-- include/jh_list.h: the loops of `size`, `clear` and the destructor.
use jhcommon.Prelude.{
  ℕ, zero, suc, ◌-◌, ◌+◌, ◌≤◌, ◌<◌, ◌≡◌, ◌≢◌, refl, sym, ◌∙◌, ap, true, false, Option, none, some,
  [], ◌∷◌, ◌==◌, arith, length, All,
}
use jhcommon.LinkedList.{
  Ptr, Heap, JhList, load, next_of, empty, begin, erase, count_from, size, clear,
}
use jhcommon.LinkedList.Links.{Linked, Chain, Cells, Distinct, ◌∉◌, first_of, Holds}
use jhcommon.LinkedList.Cells.{lacks-delete, first_ne, head_ne, tail_lacks}
use jhcommon.LinkedList.Refine.{erased, erased-Holds, erased_freed, erased_other, erase-erased}

module _ {A : Type 0} where
  pub next_of_ne : (h : Heap A) (p q : Ptr) → next_of h p ≡ some q → (p == 0) ≡ false
  unfolding next_of load
  next_of_ne h p q e = ground arith

  count_from_node :
      (h : Heap A) (p q ret fuel : ℕ)
      → next_of h p ≡ some q
      → count_from fuel q h ≡ some ret
      → count_from (suc fuel) p h ≡ some (suc ret)
  unfolding count_from
  count_from_node h p q ret fuel e r = rw (next_of_ne h p q e, e, r) refl

  count_from_null : (h : Heap A) (fuel : ℕ) → 0 < fuel → count_from fuel 0 h ≡ some 0
  unfolding count_from
  count_from_null h zero f = absurd (omega arith)
  count_from_null h (suc fuel) f = refl

  count_from-Chain :
      (h : Heap A) (s : Ptr) (xs : Cells A) (e : Ptr) (fuel : ℕ)
      → Chain h s xs e
      → next_of h e ≡ some 0
      → length xs + 3 ≤ fuel
      → count_from fuel s h ≡ some (length xs + 2)
  unfolding Chain Linked
  count_from-Chain h s xs e zero c z f = absurd (omega arith)
  count_from-Chain h s [] e (suc zero) c z f = absurd (omega arith)
  count_from-Chain h s [] e (suc (suc fuel)) c z f =
      count_from_node h s e 1 (suc fuel) (c.0)
        (count_from_node h e 0 0 fuel z (count_from_null h fuel (omega arith)))
  count_from-Chain h s ((b, v) ∷ xs) e (suc fuel) c z f =
      let r = count_from-Chain h b xs e fuel (c.2) z (omega arith) in
      let k : suc (length xs + 2) ≡ suc (length xs) + 2 = omega arith in
      count_from_node h s b _ fuel ((c.0).0) r ∙ ap some k

  -- With fuel for the nodes, the placeholders and the last test, `size` counts the nodes.
  pub size-Holds :
      (h : Heap A) (l : JhList) (xs : Cells A) (fuel : ℕ)
      → Holds h l xs
      → length xs + 3 ≤ fuel
      → size fuel l h ≡ some (length xs)
  unfolding size
  size-Holds h l xs fuel is f =
      let e : length xs + 2 - 2 ≡ length xs = omega arith in
      rw (count_from-Chain h l.head xs l.tail fuel is.chain is.after f, e) refl

  -- what `clear` gives: the empty list, every node of it deleted, and no other node touched
  unfoldable pub Cleared : Option (Heap A) → Heap A → JhList → Cells A → Type 0
  Cleared o h l xs =
      (g : Heap A) × (o ≡ some g)
      × Holds g l []
      × All (λ x. g (x.0) ≡ none) xs
      × ((x : Ptr) → x ≢ l.head → x ≢ l.tail → x ∉ xs → g x ≡ h x)

  clear_ends :
      (h : Heap A) (l : JhList) (fuel : ℕ)
      → next_of h l.head ≡ some l.tail
      → clear (suc fuel) l h ≡ some h
  unfolding empty clear
  clear_ends h l fuel e = let t : (l.tail == l.tail) ≡ true = ground arith in rw (e, t) refl

  clear_goes :
      (h : Heap A) (l : JhList) (fuel : ℕ) (i n : Ptr) (g : Heap A)
      → next_of h l.head ≡ some i
      → i ≢ l.tail
      → erase i h ≡ some (n, g)
      → clear (suc fuel) l h ≡ clear fuel l g
  unfolding empty begin clear
  clear_goes h l fuel i n g e ne r =
      let t : (i == l.tail) ≡ false = ground arith in rw (e, t, r) refl

  -- With fuel for each node and for the last test, `clear` ends with the empty list, with each of
  -- its nodes deleted and with every other address but the placeholders as it was.
  pub clear-Cleared :
      (h : Heap A) (l : JhList) (xs : Cells A) (fuel : ℕ)
      → Holds h l xs
      → length xs < fuel
      → Cleared (clear fuel l h) h l xs
  unfolding Cleared Chain Linked Distinct
  clear-Cleared h l xs zero is f = absurd (omega arith)
  clear-Cleared h l [] (suc fuel) is f =
      (h, clear_ends h l fuel (is.chain.0), is, tt, λ x xh xt xo. refl)
  clear-Cleared h l ((a, v) ∷ ys) (suc fuel) is f =
      let g = erased h l [] ys v a is in
      let (hn, ha) = lacks-delete l.head [] ys a v is.head_apart in
      let (tn, ta) = lacks-delete l.tail [] ys a v is.tail_apart in
      let r = clear-Cleared g l ys fuel (erased-Holds h l [] ys v a is) (omega arith) in
      let at : a ≢ l.tail = λ e. ta (sym e) in
      let goes =
        clear_goes h l fuel a (first_of ys l.tail) g ((is.chain.0).0) at
          (erase-erased h l [] ys v a is) in
      (
        r.0,
        goes ∙ r.1,
        r.2,
        (r.4 a (λ e. ha (sym e)) at (is.apart.0) ∙ erased_freed h l [] ys v a is, r.3),
        λ x xh xt xo.
            let out = tail_lacks x a v ys xo in
            let q = first_ne x l.tail ys (λ e. xt (sym e)) out in
            let b = head_ne x a v ys xo in
            r.4 x xh xt out ∙ erased_other h l [] ys v a is x xh (λ e. q (sym e)) (λ e. b (sym e)),
      )
