-- ===== src/LinkedList/Splice.antt =====
-- include/jh_list.h: a node is linked into a chain, or out of it, by changing the `next` before it
-- and the `prev` after it.
use jhcommon.Prelude.{◌≡◌, ◌≢◌, refl, sym, ◌∙◌, some, [], ◌∷◌, ◌++◌}
use mathlib.Core.Path.{subst}
use jhcommon.LinkedList.{Ptr, Heap, JhList, next_of, prev_of, val_of}
use jhcommon.LinkedList.Cells.{
  head_ne, tail_lacks, last_ne, first_ne, Distinct-left, Distinct-right, first_lacks, last_lacks,
  Distinct-insert, lacks-insert, lacks-delete, Distinct-delete,
}
use jhcommon.LinkedList.Links.{
  Linked, Chain, Cells, ◌∉◌, Distinct, last_of, first_of, lacks_left, lacks_right, Holds,
}

-- the heaps differ at most in what the node `a` holds, the `next` of `p` and the `prev` of `q`
pub record SameBut {A : Type 0} (h g : Heap A) (p q a : Ptr) : Type 0 where
  pub next_same : (x : Ptr) → x ≢ p → x ≢ a → next_of g x ≡ next_of h x
  pub prev_same : (x : Ptr) → x ≢ q → x ≢ a → prev_of g x ≡ prev_of h x
  pub val_same : (x : Ptr) → x ≢ a → val_of g x ≡ val_of h x

module _ {A : Type 0} where
  module _ {h g : Heap A} {p q a : Ptr} (same : SameBut h g p q a) where
    pub Chain-spare :
        (s : Ptr) (xs : Cells A) (e : Ptr)
        → Chain h s xs e
        → s ≢ p
        → s ≢ a
        → e ≢ q
        → e ≢ a
        → p ∉ xs
        → q ∉ xs
        → a ∉ xs
        → Chain g s xs e
    unfolding Chain Linked
    Chain-spare s [] e c sp sa eq ea np nq na =
        (same.next_same s sp sa ∙ c.0, same.prev_same e eq ea ∙ c.1)
    Chain-spare s ((b, v) ∷ xs) e c sp sa eq ea np nq na =
        let bp = head_ne p b v xs np in
        let bq = head_ne q b v xs nq in
        let ba = head_ne a b v xs na in
        (
          (same.next_same s sp sa ∙ (c.0).0, same.prev_same b bq ba ∙ (c.0).1),
          same.val_same b ba ∙ c.1,
          Chain-spare b xs e (c.2) bp ba eq ea (tail_lacks p b v xs np) (tail_lacks q b v xs nq)
              (tail_lacks a b v xs na),
        )

    -- the part of the chain behind the change
    Chain-behind :
        (r : Ptr) (ys : Cells A) (e : Ptr)
        → Chain h r ys e
        → q ≡ first_of ys e
        → e ≢ p
        → e ≢ a
        → p ∉ ys
        → a ∉ ys
        → e ∉ ys
        → Distinct ys
        → (s : Ptr) → Linked g s q
        → Chain g s ys e
    unfolding Chain Distinct
    Chain-behind r [] e c f ep ea np na ne d s l = subst (Linked g s) f l
    Chain-behind r ((b, v) ∷ ys) e c f ep ea np na ne d s l =
        let bp = head_ne p b v ys np in
        let ba = head_ne a b v ys na in
        let eb : e ≢ q = λ x. head_ne e b v ys ne (sym (x ∙ f)) in
        (
          subst (Linked g s) f l,
          same.val_same b ba ∙ c.1,
          Chain-spare b ys e (c.2) bp ba eb ea (tail_lacks p b v ys np)
              (subst (λ x. x ∉ ys) (sym f) (d.0)) (tail_lacks a b v ys na),
        )

    -- the part of the chain before the change
    Chain-before :
        (s : Ptr) (xs zs ws : Cells A) (e : Ptr)
        → Chain h s (xs ++ zs) e
        → p ≡ last_of s xs
        → s ∉ xs
        → Distinct xs
        → q ∉ xs
        → a ∉ xs
        → a ≢ s
        → Chain g p ws e
        → Chain g s (xs ++ ws) e
    unfolding Chain Linked Distinct
    Chain-before s [] zs ws e c f ns d nq na n w = subst (λ x. Chain g x ws e) f w
    Chain-before s ((b, v) ∷ xs) zs ws e c f ns d nq na n w =
        let ba = head_ne a b v xs na in
        let sp : s ≢ p =
          λ x. last_ne s b xs (head_ne s b v xs ns) (tail_lacks s b v xs ns) (sym (x ∙ f)) in
        (
          (
            same.next_same s sp (λ x. n (sym x)) ∙ (c.0).0,
            same.prev_same b (head_ne q b v xs nq) ba ∙ (c.0).1,
          ),
          same.val_same b ba ∙ c.1,
          Chain-before b xs zs ws e (c.2) f (d.0) (d.1) (tail_lacks q b v xs nq)
              (tail_lacks a b v xs na) (λ x. ba (sym x)) w,
        )

  pub Chain-from :
      (h : Heap A) (s : Ptr) (xs ys : Cells A) (e : Ptr)
      → Chain h s (xs ++ ys) e
      → Chain h (last_of s xs) ys e
  unfolding Chain
  Chain-from h s [] ys e c = c
  Chain-from h s ((b, v) ∷ xs) ys e c = Chain-from h b xs ys e (c.2)

  -- A heap in which a new node stands between two neighbours holds the list with the new value.
  module _ {h g : Heap A} {l : JhList} (xs ys : Cells A) (a : Ptr) (v : A)
      (is : Holds h l (xs ++ ys))
      (same : SameBut h g (last_of l.head xs) (first_of ys l.tail) a) where
    pub Holds-insert :
        Linked g (last_of l.head xs) a
        → val_of g a ≡ some (some v)
        → Linked g a (first_of ys l.tail)
        → a ≢ l.head
        → a ≢ l.tail
        → a ∉ (xs ++ ys)
        → Holds g l (xs ++ ((a, v) ∷ ys))
    unfolding Chain
    Holds-insert lp lv lq ah at na =
        let dl = Distinct-left xs ys is.apart in
        let dr = Distinct-right xs ys is.apart in
        let te : l.tail ≢ last_of l.head xs =
          λ x. last_ne l.tail l.head xs is.ends (lacks_left l.tail xs ys is.tail_apart) (sym x) in
        let hq : l.head ≢ first_of ys l.tail = λ x.
          first_ne l.head l.tail ys (λ y. is.ends (sym y)) (lacks_right l.head xs ys is.head_apart)
            (sym x) in
        record {
          chain =
              Chain-before same l.head xs ys ((a, v) ∷ ys) l.tail is.chain refl
                (lacks_left l.head xs ys is.head_apart) dl
                (first_lacks xs ys l.tail is.tail_apart is.apart) (lacks_left a xs ys na) ah
                (
                  lp,
                  lv,
                  Chain-behind same (last_of l.head xs) ys l.tail
                      (Chain-from h l.head xs ys l.tail is.chain) refl te (λ x. at (sym x))
                      (last_lacks l.head xs ys is.head_apart is.apart) (lacks_right a xs ys na)
                      (lacks_right l.tail xs ys is.tail_apart) dr a lq,
                );
          before = same.prev_same l.head hq (λ x. ah (sym x)) ∙ is.before;
          after = same.next_same l.tail te (λ x. at (sym x)) ∙ is.after;
          ends = is.ends;
          head_apart = lacks-insert l.head xs ys a v is.head_apart (λ x. ah (sym x));
          tail_apart = lacks-insert l.tail xs ys a v is.tail_apart (λ x. at (sym x));
          apart = Distinct-insert xs ys a v is.apart na;
        }

  -- A heap in which the neighbours of a node are linked to one another holds the list without it.
  module _ {h g : Heap A} {l : JhList} (xs ys : Cells A) (a : Ptr) (v : A)
      (is : Holds h l (xs ++ ((a, v) ∷ ys)))
      (same : SameBut h g (last_of l.head xs) (first_of ys l.tail) a) where
    pub Holds-erase : Linked g (last_of l.head xs) (first_of ys l.tail) → Holds g l (xs ++ ys)
    unfolding Chain
    Holds-erase lp =
        let (d, na) = Distinct-delete xs ys a v is.apart in
        let (hn, ha) = lacks-delete l.head xs ys a v is.head_apart in
        let (tn, ta) = lacks-delete l.tail xs ys a v is.tail_apart in
        let dl = Distinct-left xs ys d in
        let dr = Distinct-right xs ys d in
        let te : l.tail ≢ last_of l.head xs =
          λ x. last_ne l.tail l.head xs is.ends (lacks_left l.tail xs ys tn) (sym x) in
        let hq : l.head ≢ first_of ys l.tail = λ x.
          first_ne l.head l.tail ys (λ y. is.ends (sym y)) (lacks_right l.head xs ys hn) (sym x) in
        record {
          chain =
              Chain-before same l.head xs ((a, v) ∷ ys) ys l.tail is.chain refl
                (lacks_left l.head xs ys hn) dl (first_lacks xs ys l.tail tn d)
                (lacks_left a xs ys na) (λ x. ha (sym x))
                (Chain-behind same a ys l.tail
                  ((Chain-from h l.head xs ((a, v) ∷ ys) l.tail is.chain).2) refl te ta
                  (last_lacks l.head xs ys hn d) (lacks_right a xs ys na)
                  (lacks_right l.tail xs ys tn) dr (last_of l.head xs) lp);
          before = same.prev_same l.head hq ha ∙ is.before;
          after = same.next_same l.tail te ta ∙ is.after;
          ends = is.ends;
          head_apart = hn;
          tail_apart = tn;
          apart = d;
        }
