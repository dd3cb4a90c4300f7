-- ===== src/LinkedList/Cells.antt =====
-- include/jh_list.h: which addresses stand in a list of nodes.
use jhcommon.Prelude.{◌≢◌, refl, sym, [], ◌∷◌, ◌++◌, arith}
use jhcommon.LinkedList.{Ptr}
use jhcommon.LinkedList.Links.{
  Cells, ◌∉◌, Distinct, last_of, first_of, lacks-append, lacks_left, lacks_right,
}

module _ {A : Type 0} where
  pub head_ne : (a b : Ptr) (v : A) (xs : Cells A) → a ∉ ((b, v) ∷ xs) → b ≢ a
  head_ne a b v xs o e = ground arith

  pub tail_lacks : (a b : Ptr) (v : A) (xs : Cells A) → a ∉ ((b, v) ∷ xs) → a ∉ xs
  tail_lacks a b v xs o = ground arith

  pub last_ne : (a b : Ptr) (xs : Cells A) → b ≢ a → a ∉ xs → last_of b xs ≢ a
  last_ne a b [] n o = n
  last_ne a b ((c, v) ∷ xs) n o = last_ne a c xs (head_ne a c v xs o) (tail_lacks a c v xs o)

  pub first_ne : (a e : Ptr) (ys : Cells A) → e ≢ a → a ∉ ys → first_of ys e ≢ a
  first_ne a e [] n o = n
  first_ne a e ((c, v) ∷ ys) n o = head_ne a c v ys o

  pub Distinct-left : (xs ys : Cells A) → Distinct (xs ++ ys) → Distinct xs
  unfolding Distinct
  Distinct-left [] ys d = tt
  Distinct-left ((b, v) ∷ xs) ys d = (lacks_left b xs ys (d.0), Distinct-left xs ys (d.1))

  pub Distinct-right : (xs ys : Cells A) → Distinct (xs ++ ys) → Distinct ys
  unfolding Distinct
  Distinct-right [] ys d = d
  Distinct-right ((b, v) ∷ xs) ys d = Distinct-right xs ys (d.1)

  -- no node of the front is the first one of the back
  pub first_lacks :
      (xs ys : Cells A) (e : Ptr) → e ∉ (xs ++ ys) → Distinct (xs ++ ys) → first_of ys e ∉ xs
  unfolding Distinct
  first_lacks [] ys e ne d = refl
  first_lacks ((b, v) ∷ xs) ys e ne d =
      let eb = head_ne e b v (xs ++ ys) ne in
      let n = first_ne b e ys (λ x. eb (sym x)) (lacks_right b xs ys (d.0)) in
      let r = first_lacks xs ys e (tail_lacks e b v (xs ++ ys) ne) (d.1) in ground (arith, n, r)

  pub last_lacks :
      (s : Ptr) (xs ys : Cells A) → s ∉ (xs ++ ys) → Distinct (xs ++ ys) → last_of s xs ∉ ys
  unfolding Distinct
  last_lacks s [] ys ns d = ns
  last_lacks s ((b, v) ∷ xs) ys ns d = last_lacks b xs ys (d.0) (d.1)

  pub Distinct-insert :
      (xs ys : Cells A) (a : Ptr) (v : A)
      → Distinct (xs ++ ys)
      → a ∉ (xs ++ ys)
      → Distinct (xs ++ ((a, v) ∷ ys))
  unfolding Distinct
  Distinct-insert [] ys a v d n = (n, d)
  Distinct-insert ((b, w) ∷ xs) ys a v d n =
      let ba = head_ne a b w (xs ++ ys) n in
      let bl = lacks_left b xs ys (d.0) in
      let br : b ∉ ((a, v) ∷ ys) = let r = lacks_right b xs ys (d.0) in ground arith in
      (
        lacks-append b xs ((a, v) ∷ ys) bl br,
        Distinct-insert xs ys a v (d.1) (tail_lacks a b w (xs ++ ys) n),
      )

  pub lacks-insert :
      (x : Ptr) (xs ys : Cells A) (a : Ptr) (v : A)
      → x ∉ (xs ++ ys)
      → x ≢ a
      → x ∉ (xs ++ ((a, v) ∷ ys))
  lacks-insert x xs ys a v n xa =
      let r = lacks_right x xs ys n in
      lacks-append x xs ((a, v) ∷ ys) (lacks_left x xs ys n) (ground arith)

  pub lacks-delete :
      (x : Ptr) (xs ys : Cells A) (a : Ptr) (v : A)
      → x ∉ (xs ++ ((a, v) ∷ ys))
      → (x ∉ (xs ++ ys)) × (x ≢ a)
  lacks-delete x xs ys a v n =
      let r = lacks_right x xs ((a, v) ∷ ys) n in
      (
        lacks-append x xs ys (lacks_left x xs ((a, v) ∷ ys) n) (tail_lacks x a v ys r),
        λ e. head_ne x a v ys r (sym e),
      )

  pub Distinct-delete :
      (xs ys : Cells A) (a : Ptr) (v : A)
      → Distinct (xs ++ ((a, v) ∷ ys))
      → Distinct (xs ++ ys) × (a ∉ (xs ++ ys))
  unfolding Distinct
  Distinct-delete [] ys a v d = (d.1, d.0)
  Distinct-delete ((b, w) ∷ xs) ys a v d =
      let r = Distinct-delete xs ys a v (d.1) in
      let s = lacks-delete b xs ys a v (d.0) in ((s.0, r.0), ground (arith, r.1, s.1))
