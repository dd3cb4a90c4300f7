-- ===== src/Regex/Growth.antt =====
-- src/Regex.cpp: the links of the tree when `insertChild` adds an element.
use jhcommon.Prelude.{
  ℕ, zero, suc, ◌+◌, ◌≤◌, ◌<◌, ◌≡◌, refl, sym, ◌∙◌, ap, Option, none, some, [], ◌∷◌, ◌++◌, length,
  get_elem?, set, arith, length-set, length-append, ◌⊎◌, inl, inr,
}
use mathlib.Core.Path.{subst}
use jhcommon.Regex.{
  Run, ok, Element, Elements, elem_at, update, last_sibling, insert_child, get_last_child,
  add_child,
}
use jhcommon.Regex.Siblings.{get_elem?_lt}
use jhcommon.Regex.Tree.{Each, bind-Each, elem_at-Each, IsTree, Within-set, Within}

get_elem?-last :
    (t : Elements) (x e : Element) (k : ℕ)
    → get_elem? (t ++ (x ∷ [])) k ≡ some e
    → (get_elem? t k ≡ some e) ⊎ (e ≡ x)
get_elem?-last [] x e zero g = inr cc
get_elem?-last [] x e (suc k) g = absurd cc
get_elem?-last (y ∷ t) x e zero g = inl g
get_elem?-last (y ∷ t) x e (suc k) g = get_elem?-last t x e k g

-- a new element, not yet linked
Within-append :
    (t : Elements) (x : Element)
    → IsTree t
    → x.next ≡ none
    → x.child ≡ none
    → Within (length t) (t ++ (x ∷ []))
Within-append t x w xn xc = record {
  nexts = λ k n e g q. elim (get_elem?-last t x e k g) [
    | inl h ↦ w.nexts k n e h q
    | inr h ↦ let z = ap (λ y. y.next) h ∙ xn in absurd cc
  ];
  children = λ k n e g q. elim (get_elem?-last t x e k g) [
    | inl h ↦ w.children k n e h q
    | inr h ↦ let z = ap (λ y. y.child) h ∙ xc in absurd cc
  ];
}

pub option-Each :
    {A : Type 0} (P : A → Type 0) (o : Option ℕ) (x : Run A) (f : ℕ → Run A)
    → (o ≡ none → Each P x)
    → ((n : ℕ) → o ≡ some n → Each P (f n))
    → Each P (elim o [ none ↦ x | some n ↦ f n ])
option-Each P none x f h k = h refl
option-Each P (some n) x f h k = k n refl

-- the first write of `insertChild`, and its two ways to link the new element
unlinked :
    (b : ℕ) (t : Elements) (this : ℕ)
    → Within b t
    → length t ≡ suc b
    → Each
        (λ u. Within b u × (length u ≡ suc b))
        (update t b (λ x. record x { parent = some this; next = none }))
unlinked b t this w lt =
    bind-Each (λ e. get_elem? t b ≡ some e) _ (elem_at t b) _ (elem_at-Each t b)
      λ e g. (
        Within-set b b t b (record e { parent = some this; next = none }) w (omega arith)
            (omega arith) (λ n q. absurd cc) (λ n q. w.children b n e g q),
        length-set t b _ ∙ lt,
      )

linked_child :
    (b : ℕ) (u : Elements) (this : ℕ) (x : Element)
    → Within b u
    → length u ≡ suc b
    → get_elem? u this ≡ some x
    → Each (λ v. IsTree v × (length v ≡ suc b)) (update u this (λ x. record x { child = some b }))
linked_child b u this x w lu g0 =
    bind-Each (λ e. get_elem? u this ≡ some e) _ (elem_at u this) _ (elem_at-Each u this)
      λ e g.
        let lv = length-set u this (record e { child = some b }) ∙ lu in
        let wv =
          Within-set b (suc b) u this (record e { child = some b }) w (omega arith)
            (get_elem?_lt u this e g)
            (λ n q. let r = w.nexts this n e g q in (r.0, omega (arith, r.1)))
            (λ n q. let m : b ≡ n = cc in omega arith) in
        (subst (λ k. Within k (set u this (record e { child = some b }))) (sym lv) wv, lv)

linked_next :
    (b : ℕ) (u : Elements) (l : ℕ)
    → Within b u
    → length u ≡ suc b
    → l < b
    → Each (λ v. IsTree v × (length v ≡ suc b)) (update u l (λ x. record x { next = some b }))
linked_next b u l w lu lb =
    bind-Each (λ e. get_elem? u l ≡ some e) _ (elem_at u l) _ (elem_at-Each u l)
      λ e g.
        let lv = length-set u l (record e { next = some b }) ∙ lu in
        let wv =
          Within-set b (suc b) u l (record e { next = some b }) w (omega arith)
            (get_elem?_lt u l e g) (λ n q. let m : b ≡ n = cc in (omega arith, omega arith))
            (λ n q. let r = w.children l n e g q in omega (arith, r)) in
        (subst (λ k. Within k (set u l (record e { next = some b }))) (sym lv) wv, lv)

-- the walk to the last sibling ends, below the bound
last_sibling-Each :
    (b : ℕ) (t : Elements) (fuel c : ℕ)
    → Within b t
    → b ≤ length t
    → c < b
    → length t ≤ c + fuel
    → Each (λ l. l < b) (last_sibling fuel t c)
unfolding last_sibling
last_sibling-Each b t zero c w bl cb f = absurd (omega arith)
last_sibling-Each b t (suc fuel) c w bl cb f =
    bind-Each (λ e. get_elem? t c ≡ some e) _ (elem_at t c) _ (elem_at-Each t c)
      λ e g.
        option-Each (λ l. l < b) e.next (ok c) (λ n. last_sibling fuel t n) (λ q. cb)
          λ n q.
            let r = w.nexts c n e g q in
            last_sibling-Each b t fuel n w bl (r.1) (omega (arith, r.0))

-- `insertChild` of an element that no link leads to yet, the last one
insert_child-Each :
    (b : ℕ) (t : Elements) (this : ℕ)
    → Within b t
    → length t ≡ suc b
    → Each (λ u. IsTree u × (length u ≡ suc b)) (insert_child t this b)
unfolding insert_child
insert_child-Each b t this w lt =
    bind-Each (λ u. Within b u × (length u ≡ suc b)) _ (update t b _) _ (unlinked b t this w lt)
      λ u (wu, lu).
        bind-Each (λ e. get_elem? u this ≡ some e) _ (elem_at u this) _ (elem_at-Each u this)
          λ x g.
            option-Each _ x.child _ _ (λ q. linked_child b u this x wu lu g)
              λ c q.
                bind-Each (λ l. l < b) _ (last_sibling (length u) u c) _
                  (last_sibling-Each b u (length u) c wu (omega arith) (wu.children this c x g q)
                    (omega arith))
                  λ l lb. linked_next b u l wu lu lb

pub add_child-Each :
    (t : Elements) (this : ℕ) (x : Element)
    → IsTree t
    → x.next ≡ none
    → x.child ≡ none
    → Each (λ u. IsTree u × (length u ≡ suc (length t))) (add_child t this x)
unfolding add_child
add_child-Each t this x w xn xc =
    insert_child-Each (length t) (t ++ (x ∷ [])) this (Within-append t x w xn xc)
      (omega (arith, length-append t (x ∷ [])))

pub get_last_child-Each :
    (t : Elements) (this : ℕ) → IsTree t → Each (λ l. Unit {0}) (get_last_child t this)
unfolding get_last_child
get_last_child-Each t this w =
    bind-Each (λ e. get_elem? t this ≡ some e) _ (elem_at t this) _ (elem_at-Each t this)
      λ x g.
        option-Each (λ l. Unit {0}) x.child _ _ (λ q. tt)
          λ c q.
            bind-Each (λ l. l < length t) _ (last_sibling (length t) t c) _
              (last_sibling-Each (length t) t (length t) c w (omega arith) (w.children this c x g q)
                (omega arith))
              λ l lb. tt
