-- ===== src/Regex/Tree.antt =====
-- src/Regex.cpp: the links of the tree, and a write that keeps them.
use jhcommon.Prelude.{
  ℕ, zero, suc, ◌≤◌, ◌<◌, ◌≡◌, refl, sym, ◌∙◌, ap, Option, none, some, [], ◌∷◌, length, get_elem?,
  set, arith, length-set, get_elem?-set_self, get_elem?-set_ne, ℕ_discrete, ◌⊎◌, inl, inr,
}
use mathlib.Core.Path.{subst}
use jhcommon.Regex.{
  Run, ok, undefined, out_of_fuel, ◌>>=◌, Element, Elements, elem_at, update, from_null,
}
use jhcommon.Regex.Siblings.{get_elem?_lt}

-- a result has the property, if there is one, and the fuel is not used up
abbrev pub Each : {A : Type 0} → (A → Type 0) → Run A → Type 0
Each P (ok a) = P a
Each P undefined = Unit
Each P out_of_fuel = ⊥

pub bind-Each :
    {A B : Type 0} (P : A → Type 0) (Q : B → Type 0) (r : Run A) (f : A → Run B)
    → Each P r
    → ((a : A) → P a → Each Q (f a))
    → Each Q (r >>= f)
bind-Each P Q (ok a) f e k = k a e
bind-Each P Q undefined f e k = tt
bind-Each P Q out_of_fuel f e k = absurd e

pub map-Each :
    {A : Type 0} (P Q : A → Type 0) (r : Run A) → Each P r → ((a : A) → P a → Q a) → Each Q r
map-Each P Q (ok a) e k = k a e
map-Each P Q undefined e k = tt
map-Each P Q out_of_fuel e k = absurd e

pub elem_at-Each : (t : Elements) (i : ℕ) → Each (λ e. get_elem? t i ≡ some e) (elem_at t i)
elem_at-Each [] i = tt
elem_at-Each (x ∷ t) zero = refl
elem_at-Each (x ∷ t) (suc i) = elem_at-Each t i

pub from_null-Each : {A : Type 0} (o : Option A) → Each (λ a. o ≡ some a) (from_null o)
from_null-Each none = tt
from_null-Each (some a) = refl

-- The links go to elements below the bound, those between siblings to later ones.
pub record Within (b : ℕ) (t : Elements) : Type 0 where
  pub nexts : (k n : ℕ) (e : Element) → get_elem? t k ≡ some e → e.next ≡ some n → (k < n) × (n < b)
  pub children : (k n : ℕ) (e : Element) → get_elem? t k ≡ some e → e.child ≡ some n → n < b

abbrev pub IsTree : Elements → Type 0
IsTree t = Within (length t) t

-- the element at a place that was written, or the one before
pub get_elem?-set_cases :
    (t : Elements) (i k : ℕ) (x e : Element)
    → get_elem? (set t i x) k ≡ some e
    → i < length t
    → ((k ≡ i) × (e ≡ x)) ⊎ (get_elem? t k ≡ some e)
get_elem?-set_cases t i k x e g l = elim (ℕ_discrete i k) [
  | yes q ↦
      let own = get_elem?-set_self t i x l in
      let moved = subst (λ j. get_elem? (set t i x) j ≡ some e) (sym q) g in inl (sym q, cc)
  | no q ↦ inr (sym (get_elem?-set_ne t x q) ∙ g)
]

pub Within-set :
    (b c : ℕ) (t : Elements) (i : ℕ) (x : Element)
    → Within b t
    → b ≤ c
    → i < length t
    → ((n : ℕ) → x.next ≡ some n → (i < n) × (n < c))
    → ((n : ℕ) → x.child ≡ some n → n < c)
    → Within c (set t i x)
Within-set b c t i x w bc l xn xc = record {
  nexts = λ k n e g q. elim (get_elem?-set_cases t i k x e g l) [
    | inl (ki, ex) ↦ let r = xn n (ap (λ y. y.next) (sym ex) ∙ q) in (rw ki (r.0), r.1)
    | inr g0 ↦ let r = w.nexts k n e g0 q in (r.0, omega (arith, r.1))
  ];
  children = λ k n e g q. elim (get_elem?-set_cases t i k x e g l) [
    | inl (ki, ex) ↦ xc n (ap (λ y. y.child) (sym ex) ∙ q)
    | inr g0 ↦ let r = w.children k n e g0 q in omega (arith, r)
  ];
}

-- a write that keeps the links
pub update-Within :
    (b : ℕ) (t : Elements) (i : ℕ) (f : Element → Element)
    → Within b t
    → ((e : Element) → ((f e).next ≡ e.next) × ((f e).child ≡ e.child))
    → Each (λ u. Within b u × (length u ≡ length t)) (update t i f)
update-Within b t i f w keeps =
    bind-Each (λ e. get_elem? t i ≡ some e) _ (elem_at t i) _ (elem_at-Each t i)
      λ e g.
        let k = keeps e in
        (
          Within-set b b t i (f e) w (omega arith) (get_elem?_lt t i e g)
              (λ n q. w.nexts i n e g (sym (k.0) ∙ q)) (λ n q. w.children i n e g (sym (k.1) ∙ q)),
          length-set t i (f e),
        )
