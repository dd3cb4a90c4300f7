-- ===== src/Regex/Siblings.antt =====
-- src/Regex.cpp: the children of an element as a list, and what a terminal or a class accepts.
use jhcommon.Prelude.{
  ℕ, zero, suc, ◌+◌, ◌≤◌, ◌<◌, ◌≡◌, ◌||◌, refl, Bool, false, Option, none, some, List, [], ◌∷◌,
  length, get_elem?, arith,
}
use jhcommon.Regex.{Element, Elements, in_range}

-- the elements along `mNext`
pub data Siblings (t : Elements) : Option ℕ → List Element → Type 0 where
  nil : Siblings t none []
  cons :
      {k : ℕ} {e : Element} {es : List Element}
      → get_elem? t k ≡ some e
      → Siblings t e.next es
      → Siblings t (some k) (e ∷ es)

-- some range of the list has the character
abbrev pub any_range : List Element → ℕ → Bool
any_range [] c = false
any_range (e ∷ es) c = in_range e c || any_range es c

-- Every `mNext` goes to an element that was made later.
abbrev pub Forward : Elements → Type 0
Forward t =
    (k n : ℕ) (e : Element) → get_elem? t k ≡ some e → e.next ≡ some n → (k < n) × (n < length t)

pub get_elem?_lt : (t : Elements) (k : ℕ) (e : Element) → get_elem? t k ≡ some e → k < length t
get_elem?_lt [] k e g = absurd cc
get_elem?_lt (x ∷ t) zero e g = omega arith
get_elem?_lt (x ∷ t) (suc k) e g = let r = get_elem?_lt t k e g in omega (arith, r)

-- A walk along the siblings from `k` has no more elements than there are from there on.
Siblings-from :
    (t : Elements) (k : ℕ) (n : Option ℕ) (es : List Element)
    → Forward t
    → k < length t
    → ((m : ℕ) → n ≡ some m → (k < m) × (m < length t))
    → Siblings t n es
    → suc k + length es ≤ length t
Siblings-from t k _ _ fw h later nil = omega arith
Siblings-from t k _ _ fw h later (cons {k = m} {e} {es} g rest) =
    let (up, lt) = later m refl in
    let r = Siblings-from t m e.next es fw lt (λ x q. fw m x e g q) rest in omega arith

pub length-Siblings :
    (t : Elements) (k : Option ℕ) (es : List Element)
    → Forward t
    → Siblings t k es
    → length es ≤ length t
length-Siblings t _ _ fw nil = omega arith
length-Siblings t _ _ fw (cons {k} {e} {es} g rest) =
    let r = Siblings-from t k e.next es fw (get_elem?_lt t k e g) (λ m q. fw k m e g q) rest in
    omega arith
