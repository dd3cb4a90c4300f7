-- ===== src/Prelude/Text.antt =====
-- What the components use of `std::string`: a text is the list of its bytes, and `none` is `npos`.
use mathlib.Core.Option
use Prim.Native.Nat.{ℕ, zero, suc, ◌+◌, ◌-◌, ◌≤◌, ◌<◌}
use Prim.Native.Char.{code}
use Prim.Native.String.{String}
use mathlib.Core.Path.{◌≡◌, refl, sym, ap, ◌∙◌}
use mathlib.Core.Logic.{◌↔◌, inl, inr}
use mathlib.Core.Bool.{Bool, true, false, ◌&&◌}
use mathlib.Core.Option.{Option, none, some}
use mathlib.Core.List.{List, [], ◌∷◌, ◌++◌}
use native.Mathlib.Omega.{arith}
use jhcommon.Prelude.Lists.{length, take, drop, length-drop}
use jhcommon.Prelude.Slices.{drop-drop, drop-append_length, take-append_length}
use jhcommon.Prelude.Tests.{Bool-cases, ◌==◌, if◌then◌else◌}

abbrev pub Text : Type 0
Text = List ℕ

-- the bytes of an ASCII literal
abbrev pub codes : String → Text
codes String.[] = []
codes (String.◌∷◌ c s) = code c ∷ codes s

abbrev pub text_eq : Text → Text → Bool
text_eq [] [] = true
text_eq (a ∷ s) (b ∷ t) = a == b && text_eq s t
text_eq _ _ = false

-- the index of the first `c`
abbrev pub index_of : ℕ → Text → Option ℕ
index_of c [] = none
index_of c (x ∷ xs) = if x == c then some 0 else Option.map suc (index_of c xs)

-- one more byte in front of a text with this index of its last `c`
abbrev rfind_cons : Bool → Option ℕ → Option ℕ
rfind_cons hit (some i) = some (suc i)
rfind_cons true none = some 0
rfind_cons false none = none

-- `s.rfind( c )`
abbrev pub rfind : ℕ → Text → Option ℕ
rfind c [] = none
rfind c (x ∷ s) = rfind_cons (x == c) (rfind c s)

-- `s.find( c, start )`
abbrev pub find : ℕ → ℕ → Text → Option ℕ
find c start s = Option.map (λ i. start + i) (index_of c (drop start s))

abbrev pub is_prefix : Text → Text → Bool
is_prefix [] s = true
is_prefix (a ∷ p) [] = false
is_prefix (a ∷ p) (b ∷ s) = a == b && is_prefix p s

abbrev pub index_of_text : Text → Text → Option ℕ
index_of_text p [] = if is_prefix p [] then some 0 else none
index_of_text p (x ∷ xs) =
    if is_prefix p (x ∷ xs) then some 0 else Option.map suc (index_of_text p xs)

-- `s.find( p, start )`
abbrev pub find_text : Text → ℕ → Text → Option ℕ
find_text p start s = Option.map (λ i. start + i) (index_of_text p (drop start s))

-- `s.substr( start, end - start )`; from `npos` on it goes to the end of the text
abbrev pub slice : Text → ℕ → ℕ → Text
slice s start end = take (end - start) (drop start s)

abbrev pub slice_to : Text → ℕ → Option ℕ → Text
slice_to s start none = drop start s
slice_to s start (some end) = slice s start end

-- The byte does not occur in the text.
abbrev pub Lacks : ℕ → Text → Type 0
Lacks c s = index_of c s ≡ none

pub text_eq_iff : (s t : Text) → (text_eq s t ≡ true) ↔ (s ≡ t)
text_eq_iff [] [] = ground arith
text_eq_iff [] (b ∷ t) = ground arith
text_eq_iff (a ∷ s) [] = ground arith
text_eq_iff (a ∷ s) (b ∷ t) = ground (arith, text_eq_iff s t)

pub map-suc-eq-some :
    (o : Option ℕ) {i : ℕ} → Option.map suc o ≡ some i → (j : ℕ) × (o ≡ some j) × (i ≡ suc j)
map-suc-eq-some none e = cc
map-suc-eq-some (some j) e = (j, refl, cc)

pub map-suc-eq-none : (o : Option ℕ) → Option.map suc o ≡ none → o ≡ none
map-suc-eq-none none e = refl
map-suc-eq-none (some j) e = cc

pub index_of-lt : (t : ℕ) (xs : Text) {i : ℕ} → index_of t xs ≡ some i → i < length xs
index_of-lt t [] e = cc
index_of-lt t (x ∷ xs) {i} e = elim (Bool-cases (x == t)) [
  | inl hit ↦ ground arith
  | inr miss ↦
      let (j, e', q) = map-suc-eq-some (index_of t xs) (rw miss at e) in
      omega (arith, index_of-lt t xs e')
]

map-add-eq-some :
    (n : ℕ) (o : Option ℕ) {i : ℕ}
    → Option.map (λ j. n + j) o ≡ some i
    → (j : ℕ) × (o ≡ some j) × (i ≡ n + j)
map-add-eq-some n none e = cc
map-add-eq-some n (some j) e = (j, refl, cc)

pub find-bounds :
    (c start : ℕ) (s : Text) {i : ℕ} → find c start s ≡ some i → (start ≤ i) × (i < length s)
find-bounds c start s e =
    let (j, e', q) = map-add-eq-some start (index_of c (drop start s)) e in
    let lt = index_of-lt c (drop start s) e' in
    let n = length-drop start s in (omega arith, omega arith)

pub Lacks-cons : (c x : ℕ) (s : Text) → Lacks c (x ∷ s) → ((x == c) ≡ false) × Lacks c s
Lacks-cons c x s h = elim (Bool-cases (x == c)) [
  | inl hit ↦ ground (arith, rw hit at h)
  | inr miss ↦ (miss, map-suc-eq-none (index_of c s) (rw miss at h))
]

pub Lacks-join : (c x : ℕ) (s : Text) → (x == c) ≡ false → Lacks c s → Lacks c (x ∷ s)
Lacks-join c x s ne h = rw (ne, h) refl

pub Lacks-append : (c : ℕ) (s t : Text) → Lacks c s → Lacks c t → Lacks c (s ++ t)
Lacks-append c [] t h k = k
Lacks-append c (x ∷ s) t h k =
    let (ne, h') = Lacks-cons c x s h in Lacks-join c x (s ++ t) ne (Lacks-append c s t h' k)

pub index_of-append : (c : ℕ) (x r : Text) → Lacks c x → index_of c (x ++ c ∷ r) ≡ some (length x)
index_of-append c [] r h = ground arith
index_of-append c (a ∷ x) r h =
    let (ne, rest) = Lacks-cons c a x h in rw (ne, index_of-append c x r rest)

drop-past : (c : ℕ) (x r : Text) → drop (length x + 1) (x ++ c ∷ r) ≡ r
drop-past c [] r = refl
drop-past c (a ∷ x) r =
    let n : suc (length x) + 1 ≡ suc (length x + 1) = omega arith in rw n (drop-past c x r)

drop-cons-lt : (n : ℕ) (s : Text) (c : ℕ) (r : Text) → drop n s ≡ c ∷ r → n < length s
drop-cons-lt zero [] c r e = cc
drop-cons-lt zero (a ∷ s) c r e = omega arith
drop-cons-lt (suc n) [] c r e = cc
drop-cons-lt (suc n) (a ∷ s) c r e = omega (arith, drop-cons-lt n s c r e)

-- A search depends on the text from its start on.
module _ (start : ℕ) (s : Text) where
  pub find-at :
      (c : ℕ) (x r : Text)
      → drop start s ≡ x ++ c ∷ r
      → Lacks c x
      → find c start s ≡ some (start + length x)
  find-at c x r e h = rw (e, index_of-append c x r h)

  pub find-none : (c : ℕ) (r : Text) → drop start s ≡ r → Lacks c r → find c start s ≡ none
  find-none c r e h = rw (e, h)

  pub slice-at : (x r : Text) → drop start s ≡ x ++ r → slice s start (start + length x) ≡ x
  slice-at x r e =
      let n : start + length x - start ≡ length x = omega arith in rw (n, e, take-append_length)

  pub drop-at : (c : ℕ) (x r : Text) → drop start s ≡ x ++ c ∷ r → drop (start + length x + 1) s ≡ r
  drop-at c x r e =
      let n : start + length x + 1 ≡ start + (length x + 1) = omega arith in
      ap (λ k. drop k s) n
      ∙ sym (drop-drop (length x + 1) start s)
      ∙ ap (drop (length x + 1)) e
      ∙ drop-past c x r

  pub drop-lt : (c : ℕ) (r : Text) → drop start s ≡ c ∷ r → start < length s
  drop-lt c r e = drop-cons-lt start s c r e

  pub drop-over : (x r : Text) → drop start s ≡ x ++ r → drop (start + length x) s ≡ r
  drop-over x r e =
      sym (drop-drop (length x) start s) ∙ ap (drop (length x)) e ∙ drop-append_length x r
