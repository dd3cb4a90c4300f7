-- ===== src/Regex/Prepare/Plain.antt =====
-- src/Regex.cpp: the tree of an expression without special characters, and its last sibling.
use jhcommon.Prelude.{
  ℕ, zero, suc, ◌+◌, ◌<◌, ◌≡◌, refl, sym, ◌∙◌, ap, Bool, true, ◌||◌, not, Option, none, some, [],
  ◌∷◌, ◌++◌, length, drop, get_elem?, arith, ◌==◌,
}
use jhcommon.Regex.Match.Greedy.{drop-suc}
use jhcommon.Prelude.Text.{Text}
use jhcommon.Regex.{
  Run, ok, undefined, out_of_fuel, type_sequence, Element, element, Elements, update, last_sibling,
}
use jhcommon.Regex.Prep.{Prep, terminal, add_terminal}
use jhcommon.Regex.Prepare.{take_char}

abbrev pub link : ℕ → Text → Option ℕ
link i [] = none
link i (c ∷ cs) = some i

-- the terminals of the characters, from the index i on
abbrev pub literals : ℕ → Text → Elements
literals i [] = []
literals i (c ∷ cs) =
    record (terminal c c) { parent = some 0; next = link (suc i) cs } ∷ literals (suc i) cs

abbrev pub plain_tree : Text → Elements
plain_tree s = record (element type_sequence) { child = link 1 s } ∷ literals 1 s

-- the character is none of the special ones
abbrev pub is_plain : ℕ → Bool
is_plain c = not (
    c == 92
    || c == 46
    || c == 42
    || c == 43
    || c == 63
    || c == 123
    || c == 91
    || c == 93
    || c == 45
    || c == 40
    || c == 124
    || c == 41)

pub take_char-plain :
    (s : Text) (c : ℕ) (p : Prep) → is_plain c ≡ true → take_char s c p ≡ add_terminal c c p
unfolding take_char
take_char-plain s c p h = ground (arith, h)

-- the element of a character, the index that follows it and the characters behind it
abbrev pub literal : ℕ → ℕ → Text → Element
literal i c cs = record (terminal c c) { parent = some 0; next = link i cs }

pub length-literals : (i : ℕ) (s : Text) → length (literals i s) ≡ length s
length-literals i [] = refl
length-literals i (c ∷ cs) = ap suc (length-literals (suc i) cs)

pub literals-at :
    (s : Text) (i k c : ℕ) (cs : Text)
    → drop k s ≡ c ∷ cs
    → get_elem? (literals i s) k ≡ some (literal (suc (i + k)) c cs)
literals-at [] i zero c cs e = absurd cc
literals-at [] i (suc k) c cs e = absurd cc
literals-at (d ∷ ds) i zero c cs e =
    let n : suc i ≡ suc (i + 0) = omega arith in
    let h : d ≡ c = cc in let t : ds ≡ cs = cc in rw (h, t, sym n) refl
literals-at (d ∷ ds) i (suc k) c cs e =
    let n : suc i + k ≡ i + suc k = omega arith in literals-at ds (suc i) k c cs e ∙ rw n refl

pub get_elem?-left :
    (t : Elements) (x e : Element) (k : ℕ)
    → get_elem? t k ≡ some e
    → get_elem? (t ++ (x ∷ [])) k ≡ some e
get_elem?-left [] x e k g = absurd cc
get_elem?-left (y ∷ t) x e zero g = g
get_elem?-left (y ∷ t) x e (suc k) g = get_elem?-left t x e k g

pub last_sibling-next :
    (t : Elements) (fuel k n : ℕ) (e : Element)
    → get_elem? t k ≡ some e
    → e.next ≡ some n
    → last_sibling (suc fuel) t k ≡ last_sibling fuel t n
unfolding last_sibling
last_sibling-next t fuel k n e g q = simp (g, q) refl

pub last_sibling-here :
    (t : Elements) (fuel k : ℕ) (e : Element)
    → get_elem? t k ≡ some e
    → e.next ≡ none
    → last_sibling (suc fuel) t k ≡ ok k
unfolding last_sibling
last_sibling-here t fuel k e g q = simp (g, q) refl

pub last_sibling-literals :
    (s : Text) (x : Element) (cs : Text) (fuel k c : ℕ)
    → drop k s ≡ c ∷ cs
    → length cs < fuel
    → last_sibling fuel (plain_tree s ++ (x ∷ [])) (suc k) ≡ ok (suc k + length cs)
last_sibling-literals s x cs zero k c e f = absurd (omega arith)
last_sibling-literals s x [] (suc fuel) k c e f =
    let z : suc k ≡ suc k + 0 = omega arith in
    last_sibling-here _ fuel (suc k) _
      (get_elem?-left (plain_tree s) x _ (suc k) (literals-at s 1 k c [] e)) refl
    ∙ ap ok z
last_sibling-literals s x (d ∷ ds) (suc fuel) k c e f =
    let z : suc (suc k) + length ds ≡ suc k + suc (length ds) = omega arith in
    last_sibling-next _ fuel (suc k) (suc (suc k)) _
      (get_elem?-left (plain_tree s) x _ (suc k) (literals-at s 1 k c (d ∷ ds) e))
      (let n : suc (1 + k) ≡ suc (suc k) = omega arith in ap some n)
    ∙ last_sibling-literals s x ds fuel (suc k) d ((drop-suc s k c (d ∷ ds) e).0) (omega arith)
    ∙ ap ok z

abbrev pub tail_of : Element → Run Elements → Run Elements
tail_of x (ok t) = ok (x ∷ t)
tail_of x undefined = undefined
tail_of x out_of_fuel = out_of_fuel

pub update-some :
    (x : Element) (t u : Elements) (n : ℕ) (f : Element → Element) (o : Option Element)
    → get_elem? t n ≡ o
    → update t n f ≡ ok u
    → update (x ∷ t) (suc n) f ≡ ok (x ∷ u)
update-some x t u n f none g e = let k = rw g at e in absurd cc
update-some x t u n f (some y) g e = let k = rw g at e in rw g (ap (tail_of x) k)

pub update-cons :
    (x : Element) (t u : Elements) (n : ℕ) (f : Element → Element)
    → update t n f ≡ ok u
    → update (x ∷ t) (suc n) f ≡ ok (x ∷ u)
update-cons x t u n f e = update-some x t u n f (get_elem? t n) refl e

-- the last terminal gets the new one as its sibling
pub update-literals :
    (cs : Text) (i c d : ℕ)
    → update
        (literals i (c ∷ cs) ++ (record (terminal d d) { parent = some 0 } ∷ []))
        (length cs)
        (λ x. record x { next = some (suc (i + length cs)) })
      ≡ ok (literals i (c ∷ (cs ++ (d ∷ []))))
update-literals [] i c d = let z : suc (i + 0) ≡ suc i = omega arith in rw z refl
update-literals (b ∷ bs) i c d =
    let z : suc (i + suc (length bs)) ≡ suc (suc i + length bs) = omega arith in
    rw z (
      update-cons (literal (suc i) c (b ∷ bs))
        (literals (suc i) (b ∷ bs) ++ (record (terminal d d) { parent = some 0 } ∷ []))
        (literals (suc i) (b ∷ (bs ++ (d ∷ [])))) (length bs)
        (λ x. record x { next = some (suc (suc i + length bs)) }) (update-literals bs (suc i) b d))
