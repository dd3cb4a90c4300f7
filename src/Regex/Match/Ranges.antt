-- ===== src/Regex/Match/Ranges.antt =====
-- src/Regex.cpp: what `processTerminal` accepts, by the values of signed characters.
use jhcommon.Prelude.{
  ℕ, ◌-◌, ◌<◌, ◌≡◌, refl, ap, ap₂, ◌∙◌, Bool, false, not, ◌&&◌, ◌||◌, List, [], ◌∷◌, some,
  get_elem?, All, ltb, arith, if◌then◌else◌, Bool-cases, inl, inr,
}
use jhcommon.Prelude.Int.{ℤ, pos, negsuc, int_lt}
use jhcommon.Prelude.Text.{Text}
use jhcommon.Regex.{
  ok, ElementType, type_unknown, type_sequence, type_or, type_terminal, type_class, Element,
  Elements, char_at, char_le, in_range,
}
use jhcommon.Regex.Siblings.{Siblings, any_range, Forward}
use jhcommon.Regex.Match.{process_terminal}
use jhcommon.Regex.Match.Terminal.{accepts, process_terminal-accepts}

-- the value of a byte as a signed `char`
abbrev pub signed : ℕ → ℤ
signed b = if ltb b 128 then pos b else negsuc (255 - b)

-- The value of c is not less than that of the start, and that of the end not less than it.
abbrev pub lies_in : Element → ℕ → Bool
lies_in e c =
    not (int_lt (signed c) (signed e.term_start_char))
    && not (int_lt (signed e.term_end_char) (signed c))

abbrev pub lies_in_any : List Element → ℕ → Bool
lies_in_any [] c = false
lies_in_any (e ∷ es) c = lies_in e c || lies_in_any es c

-- A terminal is its range; a class of these children is all their ranges, or all else.
abbrev pub belongs : Element → List Element → ℕ → Bool
belongs e es c = elim e.kind [
  | type_terminal ↦ lies_in e c
  | type_class ↦ if lies_in_any es c then not e.class_invert else e.class_invert
  | _ ↦ false
]

-- The ends of the range are bytes.
abbrev pub HasBytes : Element → Type 0
HasBytes e = (e.term_start_char < 256) × (e.term_end_char < 256)

char_le-signed : (a b : ℕ) → a < 256 → b < 256 → char_le a b ≡ not (int_lt (signed b) (signed a))
unfolding char_le
char_le-signed a b ha hb = elim (Bool-cases (ltb a 128)) [
  | inl p ↦ elim (Bool-cases (ltb b 128)) [
    | inl q ↦ rw (p, q) (ground arith)
    | inr q ↦ rw (p, q) (ground arith)
  ]
  | inr p ↦ elim (Bool-cases (ltb b 128)) [
    | inl q ↦ rw (p, q) (ground arith)
    | inr q ↦ rw (p, q) (ground arith)
  ]
]

in_range-lies_in : (e : Element) (c : ℕ) → HasBytes e → c < 256 → in_range e c ≡ lies_in e c
unfolding in_range
in_range-lies_in e c h hc =
    ap₂ (λ x y. x && y) (char_le-signed e.term_start_char c h.0 hc)
      (char_le-signed c e.term_end_char hc h.1)

any_range-lies_in_any :
    (es : List Element) (c : ℕ) → All HasBytes es → c < 256 → any_range es c ≡ lies_in_any es c
any_range-lies_in_any [] c h hc = refl
any_range-lies_in_any (e ∷ es) c h hc =
    ap₂ (λ x y. x || y) (in_range-lies_in e c h.0 hc) (any_range-lies_in_any es c h.1 hc)

accepts-belongs :
    (e : Element) (es : List Element) (c : ℕ) (kind : ElementType)
    → e.kind ≡ kind
    → in_range e c ≡ lies_in e c
    → any_range es c ≡ lies_in_any es c
    → accepts e es c ≡ belongs e es c
unfolding accepts in_range
accepts-belongs e es c type_unknown k r a = rw k refl
accepts-belongs e es c type_sequence k r a = rw k refl
accepts-belongs e es c type_or k r a = rw k refl
accepts-belongs e es c type_terminal k r a = rw k r
accepts-belongs e es c type_class k r a =
    rw k (ap (λ x. if x then not e.class_invert else e.class_invert) a)

-- In a tree whose sibling links go forward, `processTerminal` at a byte that can be read is true at a
-- terminal if and only if the byte's value as a signed character lies between those of the terminal's
-- two ends, and at a class if and only if it does so for some child of the class, or for none, where
-- the class is inverted; at other elements it is false.
pub process_terminal-belongs :
    (s : Text) (t : Elements) (cur i c : ℕ) (e : Element) (es : List Element)
    → Forward t
    → get_elem? t cur ≡ some e
    → Siblings t e.child es
    → All HasBytes (e ∷ es)
    → char_at s i ≡ ok c
    → c < 256
    → process_terminal s t cur i ≡ ok (belongs e es c)
process_terminal-belongs s t cur i c e es fw g sib bytes r hc =
    process_terminal-accepts s t cur i c e es fw g sib r
    ∙ ap ok (
        accepts-belongs e es c e.kind refl (in_range-lies_in e c bytes.0 hc)
          (any_range-lies_in_any es c bytes.1 hc))
