-- ===== src/Regex/Match/Terminal.antt =====
-- src/Regex.cpp: what `processTerminal` accepts.
use jhcommon.Prelude.{
  ℕ, zero, suc, ◌≤◌, ◌≡◌, refl, ◌∙◌, Bool, true, false, not, Option, some, List, length, get_elem?,
  arith, if◌then◌else◌, Bool-cases, inl, inr,
}
use jhcommon.Prelude.Text.{Text}
use jhcommon.Regex.{
  ok, ElementType, type_unknown, type_sequence, type_or, type_terminal, type_class, Element,
  Elements, char_at, in_range,
}
use jhcommon.Regex.Siblings.{Siblings, nil, cons, any_range, Forward, length-Siblings}
use jhcommon.Regex.Match.{class_from, process_terminal}

module _ (s : Text) (t : Elements) (i c : ℕ) (invert : Bool) (read : char_at s i ≡ ok c) where
  class_from-hit :
      (k fuel : ℕ) (e : Element)
      → get_elem? t k ≡ some e
      → in_range e c ≡ true
      → class_from (suc fuel) s t (some k) i invert ≡ ok (not invert)
  unfolding class_from
  class_from-hit k fuel e g r = rw (g, read, r) refl

  class_from-miss :
      (k fuel : ℕ) (e : Element)
      → get_elem? t k ≡ some e
      → in_range e c ≡ false
      → class_from (suc fuel) s t (some k) i invert ≡ class_from fuel s t e.next i invert
  unfolding class_from
  class_from-miss k fuel e g r = rw (g, read, r) refl

  class_from-Siblings :
      (fuel : ℕ) (k : Option ℕ) (es : List Element)
      → Siblings t k es
      → length es ≤ fuel
      → class_from fuel s t k i invert ≡ ok (if any_range es c then not invert else invert)
  unfolding class_from
  class_from-Siblings zero _ _ nil f = refl
  class_from-Siblings (suc fuel) _ _ nil f = refl
  class_from-Siblings zero _ _ (cons g rest) f = absurd (omega arith)
  class_from-Siblings (suc fuel) _ _ (cons {k} {e} {es} g rest) f =
      elim (Bool-cases (in_range e c)) [
        | inl r ↦ class_from-hit k fuel e g r ∙ rw r refl
        | inr r ↦
            class_from-miss k fuel e g r
            ∙ class_from-Siblings fuel e.next es rest (omega arith)
            ∙ rw r refl
      ]

-- what an element with these children accepts, by its ranges
unfoldable pub accepts : Element → List Element → ℕ → Bool
accepts e es c = elim e.kind [
  | type_terminal ↦ in_range e c
  | type_class ↦ if any_range es c then not e.class_invert else e.class_invert
  | _ ↦ false
]

process_terminal-kind :
    (s : Text) (t : Elements) (cur i c : ℕ) (e : Element) (es : List Element) (kind : ElementType)
    → e.kind ≡ kind
    → get_elem? t cur ≡ some e
    → char_at s i ≡ ok c
    → class_from (length t) s t e.child i e.class_invert
      ≡ ok (if any_range es c then not e.class_invert else e.class_invert)
    → process_terminal s t cur i ≡ ok (accepts e es c)
unfolding process_terminal accepts in_range
process_terminal-kind s t cur i c e es type_unknown k g r l = rw (g, k) refl
process_terminal-kind s t cur i c e es type_sequence k g r l = rw (g, k) refl
process_terminal-kind s t cur i c e es type_or k g r l = rw (g, k) refl
process_terminal-kind s t cur i c e es type_terminal k g r l = rw (g, k, r) refl
process_terminal-kind s t cur i c e es type_class k g r l = rw (g, k, l) refl

-- `processTerminal` in terms of the comparisons of its ranges, whatever they are.
pub process_terminal-accepts :
    (s : Text) (t : Elements) (cur i c : ℕ) (e : Element) (es : List Element)
    → Forward t
    → get_elem? t cur ≡ some e
    → Siblings t e.child es
    → char_at s i ≡ ok c
    → process_terminal s t cur i ≡ ok (accepts e es c)
process_terminal-accepts s t cur i c e es fw g sib r =
    process_terminal-kind s t cur i c e es e.kind refl g r (
      class_from-Siblings s t i c e.class_invert r (length t) e.child es sib
        (length-Siblings t e.child es fw sib))
