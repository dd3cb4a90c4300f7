-- ===== src/Regex/Match/Process.antt =====
-- src/Regex.cpp: `processElement` at a terminal or a class of a sequence.
use jhcommon.Prelude.{
  ℕ, suc, ◌+◌, ◌≤◌, ◌<◌, ◌≡◌, refl, sym, ◌∙◌, ap, true, false, ◌||◌, some, List, length, drop,
  get_elem?, arith,
}
use mathlib.Core.Path.{subst}
use jhcommon.Prelude.Text.{Text}
use jhcommon.Regex.{
  ok, ElementType, type_unknown, type_sequence, type_or, type_terminal, type_class, is_class,
  is_terminal, Element, Elements, elem_at, defined, char_at,
}
use jhcommon.Regex.Siblings.{Siblings, Forward}
use jhcommon.Regex.Match.{process_terminal, try_from, in_sequence, process_element}
use jhcommon.Regex.Groups.{ParseData}
use jhcommon.Regex.Match.Terminal.{accepts, process_terminal-accepts}
use jhcommon.Regex.Match.Greedy.{run_length, taken}
use jhcommon.Regex.Match.Rounds.{consumed, Ends}
use jhcommon.Regex.Match.Taking.{try_from-takes, try_from-short, try_from-Ends}

process_element-kind :
    (s : Text) (cur fuel : ℕ) (d : ParseData) (e : Element) (kind : ElementType)
    → e.kind ≡ kind
    → (is_terminal kind || is_class kind) ≡ true
    → elem_at d.tree cur ≡ ok e
    → in_sequence d.tree e ≡ ok true
    → process_element (suc fuel) s cur d ≡ try_from (suc d.cur_pos) s cur d.cur_pos d
unfolding process_element
process_element-kind s cur fuel d e type_unknown k b g q = absurd cc
process_element-kind s cur fuel d e type_sequence k b g q = absurd cc
process_element-kind s cur fuel d e type_or k b g q = absurd cc
process_element-kind s cur fuel d e type_terminal k b g q = simp (g, k, q) refl
process_element-kind s cur fuel d e type_class k b g q = simp (g, k, q) refl

-- An element `e` of a sequence, a terminal or a class, in a tree with forward links, that does not
-- accept the terminating NUL.
pub record Matcher (t : Elements) (cur : ℕ) (e : Element) (es : List Element) : Type 0 where
  pub forward : Forward t
  pub at : get_elem? t cur ≡ some e
  pub children : Siblings t e.child es
  pub sequence : in_sequence t e ≡ ok true
  pub kind : (is_terminal e.kind || is_class e.kind) ≡ true
  pub stops : accepts e es 0 ≡ false

module _ (s : Text) (cur fuel : ℕ) (e : Element) (es : List Element) (d : ParseData)
    (is : Matcher d.tree cur e es) (inside : d.cur_pos ≤ length s) where
  pub test : (i c : ℕ) → char_at s i ≡ ok c → process_terminal s d.tree cur i ≡ ok (accepts e es c)
  test i c r = process_terminal-accepts s d.tree cur i c e es is.forward is.at is.children r

  pub tries : process_element (suc fuel) s cur d ≡ try_from (suc d.cur_pos) s cur d.cur_pos d
  tries = process_element-kind s cur fuel d e e.kind refl is.kind (ap defined is.at) is.sequence

  -- how many characters from the position on the element accepts
  abbrev pub run_here : ℕ
  run_here = run_length (accepts e es) (drop d.cur_pos s)

  -- If an element that does not accept NUL finds as many characters as its minimum asks for, within
  -- its maximum, then it matches, and moves on by the whole run of the characters that it accepts,
  -- or, with a maximum m, by at most m + 1 of them. Groups and tree stay as they are.
  pub process_element-takes :
      e.repeat_min ≤ taken e.repeat_max 0 run_here
      → (g : ParseData) × (process_element (suc fuel) s cur d ≡ ok (true, g))
        × (g.cur_pos ≡ d.cur_pos + consumed e.repeat_max run_here)
        × (g.groups ≡ d.groups)
        × (g.tree ≡ d.tree)
  process_element-takes low =
      let (g, r, p, k, u, _) =
        try_from-takes s d.tree cur e (accepts e es) is.at test is.stops d.cur_pos d.cur_pos d refl
          inside low in
      (g, tries ∙ r, p, k, u)

  -- If it finds fewer, and the position is not behind the one that it may go back to, then it does
  -- not match.
  pub process_element-short :
      taken e.repeat_max 0 run_here < e.repeat_min
      → d.cur_pos ≤ d.backtrack_pos
      → (g : ParseData) × (process_element (suc fuel) s cur d ≡ ok (false, g))
  process_element-short low back =
      let (g, r) =
        try_from-short s d.tree cur e (accepts e es) is.at test is.stops d.cur_pos d.cur_pos d refl
          inside low back in
      (g, tries ∙ r)

  -- At an element that does not accept NUL the loops of `processElement` end, going back included.
  pub process_element-Ends : Ends (process_element (suc fuel) s cur d)
  process_element-Ends = subst Ends (sym tries) (
      try_from-Ends s d.tree cur e (accepts e es) is.at test is.stops (suc d.cur_pos) d.cur_pos d
        refl inside (omega arith) inside)
