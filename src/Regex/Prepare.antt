-- ===== src/Regex/Prepare.antt =====
-- src/Regex.cpp: `prepare`, one case of its switch per function. The error texts are constructors.
pub mod Descent
pub mod Cases
pub mod Braces
pub mod Sound
pub mod Literals
pub mod Plain
use jhcommon.Prelude.{
  ℕ, zero, suc, ◌+◌, ◌-◌, ◌*◌, Bool, true, false, ◌&&◌, ◌||◌, not, Option, none, some, List, [],
  ◌∷◌, ◌++◌, length, ltb, leb, ◌==◌, if◌then◌else◌,
}
use jhcommon.Prelude.Text.{Text}
use jhcommon.Regex.{
  Run, ok, undefined, out_of_fuel, ◌>>=◌, ElementType, type_sequence, type_or, type_terminal,
  type_class, is_class, is_or, is_terminal, Element, element, Elements, elem_at, update, from_null,
  get_last_child, add_child, char_at,
}
use jhcommon.Regex.Range.{
  invalid_range, bare_star, bare_plus, bare_question, bare_brace, bare_bracket, many_commas,
  non_numeric, bracket_in_range, bad_range_start, closed, broken, PrepareError, times_ten,
  add_digit, Range, range_from,
}
use jhcommon.Regex.Prep.{
  in_unknown, in_class, in_class_thru, is_in_class, Prep, Outcome, go, fail, on_go, parse_error,
  add_terminal, add_terminals, descend, ascend,
}

-- CHECK_CLASS, the terminals of a class escape, END_CLASS
unfoldable pub class_escape : Bool → List (ℕ × ℕ) → Prep → Run Outcome
class_escape invert ranges p = do
  x ← elem_at p.tree p.cur_node
  p ← if is_class x.kind then ok p else descend (element type_class) p
  t ← if invert then update p.tree p.cur_node (λ e. record e { class_invert = true }) else ok p.tree
  on_go (add_terminals ranges (record p { tree = t }))
      λ p. if is_class x.kind then ok (go p) else ascend p >>= λ p. ok (go p)

abbrev pub word_ranges : List (ℕ × ℕ)
word_ranges = (97, 122) ∷ (65, 90) ∷ (48, 57) ∷ (95, 95) ∷ []

abbrev pub space_ranges : List (ℕ × ℕ)
space_ranges = (32, 32) ∷ (9, 9) ∷ (10, 10) ∷ (13, 13) ∷ (12, 12) ∷ []

abbrev pub digit_ranges : List (ℕ × ℕ)
digit_ranges = (48, 57) ∷ []

-- the switch behind a backslash: w W s S d D t n r f 0 x
unfoldable pub escape : ℕ → Prep → Run Outcome
escape c p =
    if c == 119
    then class_escape false word_ranges p
    else if c == 87
    then class_escape true word_ranges p
    else if c == 115
    then class_escape false space_ranges p
    else if c == 83
    then class_escape true space_ranges p
    else if c == 100
    then class_escape false digit_ranges p
    else if c == 68
    then class_escape true digit_ranges p
    else if c == 116
    then add_terminal 9 9 p
    else if c == 110
    then add_terminal 10 10 p
    else if c == 114
    then add_terminal 13 13 p
    else if c == 102
    then add_terminal 12 12 p
    else if c == 48 || c == 120
    then ok (go p)
    else add_terminal c c p

-- what the `assert` behind a repetition allows
abbrev pub repeatable : ElementType → Bool
repeatable t = is_class t || is_or t || is_terminal t

unfoldable pub assert_repeatable : Elements → ℕ → Run Elements
assert_repeatable t l = elem_at t l >>= λ x. if repeatable x.kind then ok t else undefined

-- the cases of `*`, `+` and `?`
unfoldable pub set_repeat : PrepareError → ℕ → Option ℕ → Prep → Run Outcome
set_repeat bare low high p = if is_in_class p.state then parse_error bare p else do
  l ← get_last_child p.tree p.cur_node
  l ← from_null l
  t ← update p.tree l (λ e. record e { repeat_min = low; repeat_max = high })
  t ← assert_repeatable t l
  ok (go (record p { tree = t }))

-- the case of an opening brace
unfoldable pub set_range : Text → Prep → Run Outcome
set_range s p = if is_in_class p.state then parse_error bare_brace p else do
  l ← get_last_child p.tree p.cur_node
  l ← from_null l
  t ← update p.tree l (λ e. record e { repeat_min = 0; repeat_max = some 0 })
  t ← assert_repeatable t l
  r ← range_from (suc (length s)) s (suc p.pos) false l t
  elim (r.0) [
    | broken e ↦ ok (fail e (r.1))
    | closed i true ↦ ok (go (record p { tree = r.1; pos = i }))
    | closed i false ↦ do
      t ← update (r.1) l (λ e. record e { repeat_max = some e.repeat_min })
      ok (go (record p { tree = t; pos = i }))
  ]

-- the case of an opening bracket
unfoldable pub open_class : Text → Prep → Run Outcome
open_class s p = if is_in_class p.state then parse_error bare_bracket p else do
  c ← char_at s (suc p.pos)
  let invert = c == 94 in
      do
        p ← descend (record (element type_class) { class_invert = invert }) p
        ok (go (record p { state = in_class; pos = if invert then suc p.pos else p.pos }))

unfoldable pub close_class : Prep → Run Outcome
close_class p = elim p.state [
  | in_class ↦ ascend p >>= λ p. ok (go (record p { state = in_unknown }))
  | in_class_thru ↦ parse_error bracket_in_range p
  | in_unknown ↦ add_terminal 93 93 p
]

-- the case of `-`
unfoldable pub class_range : Prep → Run Outcome
class_range p =
    if is_in_class p.state
    then (do
      l ← get_last_child p.tree p.cur_node
      l ← from_null l
      e ← elem_at p.tree l
      (if e.term_start_char == e.term_end_char
          then ok (go (record p { state = in_class_thru }))
          else parse_error bad_range_start p))
    else add_terminal 45 45 p

unfoldable pub open_group : Prep → Run Outcome
open_group p = if is_in_class p.state then add_terminal 40 40 p else do
  p ← descend (element type_or) p
  p ← descend (element type_sequence) p
  ok (go (record p { in_group = suc p.in_group }))

unfoldable pub next_alternative : Prep → Run Outcome
next_alternative p =
    if p.in_group == 0
    then add_terminal 124 124 p
    else do p ← ascend p; p ← descend (element type_sequence) p; ok (go p)

unfoldable pub close_group : Prep → Run Outcome
close_group p =
    if p.in_group == 0
    then add_terminal 41 41 p
    else do p ← ascend p; p ← ascend p; ok (go (record p { in_group = p.in_group - 1 }))

-- the case of a backslash
unfoldable pub take_escape : Text → Prep → Run Outcome
take_escape s p = do c ← char_at s (suc p.pos); escape c (record p { pos = suc p.pos })

-- the outer switch: backslash . * + ? { [ ] - ( | )
unfoldable pub take_char : Text → ℕ → Prep → Run Outcome
take_char s c p =
    if c == 92
    then take_escape s p
    else if c == 46
    then add_terminal 0 127 p
    else if c == 42
    then set_repeat bare_star 0 none p
    else if c == 43
    then set_repeat bare_plus 1 none p
    else if c == 63
    then set_repeat bare_question 0 (some 1) p
    else if c == 123
    then set_range s p
    else if c == 91
    then open_class s p
    else if c == 93
    then close_class p
    else if c == 45
    then class_range p
    else if c == 40
    then open_group p
    else if c == 124
    then next_alternative p
    else if c == 41
    then close_group p
    else add_terminal c c p

-- the loop
unfoldable pub prepare_from : ℕ → Text → Prep → Run Outcome
prepare_from zero s p = if ltb p.pos (length s) then out_of_fuel else ok (go p)
prepare_from (suc fuel) s p =
    if ltb p.pos (length s)
    then (do
      c ← char_at s p.pos
      on_go (take_char s c p) λ p. prepare_from fuel s (record p { pos = suc p.pos }))
    else ok (go p)

-- `prepare` on the tree as it is, the root at 0
unfoldable pub prepare : Text → Elements → Run Outcome
prepare s t = do
  t ← update t 0 (λ e. record e { kind = type_sequence })
  prepare_from (length s) s
      (record { tree = t; cur_node = 0; state = in_unknown; in_group = 0; pos = 0 })
