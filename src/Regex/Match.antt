-- ===== src/Regex/Match.antt =====
-- src/Regex.cpp: `parse` and `getData`. The positions are not negative, so that the tests on `int`
-- are those on numbers.
pub mod Terminal
pub mod Ranges
pub mod Greedy
pub mod Rounds
pub mod Taking
pub mod Process
pub mod Ahead
pub mod Literal
pub mod Prefix
use jhcommon.Prelude.{
  ℕ, zero, suc, ◌+◌, ◌-◌, Bool, true, false, ◌&&◌, ◌||◌, not, Option, none, some, List, [], ◌∷◌,
  ◌++◌, length, get_elem?, set, take, drop, ltb, leb, ◌==◌, if◌then◌else◌,
}
use jhcommon.Prelude.Text.{Text}
use jhcommon.Regex.{
  Run, ok, undefined, out_of_fuel, ◌>>=◌, defined, ElementType, type_unknown, type_sequence,
  type_or, type_terminal, type_class, is_class, is_or, Element, element, Elements, elem_at, update,
  from_null, char_at, in_range,
}
use jhcommon.Regex.Prep.{Prep, go, fail}
use jhcommon.Regex.Prepare.{prepare}
use jhcommon.Regex.Range.{PrepareError}
use jhcommon.Regex.Groups.{
  GroupData, ParseData, backtrack_groups, captured, close_capture, open_capture,
}

-- the loop over the terminals of a class
unfoldable pub class_from : ℕ → Text → Elements → Option ℕ → ℕ → Bool → Run Bool
class_from fuel s t none i invert = ok invert
class_from zero s t (some k) i invert = out_of_fuel
class_from (suc fuel) s t (some k) i invert = do
  e ← elem_at t k
  c ← char_at s i
  if in_range e c then ok (not invert) else class_from fuel s t e.next i invert

unfoldable pub process_terminal : Text → Elements → ℕ → ℕ → Run Bool
process_terminal s t cur i = do
  e ← elem_at t cur
  elim e.kind [
    | type_terminal ↦ char_at s i >>= λ c. ok (in_range e c)
    | type_class ↦ class_from (length t) s t e.child i e.class_invert
    | _ ↦ ok false
  ]

abbrev pub below_max : Option ℕ → ℕ → Bool
below_max none n = true
below_max (some m) n = ltb n m

abbrev pub advance : ParseData → ParseData
advance d = record d { cur_pos = suc d.cur_pos; match_count = suc d.match_count }

-- the inner loop, which takes one match after the other
unfoldable pub repeat_while : ℕ → Text → ℕ → ParseData → Bool → Run (Bool × ParseData)
repeat_while zero s cur d res = out_of_fuel
repeat_while (suc fuel) s cur d res = do
  e ← elem_at d.tree cur
  if below_max e.repeat_max d.match_count && res
      then process_terminal s d.tree cur (suc d.cur_pos) >>= repeat_while fuel s cur (advance d)
      else ok (res, d)

-- the end of the outer loop, when the last test of the terminal held
unfoldable pub take_one_more : ℕ → ParseData → Bool × ParseData
take_one_more low d =
    if leb low d.match_count
    then (true, record (advance d) { backtrack_pos = suc d.cur_pos - (suc d.match_count - low) })
    else (false, d)

-- the outer loop, which tries the element one place to the left as long as it can backtrack
unfoldable pub try_from : ℕ → Text → ℕ → ℕ → ParseData → Run (Bool × ParseData)
try_from zero s cur start d = out_of_fuel
try_from (suc fuel) s cur start d = do
  e ← elem_at d.tree cur
  res ← process_terminal s d.tree cur d.cur_pos
  r ← repeat_while (suc (suc (length s))) s cur (record d { match_count = 0 }) res
  if r.0
      then ok (take_one_more e.repeat_min (r.1))
      else if leb e.repeat_min ((r.1).match_count)
      then ok (true, r.1)
      else if not (ltb ((r.1).backtrack_pos) start)
      then ok (false, r.1)
      else do
        gs ← backtrack_groups ((r.1).groups) (start - 1)
        try_from fuel s cur (start - 1) (record (r.1) { cur_pos = start - 1; groups = gs })

-- The way up of `processSubTree`: the parent of the root is NULL, which no `top` is.
unfoldable pub climb : ℕ → Elements → ℕ → ℕ → Run (Option ℕ)
climb zero t top cur = out_of_fuel
climb (suc fuel) t top cur = do
  x ← elem_at t cur
  up ← from_null x.parent
  if top == up
      then ok none
      else do y ← elem_at t up; elim y.next [ some n ↦ ok (some n) | none ↦ climb fuel t top up ]

abbrev pub has_walk : ElementType → Bool
has_walk k = not (is_class k) && not (is_or k)

unfoldable pub next_node : Elements → ℕ → ℕ → Run (Option ℕ)
next_node t top cur = do
  x ← elem_at t cur
  elim (if has_walk x.kind then x.child else none) [
    | some k ↦ ok (some k)
    | none ↦ elim x.next [ some n ↦ ok (some n) | none ↦ climb (length t) t top cur ]
  ]

-- the `assert` on the parent of a terminal or a class
unfoldable pub in_sequence : Elements → Element → Run Bool
in_sequence t e = do
  up ← from_null e.parent
  p ← elem_at t up
  elim p.kind [ type_sequence ↦ ok true | _ ↦ undefined ]

unfoldable mutual
  pub process_element : ℕ → Text → ℕ → ParseData → Run (Bool × ParseData)
  process_element zero s cur d = out_of_fuel
  process_element (suc fuel) s cur d = do
    e ← elem_at d.tree cur
    elim e.kind [
      | type_or ↦ open_capture cur d >>= λ d. try_alternatives fuel s cur e.child d
      | type_sequence ↦ ok (true, d)
      | type_unknown ↦ ok (false, d)
      | _ ↦ in_sequence d.tree e >>= λ _. try_from (suc d.cur_pos) s cur d.cur_pos d
    ]

  -- the loop over the alternatives of a group
  pub try_alternatives : ℕ → Text → ℕ → Option ℕ → ParseData → Run (Bool × ParseData)
  try_alternatives fuel s cur none d = ok (false, d)
  try_alternatives zero s cur (some k) d = out_of_fuel
  try_alternatives (suc fuel) s cur (some k) d = do
    r ← walk fuel s k k d
    if r.0
        then (close_capture s cur (r.1) >>= λ d. ok (true, d))
        else do e ← elem_at ((r.1).tree) k; try_alternatives fuel s cur e.next (r.1)

  -- `processSubTree` of `top`, at the node `cur`
  pub walk : ℕ → Text → ℕ → ℕ → ParseData → Run (Bool × ParseData)
  walk zero s top cur d = out_of_fuel
  walk (suc fuel) s top cur d = do
    r ← process_element fuel s cur d
    if r.0
        then (next_node ((r.1).tree) top cur >>= λ n. elim n [
          | none ↦ ok (true, r.1)
          | some c ↦ walk fuel s top c (r.1)
        ])
        else ok (false, r.1)

pub data RegexState : Type 0 where
  state_init : RegexState
  state_prepared : RegexState
  state_parsed : RegexState

pub record Regex : Type 0 where
  pub state : RegexState
  pub root : Elements
  pub groups : List GroupData
  pub prepare_error : Option PrepareError

abbrev pub new_regex : Regex
new_regex = record {
  state = state_init;
  root = element type_unknown ∷ [];
  groups = [];
  prepare_error = none;
}

-- `prepare`, true for kNoError
unfoldable pub prepare_regex : Text → Regex → Run (Bool × Regex)
prepare_regex s r = do
  o ← prepare s r.root
  elim o [
    | go p ↦ ok (true, record r { state = state_prepared; root = p.tree })
    | fail e t ↦ ok (false, record r { root = t; prepare_error = some e })
  ]

-- `parse`; the error code that it returns before `prepare` is not 0, and so it is true
unfoldable pub parse : ℕ → Text → Regex → Run (Bool × Regex)
parse fuel s r = elim r.state [
  | state_init ↦ ok (true, r)
  | _ ↦ do
    m ← walk fuel s 0 0 (record {
      tree = r.root;
      groups = r.groups;
      cur_pos = 0;
      backtrack_pos = 0;
      match_count = 0;
    })
    ok (
      m.0,
      record r {
        state = if m.0 then state_parsed else r.state;
        root = (m.1).tree;
        groups = (m.1).groups;
      },
    )
]

-- `getData` at an index that is not negative
unfoldable pub get_data : ℕ → Regex → Text
get_data i r = elim r.state [
  | state_parsed ↦ elim (get_elem? r.groups i) [ none ↦ [] | some g ↦ g.string ]
  | _ ↦ []
]
