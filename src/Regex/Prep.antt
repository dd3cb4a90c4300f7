-- ===== src/Regex/Prep.antt =====
-- src/Regex.cpp: the variables of `prepare`, how a pass of its loop ends, and its writes to the tree.
use jhcommon.Prelude.{ℕ, Bool, true, false, List, [], ◌∷◌, length, ◌==◌, if◌then◌else◌}
use jhcommon.Regex.{
  Run, ok, ◌>>=◌, type_terminal, Element, element, Elements, elem_at, update, from_null,
  get_last_child, add_child,
}
use jhcommon.Regex.Range.{invalid_range, PrepareError}

-- IN_RANGE_MIN and IN_RANGE_MAX are values of `range_state` alone.
pub data ClassState : Type 0 where
  in_unknown : ClassState
  in_class : ClassState
  in_class_thru : ClassState

abbrev pub is_in_class : ClassState → Bool
is_in_class in_class = true
is_in_class _ = false

-- the local variables of the loop, `pos` for `i`, and the tree
pub record Prep : Type 0 where
  pub tree : Elements
  pub cur_node : ℕ
  pub state : ClassState
  pub in_group : ℕ
  pub pos : ℕ

-- how a pass ends: with `break`, or with PARSE_ERROR, which leaves the tree as it is then
pub data Outcome : Type 0 where
  go : Prep → Outcome
  fail : PrepareError → Elements → Outcome

abbrev pub on_go : Run Outcome → (Prep → Run Outcome) → Run Outcome
on_go r f = r >>= λ o. elim o [ go p ↦ f p | fail e t ↦ ok (fail e t) ]

-- PARSE_ERROR
abbrev pub parse_error : PrepareError → Prep → Run Outcome
parse_error e p = ok (fail e p.tree)

abbrev pub terminal : ℕ → ℕ → Element
terminal start end = record (element type_terminal) { term_start_char = start; term_end_char = end }

-- `getLastChild` and a write to what it returns
abbrev pub on_last_child : Prep → (Element → Element) → Run Elements
on_last_child p f = do l ← get_last_child p.tree p.cur_node; l ← from_null l; update p.tree l f

-- ADD_TERMINAL
unfoldable pub add_terminal : ℕ → ℕ → Prep → Run Outcome
add_terminal start end p = elim p.state [
  | in_class_thru ↦
      if start == end
      then (do
        t ← on_last_child p (λ e. record e { term_end_char = start })
        ok (go (record p { tree = t; state = in_class })))
      else parse_error invalid_range p
  | _ ↦ do t ← add_child p.tree p.cur_node (terminal start end); ok (go (record p { tree = t }))
]

unfoldable pub add_terminals : List (ℕ × ℕ) → Prep → Run Outcome
add_terminals [] p = ok (go p)
add_terminals ((start, end) ∷ ranges) p = on_go (add_terminal start end p) (add_terminals ranges)

-- a new element below the current one, which becomes the current one
unfoldable pub descend : Element → Prep → Run Prep
descend e p = do
  t ← add_child p.tree p.cur_node e
  ok (record p { tree = t; cur_node = length p.tree })

-- `cur_node = cur_node->mParent`
unfoldable pub ascend : Prep → Run Prep
ascend p = do
  x ← elem_at p.tree p.cur_node
  up ← from_null x.parent
  ok (record p { cur_node = up })
