-- ===== src/Regex/Prepare/Descent.antt =====
-- src/Regex.cpp: the cases of `prepare` for classes, repetitions and groups end and keep the links of the tree.
use jhcommon.Prelude.{ℕ, suc, ◌≤◌, ◌≡◌, refl, Bool, true, Option, none, List, [], ◌∷◌, arith, ◌==◌}
use jhcommon.Prelude.Text.{Text}
use jhcommon.Regex.{
  Run, ok, undefined, ◌>>=◌, type_sequence, type_or, type_class, is_class, Element, element,
  Elements, elem_at, update, from_null, get_last_child, add_child, char_at,
}
use jhcommon.Regex.Tree.{Each, bind-Each, elem_at-Each, from_null-Each, IsTree}
use jhcommon.Regex.Growth.{add_child-Each, get_last_child-Each}
use jhcommon.Regex.Prep.{
  ClassState, in_unknown, in_class, in_class_thru, Prep, Outcome, go, add_terminal, add_terminals,
  descend, ascend, is_in_class,
}
use jhcommon.Regex.Prepare.{
  class_escape, repeatable, assert_repeatable, set_repeat, open_class, close_class, class_range,
  open_group, next_alternative, close_group,
}
use jhcommon.Regex.Range.{PrepareError}
use jhcommon.Regex.Prepare.Cases.{
  Kept, Moved, if-Each, on_go-Each, update-IsTree, char_at-Ends, if_le, add_terminal-Each,
  later-Each,
}

add_terminals-Each :
    (ranges : List (ℕ × ℕ)) (i : ℕ) (p : Prep)
    → IsTree p.tree
    → i ≤ p.pos
    → Each (Kept i) (add_terminals ranges p)
unfolding add_terminals
add_terminals-Each [] i p w h = (w, h)
add_terminals-Each ((start, end) ∷ ranges) i p w h =
    on_go-Each i (add_terminal start end p) (add_terminals ranges)
      (later-Each i p.pos _ h (add_terminal-Each start end p w))
      (λ q wq hq. add_terminals-Each ranges i q wq hq)

descend-Each :
    (e : Element) (p : Prep)
    → IsTree p.tree
    → e.next ≡ none
    → e.child ≡ none
    → Each (Moved p.pos) (descend e p)
unfolding descend
descend-Each e p w en ec =
    bind-Each _ (Moved p.pos) (add_child p.tree p.cur_node e) _
      (add_child-Each p.tree p.cur_node e w en ec) λ t wt. (wt.0, refl)

ascend-Each : (p : Prep) → IsTree p.tree → Each (Moved p.pos) (ascend p)
unfolding ascend
ascend-Each p w =
    bind-Each _ (Moved p.pos) (elem_at p.tree p.cur_node) _ (elem_at-Each p.tree p.cur_node) λ x g.
      bind-Each _ (Moved p.pos) (from_null x.parent) _ (from_null-Each x.parent) λ up q. (w, refl)

pub class_escape-Each :
    (invert : Bool) (ranges : List (ℕ × ℕ)) (p : Prep)
    → IsTree p.tree
    → Each (Kept p.pos) (class_escape invert ranges p)
unfolding class_escape
class_escape-Each invert ranges p w =
    bind-Each _ (Kept p.pos) (elem_at p.tree p.cur_node) _ (elem_at-Each p.tree p.cur_node) λ x g.
      bind-Each (Moved p.pos) (Kept p.pos) _ _
        (if-Each (Moved p.pos) (is_class x.kind) (ok p) (descend (element type_class) p)
          (λ _. (w, refl)) (λ _. descend-Each (element type_class) p w refl refl))
        λ q (wq, hq).
          bind-Each IsTree (Kept p.pos) _ _
            (if-Each IsTree invert
              (update q.tree q.cur_node (λ e. record e { class_invert = true })) (ok q.tree)
              (λ _. update-IsTree q.tree q.cur_node _ wq (λ e. (refl, refl))) (λ _. wq))
            λ t wt.
              on_go-Each p.pos (add_terminals ranges (record q { tree = t })) _
                (add_terminals-Each ranges p.pos (record q { tree = t }) wt (omega (arith, hq)))
                λ r wr hr.
                  if-Each (Kept p.pos) (is_class x.kind) (ok (go r)) _ (λ _. (wr, hr))
                    λ _.
                      bind-Each (Moved r.pos) (Kept p.pos) (ascend r) _ (ascend-Each r wr)
                        λ u (wu, hu). (wu, omega (arith, hu, hr))

assert_repeatable-Each : (t : Elements) (l : ℕ) → IsTree t → Each IsTree (assert_repeatable t l)
unfolding assert_repeatable
assert_repeatable-Each t l w =
    bind-Each _ IsTree (elem_at t l) _ (elem_at-Each t l)
      λ x g. if-Each IsTree (repeatable x.kind) (ok t) undefined (λ _. w) (λ _. tt)

-- the bounds of the last child are written, and its type asserted
pub bounded_child-Each :
    (p : Prep) (f : Element → Element) (rest : ℕ → Elements → Run Outcome)
    → IsTree p.tree
    → ((e : Element) → ((f e).next ≡ e.next) × ((f e).child ≡ e.child))
    → ((l : ℕ) (t : Elements) → IsTree t → Each (Kept p.pos) (rest l t))
    → Each (Kept p.pos) (do
      l ← get_last_child p.tree p.cur_node
      l ← from_null l
      t ← update p.tree l f
      t ← assert_repeatable t l
      rest l t)
bounded_child-Each p f rest w keeps k =
    bind-Each (λ l. Unit {0}) (Kept p.pos) (get_last_child p.tree p.cur_node) _
      (get_last_child-Each p.tree p.cur_node w)
      λ o _. bind-Each _ (Kept p.pos) (from_null o) _ (from_null-Each o) λ l _.
        bind-Each IsTree (Kept p.pos) (update p.tree l f) _ (update-IsTree p.tree l f w keeps)
          λ t wt.
            bind-Each IsTree (Kept p.pos) (assert_repeatable t l) _ (assert_repeatable-Each t l wt)
              λ u wu. k l u wu

pub set_repeat-Each :
    (bare : PrepareError) (low : ℕ) (high : Option ℕ) (p : Prep)
    → IsTree p.tree
    → Each (Kept p.pos) (set_repeat bare low high p)
unfolding set_repeat
set_repeat-Each bare low high p w =
    if-Each (Kept p.pos) (is_in_class p.state) _ _ (λ _. w)
      λ _.
        bounded_child-Each p _ (λ l t. ok (go (record p { tree = t }))) w (λ e. (refl, refl))
          λ l t wt. (wt, omega arith)

pub open_class-Each : (s : Text) (p : Prep) → IsTree p.tree → Each (Kept p.pos) (open_class s p)
unfolding open_class
open_class-Each s p w =
    if-Each (Kept p.pos) (is_in_class p.state) _ _ (λ _. w)
      λ _.
        bind-Each (λ c. Unit {0}) (Kept p.pos) (char_at s (suc p.pos)) _
          (char_at-Ends s (suc p.pos))
          λ c _.
            bind-Each (Moved p.pos) (Kept p.pos)
              (descend (record (element type_class) { class_invert = c == 94 }) p) _
              (descend-Each _ p w refl refl) λ q (wq, hq). (wq, if_le (c == 94) p.pos q.pos hq)

state-Each :
    {A : Type 0} (P : A → Type 0) (s : ClassState) (x y z : Run A)
    → Each P x
    → Each P y
    → Each P z
    → Each P (elim s [ in_class ↦ x | in_class_thru ↦ y | in_unknown ↦ z ])
state-Each P in_unknown x y z a b c = c
state-Each P in_class x y z a b c = a
state-Each P in_class_thru x y z a b c = b

pub close_class-Each : (p : Prep) → IsTree p.tree → Each (Kept p.pos) (close_class p)
unfolding close_class
close_class-Each p w =
    state-Each (Kept p.pos) p.state _ _ _
      (bind-Each (Moved p.pos) (Kept p.pos) (ascend p) _ (ascend-Each p w)
        λ q (wq, hq). (wq, omega (arith, hq)))
      w (add_terminal-Each 93 93 p w)

pub class_range-Each : (p : Prep) → IsTree p.tree → Each (Kept p.pos) (class_range p)
unfolding class_range
class_range-Each p w =
    if-Each (Kept p.pos) (is_in_class p.state) _ _
      (λ _.
        bind-Each (λ l. Unit {0}) (Kept p.pos) (get_last_child p.tree p.cur_node) _
          (get_last_child-Each p.tree p.cur_node w)
          λ o _. bind-Each _ (Kept p.pos) (from_null o) _ (from_null-Each o) λ l _.
            bind-Each _ (Kept p.pos) (elem_at p.tree l) _ (elem_at-Each p.tree l) λ e g.
              if-Each (Kept p.pos) (e.term_start_char == e.term_end_char) _ _
                (λ _. (w, omega arith)) (λ _. w))
      (λ _. add_terminal-Each 45 45 p w)

pub open_group-Each : (p : Prep) → IsTree p.tree → Each (Kept p.pos) (open_group p)
unfolding open_group
open_group-Each p w =
    if-Each (Kept p.pos) (is_in_class p.state) _ _ (λ _. add_terminal-Each 40 40 p w)
      λ _.
        bind-Each (Moved p.pos) (Kept p.pos) (descend (element type_or) p) _
          (descend-Each _ p w refl refl)
          λ q (wq, hq).
            bind-Each (Moved q.pos) (Kept p.pos) (descend (element type_sequence) q) _
              (descend-Each _ q wq refl refl) λ r (wr, hr). (wr, omega (arith, hq, hr))

pub next_alternative-Each : (p : Prep) → IsTree p.tree → Each (Kept p.pos) (next_alternative p)
unfolding next_alternative
next_alternative-Each p w =
    if-Each (Kept p.pos) (p.in_group == 0) _ _ (λ _. add_terminal-Each 124 124 p w)
      λ _. bind-Each (Moved p.pos) (Kept p.pos) (ascend p) _ (ascend-Each p w) λ q (wq, hq).
        bind-Each (Moved q.pos) (Kept p.pos) (descend (element type_sequence) q) _
          (descend-Each _ q wq refl refl) λ r (wr, hr). (wr, omega (arith, hq, hr))

pub close_group-Each : (p : Prep) → IsTree p.tree → Each (Kept p.pos) (close_group p)
unfolding close_group
close_group-Each p w =
    if-Each (Kept p.pos) (p.in_group == 0) _ _ (λ _. add_terminal-Each 41 41 p w)
      λ _. bind-Each (Moved p.pos) (Kept p.pos) (ascend p) _ (ascend-Each p w) λ q (wq, hq).
        bind-Each (Moved q.pos) (Kept p.pos) (ascend q) _ (ascend-Each q wq)
          λ r (wr, hr). (wr, omega (arith, hq, hr))
