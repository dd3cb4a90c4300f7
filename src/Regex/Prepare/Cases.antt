-- ===== src/Regex/Prepare/Cases.antt =====
-- src/Regex.cpp: what a case of the switch of `prepare` keeps, and the terminals.
use jhcommon.Prelude.{
  ℕ, zero, suc, ◌≤◌, ◌≡◌, refl, sym, Bool, true, false, [], ◌∷◌, length, arith, ◌==◌, if◌then◌else◌,
}
use mathlib.Core.Path.{subst}
use jhcommon.Prelude.Text.{Text}
use jhcommon.Regex.{
  Run, ok, undefined, out_of_fuel, Element, Elements, update, from_null, get_last_child, add_child,
  char_at,
}
use jhcommon.Regex.Tree.{Each, bind-Each, map-Each, from_null-Each, Within, IsTree, update-Within}
use jhcommon.Regex.Growth.{add_child-Each, get_last_child-Each}
use jhcommon.Regex.Prep.{
  ClassState, in_unknown, in_class, in_class_thru, Prep, Outcome, go, fail, on_go, on_last_child,
  terminal, add_terminal,
}

-- what a case leaves: a tree, and a position that is not before the given one
abbrev pub Kept : ℕ → Outcome → Type 0
Kept i (go p) = IsTree p.tree × (i ≤ p.pos)
Kept i (fail e t) = IsTree t

-- the same of a case that moves the current node alone
abbrev pub Moved : ℕ → Prep → Type 0
Moved i p = IsTree p.tree × (p.pos ≡ i)

pub if-Each :
    {A : Type 0} (P : A → Type 0) (b : Bool) (x y : Run A)
    → (b ≡ true → Each P x)
    → (b ≡ false → Each P y)
    → Each P (if b then x else y)
if-Each P true x y h k = h refl
if-Each P false x y h k = k refl

pub on_go-Each :
    (i : ℕ) (r : Run Outcome) (f : Prep → Run Outcome)
    → Each (Kept i) r
    → ((p : Prep) → IsTree p.tree → i ≤ p.pos → Each (Kept i) (f p))
    → Each (Kept i) (on_go r f)
on_go-Each i (ok (go p)) f h k = k p (h.0) (h.1)
on_go-Each i (ok (fail e t)) f h k = h
on_go-Each i undefined f h k = tt
on_go-Each i out_of_fuel f h k = absurd h

-- a write that keeps the links
pub update-IsTree :
    (t : Elements) (i : ℕ) (f : Element → Element)
    → IsTree t
    → ((e : Element) → ((f e).next ≡ e.next) × ((f e).child ≡ e.child))
    → Each IsTree (update t i f)
update-IsTree t i f w keeps =
    map-Each _ IsTree (update t i f) (update-Within (length t) t i f w keeps)
      λ u h. subst (λ n. Within n u) (sym (h.1)) (h.0)

pub on_last_child-Each :
    (p : Prep) (f : Element → Element)
    → IsTree p.tree
    → ((e : Element) → ((f e).next ≡ e.next) × ((f e).child ≡ e.child))
    → Each IsTree (on_last_child p f)
on_last_child-Each p f w keeps =
    bind-Each (λ l. Unit {0}) _ (get_last_child p.tree p.cur_node) _
      (get_last_child-Each p.tree p.cur_node w)
      λ o _.
        bind-Each _ _ (from_null o) _ (from_null-Each o) λ l _. update-IsTree p.tree l f w keeps

pub char_at-Ends : (s : Text) (i : ℕ) → Each (λ c. Unit {0}) (char_at s i)
char_at-Ends [] zero = tt
char_at-Ends [] (suc i) = tt
char_at-Ends (c ∷ s) zero = tt
char_at-Ends (c ∷ s) (suc i) = char_at-Ends s i

pub if_le : (b : Bool) (i j : ℕ) → j ≡ i → i ≤ (if b then suc j else j)
if_le true i j h = omega arith
if_le false i j h = omega arith

pub thru-Each :
    {A : Type 0} (P : A → Type 0) (s : ClassState) (x y : Run A)
    → Each P x
    → Each P y
    → Each P (elim s [ in_class_thru ↦ x | _ ↦ y ])
thru-Each P in_unknown x y h k = k
thru-Each P in_class x y h k = k
thru-Each P in_class_thru x y h k = h

pub add_terminal-Each :
    (start end : ℕ) (p : Prep) → IsTree p.tree → Each (Kept p.pos) (add_terminal start end p)
unfolding add_terminal
add_terminal-Each start end p w =
    thru-Each (Kept p.pos) p.state _ _
      (if-Each (Kept p.pos) (start == end) _ _
        (λ _.
          bind-Each IsTree _ (on_last_child p _) _
            (on_last_child-Each p (λ e. record e { term_end_char = start }) w (λ e. (refl, refl)))
            λ t wt. (wt, omega arith))
        (λ _. w))
      (bind-Each _ _ (add_child p.tree p.cur_node (terminal start end)) _
        (add_child-Each p.tree p.cur_node (terminal start end) w refl refl)
        λ t wt. (wt.0, omega arith))

pub Kept-mono : (i j : ℕ) (o : Outcome) → i ≤ j → Kept j o → Kept i o
Kept-mono i j (go p) h k = (k.0, omega (arith, k.1))
Kept-mono i j (fail e t) h k = k

pub later-Each : (i j : ℕ) (r : Run Outcome) → i ≤ j → Each (Kept j) r → Each (Kept i) r
later-Each i j r h k = map-Each (Kept j) (Kept i) r k (λ o. Kept-mono i j o h)
