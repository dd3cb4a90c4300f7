-- ===== src/Regex/Prepare/Braces.antt =====
-- src/Regex.cpp: the escapes and the ranges of repetitions keep the links of the tree.
use jhcommon.Prelude.{
  ℕ, zero, suc, ◌+◌, ◌-◌, ◌≤◌, ◌<◌, ◌≡◌, ◌≢◌, refl, Bool, true, false, ◌&&◌, ◌||◌, some, [], ◌∷◌,
  length, arith, leb, ◌==◌,
}
use jhcommon.Prelude.Text.{Text}
use jhcommon.Regex.{ok, undefined, ◌>>=◌, Element, Elements, elem_at, update, char_at}
use jhcommon.Regex.Tree.{Each, bind-Each, map-Each, elem_at-Each, IsTree}
use jhcommon.Regex.Prep.{Prep, go, fail, is_in_class}
use jhcommon.Regex.Prepare.{set_range, escape, take_escape, word_ranges, space_ranges, digit_ranges}
use jhcommon.Regex.Range.{closed, broken, add_digit, in_int, no_overflow, Range, range_from}
use jhcommon.Regex.Prepare.Cases.{
  Kept, if-Each, later-Each, update-IsTree, char_at-Ends, add_terminal-Each,
}
use jhcommon.Regex.Prepare.Descent.{class_escape-Each, bounded_child-Each}

escape-Each : (c : ℕ) (p : Prep) → IsTree p.tree → Each (Kept p.pos) (escape c p)
unfolding escape
escape-Each c p w =
    let k = Kept p.pos in
    if-Each k (c == 119) _ _ (λ _. class_escape-Each false word_ranges p w)
      λ _.
        if-Each k (c == 87) _ _ (λ _. class_escape-Each true word_ranges p w)
          λ _.
            if-Each k (c == 115) _ _ (λ _. class_escape-Each false space_ranges p w)
              λ _.
                if-Each k (c == 83) _ _ (λ _. class_escape-Each true space_ranges p w)
                  λ _.
                    if-Each k (c == 100) _ _ (λ _. class_escape-Each false digit_ranges p w)
                      λ _.
                        if-Each k (c == 68) _ _ (λ _. class_escape-Each true digit_ranges p w)
                          λ _.
                            if-Each k (c == 116) _ _ (λ _. add_terminal-Each 9 9 p w)
                              λ _.
                                if-Each k (c == 110) _ _ (λ _. add_terminal-Each 10 10 p w)
                                  λ _.
                                    if-Each k (c == 114) _ _ (λ _. add_terminal-Each 13 13 p w)
                                      λ _.
                                        if-Each k (c == 102) _ _ (λ _. add_terminal-Each 12 12 p w)
                                          λ _.
                                            if-Each k (c == 48 || c == 120) _ _
                                              (λ _. (w, omega arith)) λ _. add_terminal-Each c c p w

pub take_escape-Each : (s : Text) (p : Prep) → IsTree p.tree → Each (Kept p.pos) (take_escape s p)
unfolding take_escape
take_escape-Each s p w =
    bind-Each (λ c. Unit {0}) (Kept p.pos) (char_at s (suc p.pos)) _ (char_at-Ends s (suc p.pos))
      λ c _.
        later-Each p.pos (suc p.pos) _ (omega arith)
          (escape-Each c (record p { pos = suc p.pos }) w)

-- what is read is not behind the terminating NUL
char_at-Within :
    (s : Text) (i : ℕ) → Each (λ c. (i ≤ length s) × ((c ≢ 0) → i < length s)) (char_at s i)
char_at-Within [] zero = (omega arith, λ n. absurd (n refl))
char_at-Within [] (suc i) = tt
char_at-Within (c ∷ s) zero = (omega arith, λ n. omega arith)
char_at-Within (c ∷ s) (suc i) =
    map-Each _ _ (char_at s i) (char_at-Within s i)
      λ c h. (omega (arith, h.0), λ n. let r = (h.1) n in omega arith)

Ranged : ℕ → Range × Elements → Type 0
Ranged i (closed j m, t) = IsTree t × (i ≤ j)
Ranged i (broken e, t) = IsTree t

Ranged-suc : (i : ℕ) (r : Range × Elements) → Ranged (suc i) r → Ranged i r
unfolding Ranged
Ranged-suc i (closed j m, t) h = (h.0, omega (arith, h.1))
Ranged-suc i (broken e, t) h = h

add_digit-links :
    (m : Bool) (d : ℕ) (e : Element)
    → ((add_digit m d e).next ≡ e.next) × ((add_digit m d e).child ≡ e.child)
add_digit-links true d e = (refl, refl)
add_digit-links false d e = (refl, refl)

no_overflow-Each : (l : ℕ) (t : Elements) → IsTree t → Each IsTree (no_overflow l t)
unfolding no_overflow
no_overflow-Each l t w =
    bind-Each _ IsTree (elem_at t l) _ (elem_at-Each t l)
      λ e g. if-Each IsTree (in_int e) (ok t) undefined (λ _. w) (λ _. tt)

-- the loop of a range ends at the brace, or at the terminating NUL
range_from-Each :
    (fuel : ℕ) (s : Text) (i : ℕ) (m : Bool) (l : ℕ) (t : Elements)
    → IsTree t
    → 0 < fuel
    → length s < i + fuel
    → Each (Ranged i) (range_from fuel s i m l t)
unfolding range_from Ranged
range_from-Each zero s i m l t w z f = absurd (omega arith)
range_from-Each (suc fuel) s i m l t w z f =
    bind-Each _ (Ranged i) (char_at s i) _ (char_at-Within s i) λ c (le, lt).
      if-Each (Ranged i) (c == 125) _ _ (λ _. (w, omega arith))
        λ _.
          if-Each (Ranged i) (c == 44) _ _
            (λ q.
              if-Each (Ranged i) m _ _ (λ _. w)
                λ _.
                  let h = lt (λ n. ground arith) in
                  map-Each (Ranged (suc i)) (Ranged i) _
                    (range_from-Each fuel s (suc i) true l t w (omega arith) (omega arith))
                    (Ranged-suc i))
            λ _.
              if-Each (Ranged i) (leb 48 c && leb c 57) _ _
                (λ q.
                  let h = lt (λ n. ground arith) in
                  bind-Each IsTree (Ranged i) _ _
                    (update-IsTree t l (add_digit m (c - 48)) w (add_digit-links m (c - 48)))
                    λ u wu.
                      bind-Each IsTree (Ranged i) (no_overflow l u) _ (no_overflow-Each l u wu)
                        λ v wv.
                          map-Each (Ranged (suc i)) (Ranged i) _
                            (range_from-Each fuel s (suc i) m l v wv (omega arith) (omega arith))
                            (Ranged-suc i))
                λ _. w

range_end-Each :
    (p : Prep) (l : ℕ) (r : Range) (t : Elements)
    → Ranged (suc p.pos) (r, t)
    → Each (Kept p.pos) (elim r [
      | broken e ↦ ok (fail e t)
      | closed i true ↦ ok (go (record p { tree = t; pos = i }))
      | closed i false ↦ do
        t ← update t l (λ e. record e { repeat_max = some e.repeat_min })
        ok (go (record p { tree = t; pos = i }))
    ])
unfolding Ranged
range_end-Each p l (broken e) t h = h
range_end-Each p l (closed i true) t h = (h.0, omega (arith, h.1))
range_end-Each p l (closed i false) t h =
    bind-Each IsTree (Kept p.pos) (update t l _) _
      (update-IsTree t l (λ e. record e { repeat_max = some e.repeat_min }) (h.0)
        (λ e. (refl, refl)))
      λ u wu. (wu, omega (arith, h.1))

pub set_range-Each : (s : Text) (p : Prep) → IsTree p.tree → Each (Kept p.pos) (set_range s p)
unfolding set_range
set_range-Each s p w =
    if-Each (Kept p.pos) (is_in_class p.state) _ _ (λ _. w)
      λ _.
        bounded_child-Each p _
          (λ l t. range_from (suc (length s)) s (suc p.pos) false l t >>= λ r. elim (r.0) [
            | broken e ↦ ok (fail e (r.1))
            | closed i true ↦ ok (go (record p { tree = r.1; pos = i }))
            | closed i false ↦ do
              t ← update (r.1) l (λ e. record e { repeat_max = some e.repeat_min })
              ok (go (record p { tree = t; pos = i }))
          ])
          w (λ e. (refl, refl))
          λ l t wt.
            bind-Each (Ranged (suc p.pos)) (Kept p.pos) _ _
              (range_from-Each (suc (length s)) s (suc p.pos) false l t wt (omega arith)
                (omega arith))
              λ r h. range_end-Each p l (r.0) (r.1) h
