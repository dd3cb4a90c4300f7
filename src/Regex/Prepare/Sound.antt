-- ===== src/Regex/Prepare/Sound.antt =====
-- src/Regex.cpp: `prepare` as a whole.
use jhcommon.Prelude.{
  ℕ, zero, suc, ap, sym, get_elem?, ◌+◌, ◌≤◌, ◌≡◌, refl, none, some, [], ◌∷◌, length, arith, tests,
  ltb, ◌==◌,
}
use jhcommon.Prelude.Text.{Text}
use jhcommon.Regex.{
  Run, ok, undefined, out_of_fuel, type_sequence, type_unknown, element, Element, Elements, update,
  char_at,
}
use jhcommon.Regex.Tree.{Each, bind-Each, IsTree}
use jhcommon.Regex.Prep.{in_unknown, Prep, Outcome, go, fail, on_go}
use jhcommon.Regex.Prepare.{take_char, prepare_from, prepare}
use jhcommon.Regex.Range.{bare_star, bare_plus, bare_question}
use jhcommon.Regex.Prepare.Cases.{Kept, if-Each, update-IsTree, char_at-Ends, add_terminal-Each}
use jhcommon.Regex.Prepare.Descent.{
  set_repeat-Each, open_class-Each, close_class-Each, class_range-Each, open_group-Each,
  next_alternative-Each, close_group-Each,
}
use jhcommon.Regex.Prepare.Braces.{take_escape-Each, set_range-Each}

take_char-Each : (s : Text) (c : ℕ) (p : Prep) → IsTree p.tree → Each (Kept p.pos) (take_char s c p)
unfolding take_char
take_char-Each s c p w =
    let k = Kept p.pos in
    if-Each k (c == 92) _ _ (λ _. take_escape-Each s p w)
      λ _.
        if-Each k (c == 46) _ _ (λ _. add_terminal-Each 0 127 p w)
          λ _.
            if-Each k (c == 42) _ _ (λ _. set_repeat-Each bare_star 0 none p w)
              λ _.
                if-Each k (c == 43) _ _ (λ _. set_repeat-Each bare_plus 1 none p w)
                  λ _.
                    if-Each k (c == 63) _ _ (λ _. set_repeat-Each bare_question 0 (some 1) p w)
                      λ _.
                        if-Each k (c == 123) _ _ (λ _. set_range-Each s p w)
                          λ _.
                            if-Each k (c == 91) _ _ (λ _. open_class-Each s p w)
                              λ _.
                                if-Each k (c == 93) _ _ (λ _. close_class-Each p w)
                                  λ _.
                                    if-Each k (c == 45) _ _ (λ _. class_range-Each p w)
                                      λ _.
                                        if-Each k (c == 40) _ _ (λ _. open_group-Each p w)
                                          λ _.
                                            if-Each k (c == 124) _ _
                                              (λ _. next_alternative-Each p w)
                                              λ _.
                                                if-Each k (c == 41) _ _ (λ _. close_group-Each p w)
                                                  λ _. add_terminal-Each c c p w

on_go-then :
    (s : Text) (i : ℕ) (r : Run Outcome) (f : Prep → Run Outcome)
    → Each (Kept i) r
    → ((p : Prep) → IsTree p.tree → i ≤ p.pos → Each (Kept (length s)) (f p))
    → Each (Kept (length s)) (on_go r f)
on_go-then s i (ok (go p)) f h k = k p (h.0) (h.1)
on_go-then s i (ok (fail e t)) f h k = h
on_go-then s i undefined f h k = tt
on_go-then s i out_of_fuel f h k = absurd h

prepare_from-Each :
    (fuel : ℕ) (s : Text) (p : Prep)
    → IsTree p.tree
    → length s ≤ p.pos + fuel
    → Each (Kept (length s)) (prepare_from fuel s p)
unfolding prepare_from
prepare_from-Each zero s p w f =
    if-Each (Kept (length s)) (ltb p.pos (length s)) _ _ (λ b. absurd (omega (tests, b)))
      λ b. (w, omega arith)
prepare_from-Each (suc fuel) s p w f =
    if-Each (Kept (length s)) (ltb p.pos (length s)) _ _
      (λ b.
        bind-Each (λ c. Unit {0}) (Kept (length s)) (char_at s p.pos) _ (char_at-Ends s p.pos)
          λ c _. on_go-then s p.pos (take_char s c p) _ (take_char-Each s c p w) λ q wq hq.
            prepare_from-Each fuel s (record q { pos = suc q.pos }) wq (omega (arith, hq)))
      (λ b. (w, ground arith))

-- With its length as fuel, `prepare` of no expression runs out of rounds, from any tree whose child
-- links go to elements of the tree and whose sibling links go to later elements of it. It ends, or it
-- does what is undefined, of which nothing more is said: it goes through NULL, as for an expression
-- that starts with '*', reads outside of the tree or behind the expression, fails an assert or
-- overflows the bounds of a repetition. Where it ends, with or without an error, the links are again
-- of that kind, and without an error it has read the whole expression.
pub prepare-IsTree : (s : Text) (t : Elements) → IsTree t → Each (Kept (length s)) (prepare s t)
unfolding prepare
prepare-IsTree s t w =
    bind-Each IsTree (Kept (length s)) (update t 0 _) _
      (update-IsTree t 0 (λ e. record e { kind = type_sequence }) w (λ e. (refl, refl)))
      λ u wu.
        prepare_from-Each (length s) s
          (record { tree = u; cur_node = 0; state = in_unknown; in_group = 0; pos = 0 }) wu
          (omega arith)

root_next : (e x : Element) → some x ≡ some e → e.next ≡ x.next
root_next e x g = let q : x ≡ e = cc in ap (λ y. y.next) (sym q)

new_next :
    (k n : ℕ) (e : Element) → get_elem? (element type_unknown ∷ []) k ≡ some e → e.next ≡ some n → ⊥
new_next zero n e g q = let z : e.next ≡ none = root_next e _ g in cc
new_next (suc k) n e g q = cc

new_child :
    (k n : ℕ) (e : Element)
    → get_elem? (element type_unknown ∷ []) k ≡ some e
    → e.child ≡ some n
    → ⊥
new_child zero n e g q = let z : element type_unknown ≡ e = cc in let y = ap (λ y. y.child) z in cc
new_child (suc k) n e g q = cc

-- the tree of a new object
pub new-IsTree : IsTree (element type_unknown ∷ [])
new-IsTree = record {
  nexts = λ k n e g q. absurd (new_next k n e g q);
  children = λ k n e g q. absurd (new_child k n e g q);
}
