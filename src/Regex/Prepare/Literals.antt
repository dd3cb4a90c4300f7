-- ===== src/Regex/Prepare/Literals.antt =====
-- src/Regex.cpp: `prepare` of an expression without special characters.
use jhcommon.Prelude.{
  ℕ, suc, ◌+◌, ◌<◌, ◌≡◌, refl, sym, ◌∙◌, ap, true, false, none, some, [], ◌∷◌, ◌++◌, length, arith,
  ltb, All, length-append, append_assoc, append-nil,
}
use jhcommon.Prelude.Text.{Text}
use jhcommon.Regex.{
  ok, type_sequence, type_unknown, Element, element, Elements, elem_at, update, char_at,
  last_sibling, insert_child, add_child,
}
use jhcommon.Regex.Prep.{in_unknown, Prep, go, terminal, add_terminal}
use jhcommon.Regex.Prepare.{take_char, prepare_from, prepare}
use jhcommon.Regex.Prepare.Plain.{
  literals, plain_tree, is_plain, take_char-plain, length-literals, last_sibling-literals,
  update-cons, update-literals,
}

update-last :
    (t : Elements) (x : Element) (f : Element → Element)
    → update (t ++ (x ∷ [])) (length t) f ≡ ok (t ++ (f x ∷ []))
update-last [] x f = refl
update-last (y ∷ t) x f =
    update-cons y (t ++ (x ∷ [])) (t ++ (f x ∷ [])) (length t) f (update-last t x f)

insert_child-goes :
    (t u v : Elements) (this b c l : ℕ) (x : Element)
    → update t b (λ x. record x { parent = some this; next = none }) ≡ ok u
    → elem_at u this ≡ ok x
    → x.child ≡ some c
    → last_sibling (length u) u c ≡ ok l
    → update u l (λ x. record x { next = some b }) ≡ ok v
    → insert_child t this b ≡ ok v
unfolding insert_child
insert_child-goes t u v this b c l x e1 e2 e3 e4 e5 = simp (e1, e2, e3, e4, e5) refl

abbrev leaf : ℕ → Element
leaf d = record (terminal d d) { parent = some 0 }

add_child-plain :
    (s : Text) (d : ℕ) → add_child (plain_tree s) 0 (terminal d d) ≡ ok (plain_tree (s ++ (d ∷ [])))
unfolding add_child insert_child
add_child-plain [] d = refl
add_child-plain (c ∷ cs) d =
    let t = plain_tree (c ∷ cs) in
    let u = t ++ (leaf d ∷ []) in
    let n : length t ≡ suc (1 + length cs) = omega (arith, length-literals 1 (c ∷ cs)) in
    let m : length cs < length u = omega (arith, length-append t (leaf d ∷ []), n) in
    insert_child-goes (t ++ (terminal d d ∷ [])) u (plain_tree ((c ∷ cs) ++ (d ∷ []))) 0 (length t)
      1 (suc (length cs)) (record (element type_sequence) { child = some 1 })
      (update-last t (terminal d d) _) refl refl
      (last_sibling-literals (c ∷ cs) (leaf d) cs (length u) 0 c refl m ∙ ap ok (omega arith))
      (rw n (
        update-cons (record (element type_sequence) { child = some 1 })
          (literals 1 (c ∷ cs) ++ (leaf d ∷ [])) (literals 1 (c ∷ (cs ++ (d ∷ [])))) (length cs)
          (λ x. record x { next = some (suc (1 + length cs)) }) (update-literals cs 1 c d)))

char_at-append : (done : Text) (c : ℕ) (cs : Text) → char_at (done ++ (c ∷ cs)) (length done) ≡ ok c
char_at-append [] c cs = refl
char_at-append (d ∷ ds) c cs = char_at-append ds c cs

abbrev pub at_plain : Text → Prep
at_plain done = record {
  tree = plain_tree done;
  cur_node = 0;
  state = in_unknown;
  in_group = 0;
  pos = length done;
}

add_terminal-plain :
    (done : Text) (c : ℕ)
    → add_terminal c c (at_plain done)
      ≡ ok (go (record (at_plain done) { tree = plain_tree (done ++ (c ∷ [])) }))
unfolding add_terminal
add_terminal-plain done c = rw (add_child-plain done c) refl

prepare_from-goes :
    (fuel c : ℕ) (s : Text) (p q : Prep)
    → ltb p.pos (length s) ≡ true
    → char_at s p.pos ≡ ok c
    → take_char s c p ≡ ok (go q)
    → prepare_from (suc fuel) s p ≡ prepare_from fuel s (record q { pos = suc q.pos })
unfolding prepare_from
prepare_from-goes fuel c s p q l r t = simp (l, r, t) refl

prepare_from-done : (s : Text) → prepare_from 0 s (at_plain s) ≡ ok (go (at_plain s))
unfolding prepare_from
prepare_from-done s = let l : ltb (length s) (length s) ≡ false = ground arith in rw l refl

at_plain_next :
    (done : Text) (c : ℕ)
    → record (at_plain done) { tree = plain_tree (done ++ (c ∷ [])); pos = suc (length done) }
      ≡ at_plain (done ++ (c ∷ []))
at_plain_next done c =
    let n : suc (length done) ≡ length (done ++ (c ∷ [])) =
      omega (arith, length-append done (c ∷ [])) in
    ap (λ k. record (at_plain (done ++ (c ∷ []))) { pos = k }) n

prepare_from-plain :
    (todo done : Text)
    → All (λ c. is_plain c ≡ true) todo
    → prepare_from (length todo) (done ++ todo) (at_plain done) ≡ ok (go (at_plain (done ++ todo)))
prepare_from-plain [] done h = rw (append-nil done) (prepare_from-done done)
prepare_from-plain (c ∷ cs) done (h, hs) =
    let l : ltb (length done) (length (done ++ (c ∷ cs))) ≡ true =
      ground (arith, length-append done (c ∷ cs)) in
    let split = append_assoc done (c ∷ []) cs in
    prepare_from-goes (length cs) c (done ++ (c ∷ cs)) (at_plain done) _ l
      (char_at-append done c cs)
      (take_char-plain (done ++ (c ∷ cs)) c (at_plain done) h ∙ add_terminal-plain done c)
    ∙ ap (prepare_from (length cs) (done ++ (c ∷ cs))) (at_plain_next done c)
    ∙ ap (λ s. prepare_from (length cs) s (at_plain (done ++ (c ∷ [])))) (sym split)
    ∙ prepare_from-plain cs (done ++ (c ∷ [])) hs
    ∙ ap (λ s. ok (go (at_plain s))) split

-- An expression of plain characters is prepared to one terminal for each of them, in order, below
-- the root.
pub prepare-plain :
    (s : Text)
    → All (λ c. is_plain c ≡ true) s
    → prepare s (element type_unknown ∷ []) ≡ ok (go (at_plain s))
unfolding prepare
prepare-plain s h = prepare_from-plain s [] h
