-- ===== src/Regex/Match/Greedy.antt =====
-- src/Regex.cpp: how much of the string a terminal or a class takes in `processElement`.
use jhcommon.Prelude.{
  ℕ, zero, suc, ◌+◌, ◌-◌, ◌≤◌, ◌<◌, min, ◌≡◌, refl, sym, ◌∙◌, ap, ap₂, add-zero, Bool, true, false,
  ◌&&◌, Option, none, some, [], ◌∷◌, length, drop, get_elem?, arith, if◌then◌else◌, Bool-cases, inl,
  inr,
}
use jhcommon.Prelude.Text.{Text}
use jhcommon.Regex.{Run, ok, Element, Elements, char_at}
use jhcommon.Regex.Match.{advance, below_max, process_terminal, repeat_while}
use jhcommon.Regex.Groups.{ParseData}

-- the character that is read where this is left of the string
abbrev pub first_char : Text → ℕ
first_char [] = 0
first_char (c ∷ cs) = c

-- how many characters from the start on are accepted
abbrev pub run_length : (ℕ → Bool) → Text → ℕ
run_length p [] = 0
run_length p (c ∷ cs) = if p c then suc (run_length p cs) else 0

-- what the inner loop takes of a run, when it took n before
abbrev pub taken : Option ℕ → ℕ → ℕ → ℕ
taken none n r = r
taken (some m) n r = min (m - n) r

abbrev pub moved : ℕ → ParseData → ParseData
moved n d = record d { cur_pos = d.cur_pos + n; match_count = d.match_count + n }

pub char_at-drop : (s : Text) (i : ℕ) → i ≤ length s → char_at s i ≡ ok (first_char (drop i s))
char_at-drop [] zero h = refl
char_at-drop [] (suc i) h = absurd (omega arith)
char_at-drop (c ∷ s) zero h = refl
char_at-drop (c ∷ s) (suc i) h = char_at-drop s i (omega arith)

pub drop-suc :
    (s : Text) (i c : ℕ) (cs : Text) → drop i s ≡ c ∷ cs → (drop (suc i) s ≡ cs) × (i < length s)
drop-suc [] zero c cs e = absurd cc
drop-suc [] (suc i) c cs e = absurd cc
drop-suc (x ∷ s) zero c cs e = (cc, omega arith)
drop-suc (x ∷ s) (suc i) c cs e = let (r, l) = drop-suc s i c cs e in (r, omega arith)

and_false : (b : Bool) → (b && false) ≡ false
and_false true = refl
and_false false = refl

-- nothing is taken of no run, and nothing when the maximum is reached or the first one differs
taken_none : (m : Option ℕ) (n : ℕ) → taken m n 0 ≡ 0
taken_none none n = refl
taken_none (some m) n = omega arith

taken_full :
    (m : Option ℕ) (n c : ℕ) (cs : Text) (p : ℕ → Bool)
    → (below_max m n && p c) ≡ false
    → taken m n (run_length p (c ∷ cs)) ≡ 0
taken_full none n c cs p b = ground (arith, b)
taken_full (some m) n c cs p b = ground (arith, b)

taken-suc :
    (m : Option ℕ) (n r : ℕ) → below_max m n ≡ true → taken m n (suc r) ≡ suc (taken m (suc n) r)
taken-suc none n r b = refl
taken-suc (some m) n r b = ground arith

abbrev pub found : Bool → ParseData → Run (Bool × ParseData)
found b d = ok (b, d)

moved_zero : (d : ParseData) → d ≡ moved 0 d
moved_zero d =
    ap₂ (λ a b. record d { cur_pos = a; match_count = b }) (sym (add-zero d.cur_pos))
      (sym (add-zero d.match_count))

moved-suc : (d : ParseData) (n : ℕ) → moved n (advance d) ≡ moved (suc n) d
moved-suc d n =
    let a : suc d.cur_pos + n ≡ d.cur_pos + suc n = omega arith in
    let b : suc d.match_count + n ≡ d.match_count + suc n = omega arith in
    ap₂ (λ a b. record d { cur_pos = a; match_count = b }) a b

stopped :
    (d : ParseData) (p : ℕ → Bool) (rest : Text) (n : ℕ)
    → n ≡ 0
    → found (p (first_char rest)) d ≡ found (p (first_char (drop n rest))) (moved n d)
stopped d p rest (suc n) e = absurd (omega arith)
stopped d p rest zero e = ap (found (p (first_char rest))) (moved_zero d)

stepped :
    (d : ParseData) (p : ℕ → Bool) (c : ℕ) (cs : Text) (n m : ℕ)
    → n ≡ suc m
    → found (p (first_char (drop m cs))) (moved m (advance d))
      ≡ found (p (first_char (drop n (c ∷ cs)))) (moved n d)
stepped d p c cs n m e = rw e (ap (found (p (first_char (drop m cs)))) (moved-suc d m))

run_length-suc :
    (p : ℕ → Bool) (c : ℕ) (cs : Text) → p c ≡ true → run_length p (c ∷ cs) ≡ suc (run_length p cs)
run_length-suc p c cs k = rw k refl

module _ (s : Text) (t : Elements) (cur : ℕ) (e : Element) (p : ℕ → Bool)
    (at : get_elem? t cur ≡ some e)
    (test : (i c : ℕ) → char_at s i ≡ ok c → process_terminal s t cur i ≡ ok (p c))
    (stops : p 0 ≡ false) where
  repeat_while-ends :
      (fuel : ℕ) (d : ParseData) (res : Bool)
      → d.tree ≡ t
      → (below_max e.repeat_max d.match_count && res) ≡ false
      → repeat_while (suc fuel) s cur d res ≡ ok (res, d)
  unfolding repeat_while
  repeat_while-ends fuel d res dt b = rw (dt, at, b) refl

  repeat_while-goes :
      (fuel : ℕ) (d : ParseData) (res next : Bool)
      → d.tree ≡ t
      → (below_max e.repeat_max d.match_count && res) ≡ true
      → process_terminal s t cur (suc d.cur_pos) ≡ ok next
      → repeat_while (suc fuel) s cur d res ≡ repeat_while fuel s cur (advance d) next
  unfolding repeat_while
  repeat_while-goes fuel d res next dt b r = rw (dt, at, b, r) refl

  pub repeat_while-run :
      (rest : Text) (fuel : ℕ) (d : ParseData)
      → d.tree ≡ t
      → drop d.cur_pos s ≡ rest
      → d.cur_pos ≤ length s
      → length rest < fuel
      → repeat_while fuel s cur d (p (first_char rest))
        ≡ found
            (p (first_char (drop (taken e.repeat_max d.match_count (run_length p rest)) rest)))
            (moved (taken e.repeat_max d.match_count (run_length p rest)) d)
  repeat_while-run rest zero d dt dr h f = absurd (omega arith)
  repeat_while-run [] (suc fuel) d dt dr h f =
      repeat_while-ends fuel d (p 0) dt
        (rw stops (and_false (below_max e.repeat_max d.match_count)))
      ∙ stopped d p [] (taken e.repeat_max d.match_count 0) (taken_none e.repeat_max d.match_count)
  repeat_while-run (c ∷ cs) (suc fuel) d dt dr h f =
      elim (Bool-cases (below_max e.repeat_max d.match_count && p c)) [
        | inr b ↦
            repeat_while-ends fuel d (p c) dt b
            ∙ stopped d p (c ∷ cs) _ (taken_full e.repeat_max d.match_count c cs p b)
        | inl b ↦
            let (dr1, lt) = drop-suc s d.cur_pos c cs dr in
            let k : p c ≡ true = ground arith in
            let rd = char_at-drop s (suc d.cur_pos) (omega arith) in
            let go =
              repeat_while-goes fuel d (p c) (p (first_char cs)) dt b
                (test (suc d.cur_pos) (first_char cs) (rd ∙ ap (λ x. ok (first_char x)) dr1)) in
            go
            ∙ repeat_while-run cs fuel (advance d) dt dr1 (omega arith) (omega arith)
            ∙ stepped d p c cs _ _ (
                ap (taken e.repeat_max d.match_count) (run_length-suc p c cs k)
                ∙ taken-suc e.repeat_max d.match_count (run_length p cs) (ground arith))
      ]
