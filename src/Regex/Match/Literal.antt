-- ===== src/Regex/Match/Literal.antt =====
-- src/Regex.cpp: one element of an expression without special characters, at its character.
use jhcommon.Prelude.{
  ℕ, zero, suc, ◌+◌, ◌-◌, ◌≤◌, ◌<◌, min, ◌≡◌, refl, sym, ◌∙◌, ap, Bool, true, false, ◌⊎◌, inl, inr,
  [], ◌∷◌, ◌++◌, length, drop, replicate, arith, ltb, ◌==◌, if◌then◌else◌, Bool-cases, length-drop,
  length-append, length-replicate,
}
use mathlib.Core.Path.{subst}
use jhcommon.Prelude.Text.{Text}
use jhcommon.Regex.{ok, Element, char_at, char_le, in_range}
use jhcommon.Regex.Siblings.{nil, Forward}
use jhcommon.Regex.Match.{process_terminal, try_from, in_sequence, process_element}
use jhcommon.Regex.Groups.{ParseData}
use jhcommon.Regex.Match.Terminal.{accepts, process_terminal-accepts}
use jhcommon.Regex.Match.Greedy.{drop-suc, run_length, first_char}
use jhcommon.Regex.Match.Taking.{try_from-takes, try_from-back}
use jhcommon.Regex.Match.Process.{Matcher, tries}
use jhcommon.Regex.Prepare.Plain.{plain_tree, literal, literals-at}
use jhcommon.Regex.Match.Ahead.{
  IsBytes, in_range-literal, more_than_one, exactly_one, replicate-snoc, drop-ahead, char_at-byte,
  After,
}

-- the element of the character `c` of the expression `w`, at the place k
module _ (s w : Text) (k c : ℕ) (cs : Text) (bytes : IsBytes s) (forward : Forward (plain_tree w))
    (here : drop k w ≡ c ∷ cs) (positive : 0 < c) (byte : c < 256) where
  abbrev el : Element
  el = literal (suc (1 + k)) c cs

  literal-Matcher : Matcher (plain_tree w) (suc k) el []
  unfolding in_sequence accepts in_range char_le
  literal-Matcher = record {
    forward = forward;
    at = literals-at w 1 k c cs here;
    children = nil;
    sequence = refl;
    kind = refl;
    stops = ground arith;
  }

  abbrev is_c : ℕ → Bool
  is_c x = x == c

  literal-test :
      (i x : ℕ) → char_at s i ≡ ok x → process_terminal s (plain_tree w) (suc k) i ≡ ok (x == c)
  unfolding accepts
  literal-test i x r =
      process_terminal-accepts s (plain_tree w) (suc k) i x el [] forward
        (literals-at w 1 k c cs here) nil r
      ∙ ap ok (in_range-literal (suc (1 + k)) c x cs byte (char_at-byte s i x bytes r))

  -- What the element takes where its character is next: that one, or two of them, and then it may
  -- go back to the second one.
  abbrev Took : ParseData → ParseData → Text → Type 0
  Took d g zs =
      (g.tree ≡ d.tree)
      × (g.groups ≡ d.groups)
      × (((zs2 : Text) × (zs ≡ c ∷ zs2)
            × (g.cur_pos ≡ d.cur_pos + 2)
            × (g.backtrack_pos ≡ d.cur_pos + 1))
          ⊎ ((g.cur_pos ≡ d.cur_pos + 1) × (g.backtrack_pos ≡ d.backtrack_pos)))

  run_self : (zs : Text) → run_length is_c (c ∷ zs) ≡ suc (run_length is_c zs)
  run_self zs = ground arith

  took :
      (d g : ParseData) (zs : Text)
      → drop d.cur_pos s ≡ c ∷ zs
      → g.tree ≡ d.tree
      → g.groups ≡ d.groups
      → g.cur_pos ≡ d.cur_pos + min 2 (run_length is_c (drop d.cur_pos s))
      → g.backtrack_pos ≡ (
          if ltb (min 1 (run_length is_c (drop d.cur_pos s))) (run_length is_c (drop d.cur_pos s))
          then d.cur_pos + 1
          else d.backtrack_pos)
      → Took d g zs
  took d g [] dr a b p q =
      let r = ap (run_length is_c) dr ∙ run_self [] in
      (a, b, inr (omega (arith, p, r), q ∙ exactly_one _ _ _ r))
  took d g (x ∷ xs) dr a b p q =
      let r = ap (run_length is_c) dr ∙ run_self (x ∷ xs) in
      let p1 = p ∙ ap (λ n. d.cur_pos + min 2 n) r in
      let q1 = q ∙ ap (λ n. if ltb (min 1 n) n then d.cur_pos + 1 else d.backtrack_pos) r in
      elim (Bool-cases (x == c)) [
        | inl e ↦
            let xc : x ≡ c = ground arith in
            let one : run_length is_c (x ∷ xs) ≡ suc (run_length is_c xs) = rw e refl in
            (
              a,
              b,
              inl (
                xs,
                ap (λ y. y ∷ xs) xc,
                omega (arith, p1, one),
                q1
                    ∙ more_than_one (suc (run_length is_c (x ∷ xs))) (d.cur_pos + 1) d.backtrack_pos
                        (omega (arith, one)),
              ),
            )
        | inr e ↦
            let miss : run_length is_c (x ∷ xs) ≡ 0 = rw e refl in
            (a, b, inr (omega (arith, p1, miss), q1 ∙ exactly_one _ _ _ (ap suc miss)))
      ]

  take_here :
      (fuel start : ℕ) (d : ParseData) (zs : Text)
      → d.tree ≡ plain_tree w
      → d.cur_pos ≤ length s
      → drop d.cur_pos s ≡ c ∷ zs
      → (g : ParseData) × (try_from (suc fuel) s (suc k) start d ≡ ok (true, g)) × Took d g zs
  take_here fuel start d zs dt h dr =
      let r = ap (run_length is_c) dr ∙ run_self zs in
      let stops : (0 == c) ≡ false = ground arith in
      let (g, e, p, b, a, q) =
        try_from-takes s (plain_tree w) (suc k) el is_c (literals-at w 1 k c cs here) literal-test
          stops fuel start d dt h (omega (arith, r)) in
      (g, e, took d g zs dr a b p q)

  inside :
      (m : ℕ) (z : Text) → k < length s → drop (suc k) s ≡ replicate m c ++ z → suc k + m ≤ length s
  inside m z l e =
      let n = sym (length-drop (suc k) s) ∙ ap length e in
      omega (arith, n, length-append (replicate m c) z, length-replicate m c)

  finish :
      (d g : ParseData) (m : ℕ) (zs : Text)
      → Took d g zs
      → d.tree ≡ plain_tree w
      → d.groups ≡ []
      → d.cur_pos ≡ k + m
      → k < length s
      → drop (suc k) s ≡ replicate m c ++ zs
      → (0 < m → d.backtrack_pos < suc d.cur_pos)
      → After s w k c g
  finish d g m zs (a, b, inl (zs2, e, p, q)) dt dg dp l dr back =
      let dr2 = dr ∙ ap (λ y. replicate m c ++ y) e ∙ replicate-snoc m c zs2 in
      let ins = inside (suc m) zs2 l dr2 in
      (a ∙ dt, b ∙ dg, (suc m, zs2, omega arith, omega arith, dr2, λ _. omega arith))
  finish d g m zs (a, b, inr (p, q)) dt dg dp l dr back =
      let ins = inside m zs l dr in
      (a ∙ dt, b ∙ dg, (m, zs, omega arith, omega arith, dr, λ h. let r = back h in omega arith))

  matcher : (d : ParseData) → d.tree ≡ plain_tree w → Matcher d.tree (suc k) el []
  matcher d dt = subst (λ t. Matcher t (suc k) el []) (sym dt) literal-Matcher

  -- The element matches where the string goes on with its character; `m` of them may be behind the
  -- position already, and then it goes back by one if no further one follows.
  at_once :
      (fuel m : ℕ) (d : ParseData) (zs : Text)
      → d.tree ≡ plain_tree w
      → d.groups ≡ []
      → d.cur_pos ≡ k + m
      → d.cur_pos ≤ length s
      → k < length s
      → drop d.cur_pos s ≡ c ∷ zs
      → drop (suc k) s ≡ replicate m c ++ zs
      → (0 < m → d.backtrack_pos < d.cur_pos)
      → (g : ParseData) × (process_element (suc fuel) s (suc k) d ≡ ok (true, g)) × After s w k c g
  at_once fuel m d zs dt dg dp ins l dr dr2 back =
      let (g, e, t) = take_here d.cur_pos d.cur_pos d zs dt ins dr in
      (
        g,
        tries s (suc k) fuel el [] d (matcher d dt) ins ∙ e,
        finish d g m zs t dt dg dp l dr2 (λ h. let r = back h in omega arith),
      )

  going_back :
      (fuel m : ℕ) (d : ParseData) (z : Text)
      → d.tree ≡ plain_tree w
      → d.groups ≡ []
      → d.cur_pos ≡ k + suc m
      → d.cur_pos ≤ length s
      → k < length s
      → drop k s ≡ replicate (suc m) c ++ z
      → run_length is_c z ≡ 0
      → is_c (first_char z) ≡ false
      → d.backtrack_pos < d.cur_pos
      → (g : ParseData) × (process_element (suc fuel) s (suc k) d ≡ ok (true, g)) × After s w k c g
  going_back fuel m d z dt dg dp ins l dr none_here miss back =
      let at = ap (λ n. drop n s) dp ∙ drop-ahead s k (suc m) c z dr in
      let run = ap (run_length is_c) at ∙ none_here in
      let n : min 1 (run_length is_c (drop d.cur_pos s)) ≡ 0 = omega (arith, run) in
      let more =
        ap (λ j. is_c (first_char (drop j (drop d.cur_pos s)))) n
        ∙ ap (λ y. is_c (first_char y)) at
        ∙ miss in
      let stops : (0 == c) ≡ false = ground arith in
      let step =
        try_from-back s (plain_tree w) (suc k) el is_c (literals-at w 1 k c cs here) literal-test
          stops d.cur_pos d.cur_pos d dt ins (omega (arith, n)) more back dg in
      let before : d.cur_pos - 1 ≡ k + m = omega arith in
      let d1 = record d {
        cur_pos = d.cur_pos - 1;
        groups = [];
        match_count = 0 + min 1 (run_length is_c (drop d.cur_pos s));
      } in
      let dr1 =
        ap (λ n. drop n s) before ∙ drop-ahead s k m c (c ∷ z) (dr ∙ sym (replicate-snoc m c z)) in
      let (g, e, t) = take_here (k + m) (d.cur_pos - 1) d1 z dt (omega arith) dr1 in
      let fuel_eq : d.cur_pos ≡ suc (k + m) = omega arith in
      (
        g,
        tries s (suc k) fuel el [] d (matcher d dt) ins
            ∙ step
            ∙ ap (λ f. try_from f s (suc k) (d.cur_pos - 1) d1) fuel_eq
            ∙ e,
        finish d1 g m z t dt refl before l ((drop-suc s k c (replicate m c ++ z) dr).0)
            (λ h. omega arith),
      )

  pub literal_step :
      (fuel m : ℕ) (d : ParseData) (y z : Text)
      → d.tree ≡ plain_tree w
      → d.groups ≡ []
      → d.cur_pos ≡ k + m
      → d.cur_pos ≤ length s
      → drop k s ≡ c ∷ y
      → drop k s ≡ replicate m c ++ z
      → (0 < m → d.backtrack_pos < d.cur_pos)
      → (g : ParseData) × (process_element (suc fuel) s (suc k) d ≡ ok (true, g)) × After s w k c g
  literal_step fuel zero d y z dt dg dp ins dy dr back =
      let (dy2, l) = drop-suc s k c y dy in
      let dk : d.cur_pos ≡ k = omega arith in
      at_once fuel 0 d y dt dg dp ins l (ap (λ n. drop n s) dk ∙ dy) dy2 back
  literal_step fuel (suc m) d y [] dt dg dp ins dy dr back =
      going_back fuel m d [] dt dg dp ins ((drop-suc s k c y dy).1) dr refl (ground arith)
        (back (omega arith))
  literal_step fuel (suc m) d y (x ∷ xs) dt dg dp ins dy dr back =
      let l = (drop-suc s k c y dy).1 in
      elim (Bool-cases (x == c)) [
        | inl e ↦
            let xc : x ≡ c = ground arith in
            let dz = dr ∙ ap (λ y. replicate (suc m) c ++ (y ∷ xs)) xc in
            at_once fuel (suc m) d xs dt dg dp ins l
              (ap (λ n. drop n s) dp ∙ drop-ahead s k (suc m) c (c ∷ xs) dz)
              ((drop-suc s k c (replicate m c ++ (c ∷ xs)) dz).0 ∙ replicate-snoc m c xs) back
        | inr e ↦ going_back fuel m d (x ∷ xs) dt dg dp ins l dr (rw e refl) e (back (omega arith))
      ]
