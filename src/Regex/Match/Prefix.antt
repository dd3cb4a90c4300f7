-- ===== src/Regex/Match/Prefix.antt =====
-- src/Regex.cpp: an expression without special characters on a string that starts with it.
use jhcommon.Prelude.{
  ℕ, zero, suc, ◌+◌, ◌-◌, ◌≤◌, ◌<◌, ◌≡◌, refl, sym, ◌∙◌, ap, true, none, some, [], ◌∷◌, ◌++◌,
  length, drop, replicate, arith, All,
}
use mathlib.Core.Path.{subst}
use jhcommon.Prelude.Text.{Text}
use jhcommon.Regex.{ok, type_unknown, element}
use jhcommon.Regex.Siblings.{Forward}
use jhcommon.Regex.Tree.{Each}
use jhcommon.Regex.Match.{
  Regex, new_regex, state_prepared, state_parsed, process_element, next_node, climb, walk,
  prepare_regex, parse,
}
use jhcommon.Regex.Groups.{ParseData}
use jhcommon.Regex.Match.Greedy.{drop-suc}
use jhcommon.Regex.Match.Ahead.{IsBytes, After}
use jhcommon.Regex.Match.Literal.{literal_step}
use jhcommon.Regex.Prepare.Cases.{Kept}
use jhcommon.Regex.Prepare.Sound.{prepare-IsTree, new-IsTree}
use jhcommon.Regex.Prepare.Plain.{plain_tree, literals-at, is_plain}
use jhcommon.Regex.Prepare.Literals.{prepare-plain}

walk-goes :
    (fuel : ℕ) (s : Text) (top cur n : ℕ) (d g : ParseData)
    → process_element fuel s cur d ≡ ok (true, g)
    → next_node g.tree top cur ≡ ok (some n)
    → walk (suc fuel) s top cur d ≡ walk fuel s top n g
unfolding walk
walk-goes fuel s top cur n d g e q = simp (e, q) refl

walk-ends :
    (fuel : ℕ) (s : Text) (top cur : ℕ) (d g : ParseData)
    → process_element fuel s cur d ≡ ok (true, g)
    → next_node g.tree top cur ≡ ok none
    → walk (suc fuel) s top cur d ≡ ok (true, g)
unfolding walk
walk-ends fuel s top cur d g e q = simp (e, q) refl

-- behind a terminal comes the next one, or the end
next_node-literal :
    (w : Text) (k c d : ℕ) (ds : Text)
    → drop k w ≡ c ∷ (d ∷ ds)
    → next_node (plain_tree w) 0 (suc k) ≡ ok (some (suc (suc k)))
unfolding next_node
next_node-literal w k c d ds e =
    let n : suc (1 + k) ≡ suc (suc k) = omega arith in
    simp (literals-at w 1 k c (d ∷ ds) e) (ap (λ n. ok (some n)) n)

next_node-last :
    (w : Text) (k c : ℕ) → drop k w ≡ c ∷ [] → next_node (plain_tree w) 0 (suc k) ≡ ok none
unfolding next_node climb
next_node-last w k c e = simp (literals-at w 1 k c [] e) refl

-- the characters that are taken already are like the next one
same_char : (m a c : ℕ) (x y z : Text) → x ≡ c ∷ y → x ≡ replicate m a ++ z → x ≡ replicate m c ++ z
same_char zero a c x y z e q = q
same_char (suc m) a c x y z e q =
    let k = sym q ∙ e in let ac : a ≡ c = cc in q ∙ ap (λ b. replicate (suc m) b ++ z) ac

drop-prefix :
    (w z : Text) (k c : ℕ) (cs : Text) → drop k w ≡ c ∷ cs → drop k (w ++ z) ≡ c ∷ (cs ++ z)
drop-prefix [] z zero c cs e = absurd cc
drop-prefix [] z (suc k) c cs e = absurd cc
drop-prefix (x ∷ w) z zero c cs e = ap (λ y. y ++ z) e
drop-prefix (x ∷ w) z (suc k) c cs e = drop-prefix w z k c cs e

drop-All : (P : ℕ → Type 0) (w : Text) (k c : ℕ) (cs : Text) → All P w → drop k w ≡ c ∷ cs → P c
drop-All P [] zero c cs h e = absurd cc
drop-All P [] (suc k) c cs h e = absurd cc
drop-All P (x ∷ w) zero c cs h e = let xc : x ≡ c = cc in subst P xc (h.0)
drop-All P (x ∷ w) (suc k) c cs h e = drop-All P w k c cs (h.1) e

module _ (w z : Text) (bytes : IsBytes (w ++ z)) (own : All (λ c. (0 < c) × (c < 256)) w)
    (forward : Forward (plain_tree w)) where
  at_element :
      (cs : Text) (fuel k a c m : ℕ) (d : ParseData) (y : Text)
      → drop k w ≡ c ∷ cs
      → d.tree ≡ plain_tree w
      → d.groups ≡ []
      → d.cur_pos ≡ k + m
      → d.cur_pos ≤ length (w ++ z)
      → drop k (w ++ z) ≡ replicate m a ++ y
      → (0 < m → d.backtrack_pos < d.cur_pos)
      → (g : ParseData) × (process_element (suc fuel) (w ++ z) (suc k) d ≡ ok (true, g))
        × After (w ++ z) w k c g
  at_element cs fuel k a c m d y e dt dg dp ins dr back =
      let h = drop-All (λ c. (0 < c) × (c < 256)) w k c cs own e in
      let dc = drop-prefix w z k c cs e in
      literal_step (w ++ z) w k c cs bytes forward e (h.0) (h.1) fuel m d (cs ++ z) y dt dg dp ins
        dc (same_char m a c (drop k (w ++ z)) (cs ++ z) y dc dr) back

  walk-literals :
      (cs : Text) (fuel k a c m : ℕ) (d : ParseData) (y : Text)
      → drop k w ≡ c ∷ cs
      → length cs < fuel
      → d.tree ≡ plain_tree w
      → d.groups ≡ []
      → d.cur_pos ≡ k + m
      → d.cur_pos ≤ length (w ++ z)
      → drop k (w ++ z) ≡ replicate m a ++ y
      → (0 < m → d.backtrack_pos < d.cur_pos)
      → (g : ParseData) × (walk (suc fuel) (w ++ z) 0 (suc k) d ≡ ok (true, g))
  walk-literals cs zero k a c m d y e f dt dg dp ins dr back = absurd (omega arith)
  walk-literals [] (suc fuel) k a c m d y e f dt dg dp ins dr back =
      let (g, p, (gt, _, _)) = at_element [] fuel k a c m d y e dt dg dp ins dr back in
      (
        g,
        walk-ends (suc fuel) (w ++ z) 0 (suc k) d g p
            (ap (λ t. next_node t 0 (suc k)) gt ∙ next_node-last w k c e),
      )
  walk-literals (b ∷ bs) (suc fuel) k a c m d y e f dt dg dp ins dr back =
      let (g, p, (gt, gg, (n, y2, gp, gi, gr, gb))) =
        at_element (b ∷ bs) fuel k a c m d y e dt dg dp ins dr back in
      let (r, q) =
        walk-literals bs fuel (suc k) c b n g y2 ((drop-suc w k c (b ∷ bs) e).0) (omega arith) gt gg
          gp gi gr gb in
      (
        r,
        walk-goes (suc fuel) (w ++ z) 0 (suc k) (suc (suc k)) d g p
              (ap (λ t. next_node t 0 (suc k)) gt ∙ next_node-literal w k c b bs e)
            ∙ q,
      )

-- the state at the start, and the walk from the root
abbrev start : Text → ParseData
start w = record {
  tree = plain_tree w;
  groups = [];
  cur_pos = 0;
  backtrack_pos = 0;
  match_count = 0;
}

walk-root :
    (c : ℕ) (cs s : Text) (fuel : ℕ)
    → walk (suc (suc fuel)) s 0 0 (start (c ∷ cs)) ≡ walk (suc fuel) s 0 1 (start (c ∷ cs))
unfolding process_element next_node
walk-root c cs s fuel = walk-goes (suc fuel) s 0 0 1 (start (c ∷ cs)) (start (c ∷ cs)) refl refl

plain-Forward : (w : Text) → All (λ c. is_plain c ≡ true) w → Forward (plain_tree w)
plain-Forward w h =
    let kept =
      subst (Each (Kept (length w))) (prepare-plain w h)
        (prepare-IsTree w (element type_unknown ∷ []) new-IsTree) in
    (kept.0).nexts

abbrev prepared : Text → Regex
prepared w = record new_regex { state = state_prepared; root = plain_tree w }

prepared_plain :
    (w : Text) → All (λ c. is_plain c ≡ true) w → prepare_regex w new_regex ≡ ok (true, prepared w)
unfolding prepare_regex
prepared_plain w h = rw (prepare-plain w h) refl

parsed :
    (fuel : ℕ) (s w : Text) (g : ParseData)
    → walk fuel s 0 0 (start w) ≡ ok (true, g)
    → (r : Regex) × (parse fuel s (prepared w) ≡ ok (true, r))
unfolding parse
parsed fuel s w g e =
    (record (prepared w) { state = state_parsed; root = g.tree; groups = g.groups }, rw e refl)

-- An expression of plain characters, none of them NUL, matches every string of bytes that starts
-- with it: `prepare` succeeds, and with fuel for each character and three more `parse` is true.
pub parse-plain :
    (c : ℕ) (cs z : Text) (fuel : ℕ)
    → All (λ c. is_plain c ≡ true) (c ∷ cs)
    → All (λ c. (0 < c) × (c < 256)) (c ∷ cs)
    → IsBytes ((c ∷ cs) ++ z)
    → length (c ∷ cs) + 3 ≤ fuel
    → (r r2 : Regex) × (prepare_regex (c ∷ cs) new_regex ≡ ok (true, r))
      × (parse fuel ((c ∷ cs) ++ z) r ≡ ok (true, r2))
parse-plain c cs z fuel plain own bytes f =
    let w = c ∷ cs in
    let k = fuel - 2 in
    let e : fuel ≡ suc (suc k) = omega arith in
    let (g, q) =
      walk-literals w z bytes own (plain-Forward w plain) cs k 0 c c 0 (start w) (w ++ z) refl
        (omega arith) refl refl refl (omega arith) refl (λ h. absurd (omega arith)) in
    let run = ap (λ n. walk n (w ++ z) 0 0 (start w)) e ∙ walk-root c cs (w ++ z) k ∙ q in
    let (r2, p) = parsed fuel (w ++ z) w g run in (prepared w, r2, prepared_plain w plain, p)
