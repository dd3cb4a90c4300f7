-- ===== src/Regex/Match/Ahead.antt =====
-- src/Regex.cpp: the characters of a string that an element took too many.
use jhcommon.Prelude.{
  ℕ, zero, suc, ◌+◌, ◌≤◌, ◌<◌, min, ◌≡◌, refl, sym, ◌∙◌, ap, [], ◌∷◌, ◌++◌, length, drop, replicate,
  arith, ltb, ◌==◌, if◌then◌else◌, All, drop-drop,
}
use jhcommon.Prelude.Text.{Text}
use jhcommon.Regex.{ok, char_at, char_le, in_range}
use jhcommon.Regex.Groups.{ParseData}
use jhcommon.Regex.Prepare.Plain.{plain_tree, literal}

-- every character is a byte
abbrev pub IsBytes : Text → Type 0
IsBytes s = All (λ c. c < 256) s

pub in_range-literal :
    (i c x : ℕ) (cs : Text) → c < 256 → x < 256 → in_range (literal i c cs) x ≡ (x == c)
unfolding in_range char_le
in_range-literal i c x cs h k = ground arith

pub more_than_one : (n u v : ℕ) → 2 ≤ n → (if ltb (min 1 n) n then u else v) ≡ u
more_than_one n u v h = ground arith

pub exactly_one : (n u v : ℕ) → n ≡ 1 → (if ltb (min 1 n) n then u else v) ≡ v
exactly_one n u v h = ground arith

pub replicate-snoc : (m c : ℕ) (z : Text) → replicate m c ++ (c ∷ z) ≡ replicate (suc m) c ++ z
replicate-snoc zero c z = refl
replicate-snoc (suc m) c z = ap (◌∷◌ c) (replicate-snoc m c z)

pub drop-replicate : (m c : ℕ) (z : Text) → drop m (replicate m c ++ z) ≡ z
drop-replicate zero c z = refl
drop-replicate (suc m) c z = drop-replicate m c z

pub drop-ahead :
    (s : Text) (k m c : ℕ) (y : Text) → drop k s ≡ replicate m c ++ y → drop (k + m) s ≡ y
drop-ahead s k m c y e = sym (drop-drop m k s) ∙ ap (drop m) e ∙ drop-replicate m c y

pub char_at-byte : (s : Text) (i x : ℕ) → IsBytes s → char_at s i ≡ ok x → x < 256
char_at-byte [] zero x b e = let z : 0 ≡ x = cc in omega arith
char_at-byte [] (suc i) x b e = absurd cc
char_at-byte (c ∷ s) zero x (h, b) e = let z : c ≡ x = cc in omega arith
char_at-byte (c ∷ s) (suc i) x (h, b) e = char_at-byte s i x b e

-- the state behind the element of `c`: m characters like it were taken too many
abbrev pub After : Text → Text → ℕ → ℕ → ParseData → Type 0
After s w k c g =
    (g.tree ≡ plain_tree w)
    × (g.groups ≡ [])
    × ((m : ℕ) × (z : Text) × (g.cur_pos ≡ suc k + m)
        × (g.cur_pos ≤ length s)
        × (drop (suc k) s ≡ replicate m c ++ z)
        × (0 < m → g.backtrack_pos < g.cur_pos))
