-- ===== src/Path/Normal.antt =====
-- `normalize` of src/Path.cpp: what its parts are, and the paths that it leaves as they are.
use mathlib.Core.Option
use jhcommon.Prelude.{
  ℕ, zero, suc, ◌+◌, ◌==◌, ◌<◌, ◌≤◌, Bool, true, false, ◌||◌, Option, none, some, List, [], ◌∷◌,
  ◌++◌, length, drop, ◌>>=◌, ◌≡◌, refl, sym, ap, ◌∙◌, All, append-nil, append_assoc, length-append,
  arith,
}
use jhcommon.Prelude.Text.{
  Text, text_eq, find, find-at, find-none, slice-at, drop-at, Lacks, Lacks-cons, index_of,
}
use jhcommon.Path.{
  separator, one_dot, two_dots, skip, split_from, split, erase_last, normal_parts, append_parts,
  is_relative, normalize,
}

-- a part that is not "." and not empty
abbrev pub IsKept : Text → Type 0
IsKept part = (text_eq part one_dot || text_eq part []) ≡ false

-- a name of a file: kept, not "..", without a separator
abbrev pub IsName : Text → Type 0
IsName part = IsKept part × (text_eq part two_dots ≡ false) × Lacks separator part

abbrev pub joined_more : List Text → Text
joined_more [] = []
joined_more (part ∷ parts) = separator ∷ (part ++ joined_more parts)

skip-found :
    (fuel start : ℕ) (s : Text) (o : Option ℕ)
    → skip false (suc fuel) s start (Option.map (λ i. start + i) (Option.map suc o))
      ≡ some (start, Option.map (λ i. start + i) (Option.map suc o))
unfolding skip
skip-found fuel start s none = refl
skip-found fuel start s (some j) =
    let later : (start + suc j == start) ≡ false = ground arith in rw later refl

-- Before a name there is no separator to skip.
skip-name :
    (fuel start : ℕ) (s name r : Text)
    → IsName name
    → drop start s ≡ name ++ r
    → skip false (suc fuel) s start (find separator start s) ≡ some (start, find separator start s)
skip-name fuel start s [] r ok e = let kept = ok.0 in cc
skip-name fuel start s (c ∷ name) r ok e =
    let no_separator = (Lacks-cons separator c name ok.2).0 in
    rw (e, no_separator) (skip-found fuel start s (index_of separator (name ++ r)))

split_from-names :
    (fuel start : ℕ) (s name : Text) (names parts : List Text)
    → length names < fuel
    → All IsName (name ∷ names)
    → drop start s ≡ name ++ joined_more names
    → split_from false fuel s start (find separator start s) parts ≡ some (parts ++ name ∷ names)
unfolding split_from skip
split_from-names zero start s name names parts h ok e = absurd (omega arith)
split_from-names (suc fuel) start s name [] parts h ok e =
    let e' : drop start s ≡ name = e ∙ append-nil name in
    rw (find-none start s separator name e' ok.0.2, e') refl
split_from-names (suc fuel) start s name (next ∷ names) parts h ok e =
    let behind = drop-at start s separator name (next ++ joined_more names) e in
    let rest =
      split_from-names fuel (start + length name + 1) s next names (parts ++ name ∷ [])
        (omega arith) ok.1 behind in
    rw
      (
        find-at start s separator name (next ++ joined_more names) e ok.0.2,
        slice-at start s name (separator ∷ (next ++ joined_more names)) e,
      )
      (ap (λ n. n >>= (λ next'. split_from false fuel s next'.0 next'.1 (parts ++ name ∷ [])))
          (skip-name fuel (start + length name + 1) s next (joined_more names) ok.1.0 behind)
        ∙ rest
        ∙ ap some (append_assoc parts (name ∷ []) (next ∷ names)))

normal_parts-names :
    (start : Bool) (parts2 names : List Text)
    → All IsName names
    → normal_parts start parts2 names ≡ some (parts2 ++ names)
unfolding normal_parts
normal_parts-names start parts2 [] ok = ap some (sym (append-nil parts2))
normal_parts-names start parts2 (name ∷ names) ok =
    let rest = normal_parts-names false (parts2 ++ name ∷ []) names ok.1 in
    rw (ok.0.1, ok.0.0) (rest ∙ ap some (append_assoc parts2 (name ∷ []) names))

append_parts-names :
    (path name : Text) (names : List Text)
    → append_parts path (name ∷ names) ≡ some (path ++ (name ++ joined_more names))
unfolding append_parts
append_parts-names path name [] = ap (λ n. some (path ++ n)) (sym (append-nil name))
append_parts-names path name (next ∷ names) =
    append_parts-names ((path ++ name) ++ separator ∷ []) next names ∙ ap some (simp append_assoc)

length-joined_more : (names : List Text) → length names ≤ length (joined_more names)
length-joined_more [] = omega arith
length-joined_more (name ∷ names) =
    omega (arith, length-joined_more names, length-append name (joined_more names))

names_relative : (name : Text) (r : Text) → IsName name → is_relative (name ++ r) ≡ true
names_relative [] r ok = let kept = ok.0 in cc
names_relative (c ∷ name) r ok =
    let no_separator = (Lacks-cons separator c name ok.2).0 in rw no_separator refl

-- Where `size_t` is no wider than `unsigned`: a relative path of names joined by single separators, none of them "." or "..", is split into
-- its names, and `normalize` ends and leaves it as it is.
pub normalize-names :
    (name : Text) (names : List Text)
    → All IsName (name ∷ names)
    → (split false (name ++ joined_more names) ≡ some (name ∷ names))
      × (normalize false (name ++ joined_more names) ≡ some (name ++ joined_more names))
unfolding split normalize
normalize-names name names ok =
    let s = name ++ joined_more names in
    let fuel : length names < suc (length s) =
      omega (arith, length-joined_more names, length-append name (joined_more names)) in
    let parts = split_from-names (suc (length s)) 0 s name names [] fuel ok refl in
    (
      parts,
      rw
          (
            parts,
            normal_parts-names true [] (name ∷ names) ok,
            names_relative name (joined_more names) ok.0,
          )
          (append_parts-names [] name names),
    )

erase_last-append : (parts : List Text) (name : Text) → erase_last (parts ++ name ∷ []) ≡ some parts
unfolding erase_last
erase_last-append [] name = refl
erase_last-append (p ∷ []) name = refl
erase_last-append (p ∷ q ∷ parts) name = rw (erase_last-append (q ∷ parts) name) refl

-- In the loop of `normalize`, a name and the ".." behind it cancel: the parts behind them are read
-- on as after a name, with the parts before them as they were.
pub normal_parts-cancel :
    (start : Bool) (parts2 : List Text) (name : Text) (parts : List Text)
    → IsName name
    → normal_parts start parts2 (name ∷ two_dots ∷ parts) ≡ normal_parts false parts2 parts
unfolding normal_parts
normal_parts-cancel start parts2 name parts ok = rw (ok.1, ok.0, erase_last-append parts2 name) refl
