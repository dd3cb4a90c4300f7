-- ===== src/Path/Mkdirs.antt =====
-- src/Path.cpp: the directories that `mkdirs` makes.
use jhcommon.Prelude.{
  ap, ◌∙◌, ◌>>=◌, ℕ, ◌≡◌, refl, ◌==◌, false, Option, none, some, List, [], ◌∷◌, ◌++◌, All, Bool,
  true, false, if◌then◌else◌,
}
use jhcommon.Prelude.Text.{Text, Lacks, Lacks-cons}
use jhcommon.Path.{split, separator, last_byte, append}
use jhcommon.Path.Normal.{IsName, joined_more, normalize-names}
use jhcommon.Path.System.{System, exists, mkdir, on_made, mkdirs_from, mkdirs_parts, mkdirs}

-- The last byte is there, and not a '/'.
EndsInName : Text → Type 0
EndsInName p = (c : ℕ) × (last_byte p ≡ some c) × ((c == separator) ≡ false)

EndsInName-single : (c : ℕ) (s : Text) → Lacks separator (c ∷ s) → EndsInName (c ∷ s)
unfolding EndsInName
EndsInName-single c [] l = (c, refl, (Lacks-cons separator c [] l).0)
EndsInName-single c (d ∷ s) l = EndsInName-single d s (Lacks-cons separator c (d ∷ s) l).1

EndsInName-cons : (x : ℕ) (s : Text) → EndsInName s → EndsInName (x ∷ s)
unfolding EndsInName
EndsInName-cons x [] (c, e, n) = cc
EndsInName-cons x (y ∷ s) h = h

EndsInName-append : (p name : Text) → IsName name → EndsInName (p ++ name)
EndsInName-append [] [] ok = let kept = ok.0 in cc
EndsInName-append [] (c ∷ name) ok = EndsInName-single c name ok.2
EndsInName-append (x ∷ p) name ok = EndsInName-cons x (p ++ name) (EndsInName-append p name ok)

-- the directory p, and below it all names but the last
abbrev pub prefixes : Text → List Text → List Text
prefixes p [] = []
prefixes p (name ∷ names) = p ∷ prefixes ((p ++ separator ∷ []) ++ name) names

append-name : (p name : Text) → EndsInName p → append p name ≡ some ((p ++ separator ∷ []) ++ name)
unfolding EndsInName append
append-name p name (c, e, n) = rw (e, n) refl

abbrev unless_error {ℓ} : {F : Type ℓ} → Option ℕ × F → (F → Option ℕ × F) → Option ℕ × F
unless_error (some err, fs) next = (some err, fs)
unless_error (none, fs) next = next fs

module _ {ℓ} {F : Type ℓ} (sys : System F) where
  -- `mkdir` for each path in turn that does not exist, up to the first error
  abbrev pub make_each : List Text → F → Option ℕ × F
  make_each [] fs = (none, fs)
  make_each (p ∷ ps) fs =
      let rest = make_each ps in
      if exists sys p fs then rest fs else unless_error (mkdir sys p fs) rest

  on_made-made :
      (r : Option ℕ × F) (rest : F → Option (Option ℕ × F)) (each : F → Option ℕ × F)
      → ((fs : F) → rest fs ≡ some (each fs))
      → on_made sys r rest ≡ some (unless_error r each)
  on_made-made (some err, fs) rest each h = refl
  on_made-made (none, fs) rest each h = h fs

  on_made-ensured :
      (found : Bool) (fs : F) (made : Option ℕ × F) (rest : F → Option (Option ℕ × F))
      (each : F → Option ℕ × F)
      → ((fs : F) → rest fs ≡ some (each fs))
      → on_made sys (if found then (none, fs) else made) rest
        ≡ some (if found then each fs else unless_error made each)
  on_made-ensured true fs made rest each h = h fs
  on_made-ensured false fs made rest each h = on_made-made made rest each h

  mkdirs_from-names :
      (p : Text) (names : List Text) (fs : F)
      → EndsInName p
      → All IsName names
      → mkdirs_from sys p names fs ≡ some (make_each (prefixes p names) fs)
  unfolding mkdirs_from
  mkdirs_from-names p [] fs h ok = refl
  mkdirs_from-names p (name ∷ names) fs h ok =
      let below = (p ++ separator ∷ []) ++ name in
      on_made-ensured (exists sys p fs) fs (mkdir sys p fs) _ (make_each (prefixes below names))
        (λ fs'. rw (append-name p name h) (
          mkdirs_from-names below names fs' (EndsInName-append (p ++ separator ∷ []) name ok.0)
            ok.1))

  -- Where `size_t` is no wider than `unsigned`: on a relative path of names joined by single
  -- separators, `mkdirs` ends, and makes those of its
  -- parents that do not exist, the outermost first, up to the first error. The last directory, that
  -- of the path itself, is not made.
  pub mkdirs-names :
      (name : Text) (names : List Text) (fs : F)
      → sys.wide ≡ false
      → All IsName (name ∷ names)
      → mkdirs sys (name ++ joined_more names) fs ≡ some (make_each (prefixes name names) fs)
  unfolding mkdirs mkdirs_parts
  mkdirs-names name names fs narrow ok =
      ap (λ w. split w (name ++ joined_more names) >>= λ parts. mkdirs_parts sys parts fs) narrow
      ∙ rw (normalize-names name names ok).0
          (mkdirs_from-names name names fs (EndsInName-append [] name ok.0) ok.1)
