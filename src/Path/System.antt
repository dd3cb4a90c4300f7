-- ===== src/Path/System.antt =====
-- The calls of src/Path.cpp on the file system: `exists`, `isFile`, `isDir`, `remove`, `rename`, `mkdir`
-- and `mkdirs`. An error code is none for kNoError.
use mathlib.Core.Option
use jhcommon.Prelude.{ℕ, Bool, true, false, Option, none, some, List, [], ◌∷◌, if◌then◌else◌, ◌>>=◌}
use jhcommon.Prelude.Text.{Text}
use jhcommon.Path.{append, split}

-- What the code calls of the system: `stat` with the mode that it finds, the tests of its bits, and
-- the calls with `errno`, none where they return 0.
pub record System {ℓ} (F : Type ℓ) : Type ℓ where
  pub stat : F → Text → Option ℕ
  pub has_ifreg : ℕ → Bool
  pub has_ifdir : ℕ → Bool
  pub mkdir : Text → F → Option ℕ × F
  pub rmdir : Text → F → Option ℕ × F
  pub unlink : Text → F → Option ℕ × F
  pub rename : Text → Text → F → Option ℕ × F
  pub get_error_code : ℕ → ℕ
  -- whether `size_t` is wider than `unsigned`
  pub wide : Bool

module _ {ℓ} {F : Type ℓ} (sys : System F) where
  abbrev pub exists : Text → F → Bool
  exists path fs = elim (sys.stat fs path) [ none ↦ false | some mode ↦ true ]

  abbrev pub is_file : Text → F → Bool
  is_file path fs = elim (sys.stat fs path) [ none ↦ false | some mode ↦ sys.has_ifreg mode ]

  abbrev pub is_dir : Text → F → Bool
  is_dir path fs = elim (sys.stat fs path) [ none ↦ false | some mode ↦ sys.has_ifdir mode ]

  -- `if ( res != 0 ) return getErrorCode( errno )`, none for kNoError
  abbrev pub coded : Option ℕ × F → Option ℕ × F
  coded (res, fs) = (Option.map sys.get_error_code res, fs)

  abbrev pub remove : Text → F → Option ℕ × F
  remove path fs = coded (if is_dir path fs then sys.rmdir path fs else sys.unlink path fs)

  abbrev pub rename : Text → Text → F → Option ℕ × F
  rename path new_name fs = coded (sys.rename path new_name fs)

  abbrev pub mkdir : Text → F → Option ℕ × F
  mkdir path fs = coded (sys.mkdir path fs)

  -- the test and the call in the loop of `mkdirs`
  abbrev pub ensure : Text → F → Option ℕ × F
  ensure p fs = if exists p fs then (none, fs) else mkdir p fs

  -- an error is returned; without one the loop goes on
  abbrev pub on_made : Option ℕ × F → (F → Option (Option ℕ × F)) → Option (Option ℕ × F)
  on_made (some err, fs) rest = some (some err, fs)
  on_made (none, fs) rest = rest fs

  -- the loop of `mkdirs`
  unfoldable pub mkdirs_from : Text → List Text → F → Option (Option ℕ × F)
  mkdirs_from p [] fs = some (none, fs)
  mkdirs_from p (part ∷ parts) fs =
      on_made (ensure p fs) (λ fs'. append p part >>= λ p'. mkdirs_from p' parts fs')

  -- `parts[ 0 ]` is there, since `split` gives a part at least
  unfoldable pub mkdirs_parts : List Text → F → Option (Option ℕ × F)
  mkdirs_parts [] fs = none
  mkdirs_parts (p ∷ parts) fs = mkdirs_from p parts fs

  unfoldable pub mkdirs : Text → F → Option (Option ℕ × F)
  mkdirs path fs = split sys.wide path >>= λ parts. mkdirs_parts parts fs
