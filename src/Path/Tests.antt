-- ===== src/Path/Tests.antt =====
-- Runs of src/Path.cpp, and its theorems at concrete paths.
use jhcommon.Prelude.{◌≡◌, refl, none, some, List, [], ◌∷◌, Bool, true, false, ◌||◌, if◌then◌else◌}
use jhcommon.Prelude.Text.{Text, codes, text_eq, find}
use jhcommon.Path.Split.{split_wide}
use jhcommon.Path.{
  as_unsigned, separator, skip, split_from, split, erase_last, normal_parts, append_parts,
  normalize, parent, filename, file_basename, filename_extention,
}
use jhcommon.Path.Normal.{normalize-names}
use jhcommon.Path.System.{System, mkdirs}
use jhcommon.Path.Mkdirs.{mkdirs-names}

split_run : split false (codes "/a//b/") ≡ some (codes "" ∷ codes "a" ∷ codes "b" ∷ codes "" ∷ [])
unfolding split split_from skip
split_run = refl

normalize-names_example :
    (split false (codes "dir/file.so") ≡ some (codes "dir" ∷ codes "file.so" ∷ []))
    × (normalize false (codes "dir/file.so") ≡ some (codes "dir/file.so"))
normalize-names_example =
    normalize-names (codes "dir") (codes "file.so" ∷ [])
      ((refl, refl, refl), ((refl, refl, refl), tt))

normalize_run : normalize false (codes "/x/./y/../z") ≡ some (codes "/x/z")
unfolding split split_from skip erase_last normal_parts append_parts normalize
normalize_run = refl

-- Nothing is left of the path: the read of the last part of none.
normalize_empty : normalize false (codes "a/..") ≡ none
unfolding split split_from skip erase_last normal_parts append_parts normalize
normalize_empty = refl

-- More ".." than names behind a name: the erase of no part aborts.
normalize_above : normalize false (codes "a/../../b") ≡ none
unfolding split split_from skip erase_last normal_parts append_parts normalize
normalize_above = refl

-- A file system of directories, in which every `mkdir` succeeds.
has_dir : Text → List Text → Bool
has_dir p [] = false
has_dir p (d ∷ ds) = text_eq d p || has_dir p ds

abbrev dirs : System (List Text)
dirs = record {
  stat = λ ds p. if has_dir p ds then some 0 else none;
  has_ifreg = λ mode. false;
  has_ifdir = λ mode. true;
  mkdir = λ p ds. (none, p ∷ ds);
  rmdir = λ p ds. (none, ds);
  unlink = λ p ds. (none, ds);
  rename = λ p q ds. (none, ds);
  get_error_code = λ n. n;
  wide = false;
}

-- The directory "a/b/c" is not made.
mkdirs-names_example :
    mkdirs dirs (codes "a/b/c") (codes "a" ∷ []) ≡ some (none, codes "a/b" ∷ codes "a" ∷ [])
unfolding has_dir
mkdirs-names_example =
    mkdirs-names dirs (codes "a") (codes "b" ∷ codes "c" ∷ []) (codes "a" ∷ []) refl
      ((refl, refl, refl), ((refl, refl, refl), ((refl, refl, refl), tt)))

names_run :
    (parent false (codes "x/./dir/file.tar.gz") ≡ some (codes "x/dir/"))
    × (filename false (codes "x/./dir/file.tar.gz") ≡ some (codes "file.tar.gz"))
    × (file_basename false (codes "x/./dir/file.tar.gz") ≡ some (codes "file.tar"))
    × (filename_extention false (codes "x/./dir/file.tar.gz") ≡ some (codes "gz"))
unfolding split split_from skip erase_last normal_parts append_parts normalize parent filename
    file_basename filename_extention
names_run = (refl, refl, refl, refl)

split_wide_example :
    split_from true 9 (codes "a/b") 0 (as_unsigned true (find separator 0 (codes "a/b"))) [] ≡ none
split_wide_example = split_wide 9 (codes "a/b")
