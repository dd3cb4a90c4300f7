-- ===== src/Path.antt =====
-- The names of src/Path.cpp, and `split` of include/jh_string.h as they call it, with "/". Both keep the
-- positions of a string as `unsigned`: `wide` says whether `size_t` is wider than that, as it is with 64
-- bits, where the loop of `split` does not end. `none` is the abort of `erase` or the read through NULL of
-- a vector, or the end of the fuel of `split`, whose loops take a round for each '/'.
pub mod Normal
pub mod Split
pub mod Names
pub mod System
pub mod Mkdirs
mod Tests
use jhcommon.Prelude.{
  ℕ, zero, suc, ◌+◌, ◌-◌, ◌%◌, ◌^◌, ◌==◌, Bool, true, false, ◌||◌, Option, none, some, List, [],
  ◌∷◌, ◌++◌, length, take, drop, if◌then◌else◌, ◌>>=◌,
}
use jhcommon.Prelude.Text.{Text, codes, text_eq, find, rfind, slice_to}

abbrev pub separator : ℕ
separator = 47

abbrev pub one_dot : Text
one_dot = codes "."

abbrev pub two_dots : Text
two_dots = codes ".."

-- `unsigned pos = str.find_first_of( ... )`, and `rfind`: where `size_t` is wider than `unsigned`, a
-- position is cut to 32 bits, and `npos` is then no longer what it is compared with.
abbrev pub as_unsigned : Bool → Option ℕ → Option ℕ
as_unsigned false pos = pos
as_unsigned true none = some (2 ^ 32 - 1)
as_unsigned true (some pos) = some (pos % 2 ^ 32)

-- `start = pos + 1`, where the positions of a 32-bit `size_t` do not wrap
abbrev pub behind_pos : Bool → ℕ → ℕ
behind_pos false pos = pos + 1
behind_pos true pos = (pos + 1) % 2 ^ 32

-- the inner loop of `split`: the start behind adjacent separators, and the next one
unfoldable pub skip : Bool → ℕ → Text → ℕ → Option ℕ → Option (ℕ × Option ℕ)
skip wide zero str start pos = none
skip wide (suc fuel) str start none = some (start, none)
skip wide (suc fuel) str start (some pos) =
    let start' = behind_pos wide pos in
    let rest = skip wide fuel str start' (as_unsigned wide (find separator start' str)) in
    if pos == start then rest else some (start, some pos)

-- the loop of `split`, with the last part
unfoldable pub split_from : Bool → ℕ → Text → ℕ → Option ℕ → List Text → Option (List Text)
split_from wide zero str start pos parts = none
split_from wide (suc fuel) str start none parts = some (parts ++ slice_to str start none ∷ [])
split_from wide (suc fuel) str start (some pos) parts =
    let start' = behind_pos wide pos in
    (do
      next ← skip wide (suc fuel) str start' (as_unsigned wide (find separator start' str))
      split_from wide fuel str next.0 next.1 (parts ++ slice_to str start (some pos) ∷ []))

unfoldable pub split : Bool → Text → Option (List Text)
split wide str =
    split_from wide (suc (length str)) str 0 (as_unsigned wide (find separator 0 str)) []

-- `parts2.erase( parts2.size() - 1 )`
unfoldable pub erase_last : List Text → Option (List Text)
erase_last [] = none
erase_last (p ∷ []) = some []
erase_last (p ∷ q ∷ ps) = do rest ← erase_last (q ∷ ps); some (p ∷ rest)

-- the loop of `normalize`, with `start` and `parts2`
unfoldable pub normal_parts : Bool → List Text → List Text → Option (List Text)
normal_parts start parts2 [] = some parts2
normal_parts start parts2 (part ∷ parts) =
    if text_eq part two_dots
    then (if start
        then normal_parts start (parts2 ++ part ∷ []) parts
        else (do kept ← erase_last parts2; normal_parts start kept parts))
    else if text_eq part one_dot || text_eq part []
    then normal_parts start parts2 parts
    else normal_parts false (parts2 ++ part ∷ []) parts

-- the appends at the end of `normalize`; `parts2[ size() - 1 ]` of no parts is a read through NULL
unfoldable pub append_parts : Text → List Text → Option Text
append_parts path [] = none
append_parts path (part ∷ []) = some (path ++ part)
append_parts path (part ∷ next ∷ parts) =
    append_parts ((path ++ part) ++ separator ∷ []) (next ∷ parts)

abbrev pub is_relative : Text → Bool
is_relative [] = true
is_relative (c ∷ path) = if c == separator then false else true

unfoldable pub normalize : Bool → Text → Option Text
normalize wide path = do
  parts ← split wide path
  parts2 ← normal_parts true [] parts
  append_parts (if is_relative path then [] else separator ∷ []) parts2

-- the last byte of a string; the code reads in front of an empty one
abbrev pub last_byte : Text → Option ℕ
last_byte [] = none
last_byte (c ∷ []) = some c
last_byte (c ∷ d ∷ s) = last_byte (d ∷ s)

unfoldable pub append : Text → Text → Option Text
append path name = do
  c ← last_byte path
  some ((if c == separator then path else path ++ separator ∷ []) ++ name)

-- `makeAbsolute`, where `getcwd` gives cwd
abbrev pub make_absolute : Text → Text → Option Text
make_absolute cwd path = append cwd path

-- what `parent` and `filename` make of the last '/', and the two below of the last '.'
abbrev pub up_to : Option ℕ → Text → Text
up_to none p = one_dot
up_to (some pos) p = take (pos + 1) p

abbrev pub behind : Option ℕ → Text → Text
behind none p = p
behind (some pos) p = drop (pos + 1) p

abbrev pub before : Option ℕ → Text → Text
before none f = f
before (some pos) f = take pos f

abbrev pub extention : Option ℕ → Text → Text
extention none f = []
extention (some pos) f = drop (pos + 1) f

unfoldable pub parent : Bool → Text → Option Text
parent wide path = do p ← normalize wide path; some (up_to (as_unsigned wide (rfind separator p)) p)

unfoldable pub filename : Bool → Text → Option Text
filename wide path = do
  p ← normalize wide path
  some (behind (as_unsigned wide (rfind separator p)) p)

abbrev pub dot : ℕ
dot = 46

unfoldable pub file_basename : Bool → Text → Option Text
file_basename wide path = do
  f ← filename wide path
  some (before (as_unsigned wide (rfind dot f)) f)

unfoldable pub filename_extention : Bool → Text → Option Text
filename_extention wide path = do
  f ← filename wide path
  some (extention (as_unsigned wide (rfind dot f)) f)
