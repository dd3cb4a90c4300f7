-- ===== src/Uri/Access.antt =====
-- src/URI.cpp: the copy, the comparison, and the methods for the parts and the query parameters.
use jhcommon.Prelude.{
  ℕ, zero, suc, ◌==◌, Bool, true, false, ◌&&◌, not, if◌then◌else◌, Option, none, some, List, [],
  ◌∷◌, ◌++◌,
}
use jhcommon.Prelude.Text.{Text, text_eq, find, slice_to}
use jhcommon.Uri.{
  colon, slash, question, is_empty, build_query, parse_query, build_string, QueryParam, Uri,
}

-- the copy, and the source that is flushed
abbrev pub copy_values : Uri → Uri × Uri
copy_values other =
    let other = build_string other in
    (record other { modified = false; modified_query = false }, other)

abbrev pub uri_eq : Uri → Uri → Bool × Uri × Uri
uri_eq u other =
    let other = build_string other in
    let u = build_string u in (text_eq u.full_string other.full_string, u, other)

abbrev pub set_scheme : Text → Uri → Uri
set_scheme scheme u = record u { modified = true; scheme = scheme }

abbrev pub set_authority : Text → Uri → Uri
set_authority authority u = record u { modified = true; authority = authority }

abbrev pub get_host : Uri → Text
get_host u = slice_to u.authority 0 (find colon 0 u.authority)

abbrev pub starts_at_root : Text → Bool
starts_at_root [] = false
starts_at_root (c ∷ s) = c == slash

abbrev pub set_path : Text → Bool → Uri → Uri
set_path path relative u = record u {
  modified = true;
  path = if not (starts_at_root path) && not relative then slash ∷ path else path;
  relative = relative;
}

abbrev pub set_fragment : Text → Uri → Uri
set_fragment fragment u = record u { modified = true; fragment = fragment }

abbrev pub get_query : Uri → Text × Uri
get_query u = let u = build_query u in (u.query_string, u)

abbrev pub get_string : Uri → Text × Uri
get_string u = let u = build_string u in (u.full_string, u)

abbrev pub set_query : Text → Uri → Option (Bool × Uri)
set_query query u = parse_query (record u { query_string = query })

abbrev pub append_query_param : Text → Text → Uri → Uri
append_query_param key value u = record u {
  query_params = u.query_params ++ record { key = key; param = value } ∷ [];
  modified_query = true;
  modified = true;
}

-- the loop of `findParam`, from the index i; none for -1
unfoldable pub find_param : Text → ℕ → List QueryParam → Option ℕ
find_param key i [] = none
find_param key i (p ∷ ps) = if text_eq p.key key then some i else find_param key (suc i) ps

-- the i-th parameter, and `vector::erase( i )`
abbrev pub param_at : ℕ → List QueryParam → Text
param_at i [] = []
param_at zero (p ∷ ps) = p.param
param_at (suc i) (p ∷ ps) = param_at i ps

abbrev pub erase_at : ℕ → List QueryParam → List QueryParam
erase_at i [] = []
erase_at zero (p ∷ ps) = ps
erase_at (suc i) (p ∷ ps) = p ∷ erase_at i ps

abbrev pub erase_found : Option ℕ → List QueryParam → List QueryParam
erase_found none ps = ps
erase_found (some i) ps = erase_at i ps

unfoldable pub remove_query_param : Text → Uri → Uri
remove_query_param key u = record u {
  query_params = erase_found (find_param key 0 u.query_params) u.query_params;
  modified_query = true;
}

abbrev pub param_or_null : Option ℕ → List QueryParam → Text
param_or_null none ps = []
param_or_null (some i) ps = param_at i ps

unfoldable pub get_query_param : Text → Uri → Text
get_query_param key u = param_or_null (find_param key 0 u.query_params) u.query_params

-- It reads the query string as it is, without a flush.
abbrev pub get_path_and_query : Uri → Text
get_path_and_query u =
    if is_empty u.query_string then u.path else (u.path ++ question ∷ []) ++ u.query_string
