-- ===== src/Uri.antt =====
-- src/URI.cpp and include/URI.h: a URI as its parts, parsed from a string and built back. The
-- string is `std::string`; `none` is an index that is `npos`, or the end of the fuel of the query
-- loop, which takes a round for each byte at most. The port of an authority is not modelled.
pub mod Access
pub mod Query
pub mod Absolute
pub mod Parse
pub mod Params
mod Tests
use jhcommon.Prelude.{
  ℕ, zero, suc, ◌+◌, ◌==◌, ltb, Bool, true, false, ◌&&◌, ◌||◌, not, if◌then◌else◌, Option, none,
  some, List, [], ◌∷◌, ◌++◌, length, drop, ◌>>=◌,
}
use jhcommon.Prelude.Text.{Text, codes, text_eq, find, find_text, slice, slice_to}

pub record QueryParam : Type 0 where
  pub key : Text
  pub param : Text

pub record Uri : Type 0 where
  pub relative : Bool
  pub modified : Bool
  pub modified_query : Bool
  pub full_string : Text
  pub query_string : Text
  pub scheme : Text
  pub authority : Text
  pub path : Text
  pub fragment : Text
  pub query_params : List QueryParam

-- the bytes that the parser looks for
abbrev pub colon : ℕ
colon = 58

abbrev pub slash : ℕ
slash = 47

abbrev pub question : ℕ
question = 63

abbrev pub hash : ℕ
hash = 35

abbrev pub equals : ℕ
equals = 61

abbrev pub ampersand : ℕ
ampersand = 38

abbrev pub is_empty : Text → Bool
is_empty [] = true
is_empty (x ∷ s) = false

abbrev pub init : Uri
init = record {
  relative = false;
  modified = false;
  modified_query = false;
  full_string = [];
  query_string = [];
  scheme = [];
  authority = [];
  path = [];
  fragment = [];
  query_params = [];
}

abbrev pub clear : Uri → Uri
clear u = record u {
  relative = false;
  modified = false;
  modified_query = false;
  full_string = [];
  query_string = [];
  scheme = [];
  authority = [];
  path = [];
  fragment = [];
  query_params = [];
}

-- the loop of `buildQuery`, at the index i with the text so far
unfoldable pub query_text : ℕ → Text → List QueryParam → Text
query_text i str [] = str
query_text i str (p ∷ ps) =
    let sep = if i == 0 then str else str ++ ampersand ∷ [] in
    query_text (suc i) (((sep ++ p.key) ++ equals ∷ []) ++ p.param) ps

abbrev pub build_query : Uri → Uri
build_query u =
    if u.modified_query
    then record u { query_string = query_text 0 [] u.query_params; modified_query = false }
    else u

-- the loop of `parseQuery` from the index start
unfoldable pub params_from : ℕ → ℕ → Text → List QueryParam → Option (Bool × List QueryParam)
params_from zero start query params = none
params_from (suc fuel) start query params = elim (find equals start query) [
  | none ↦ some (false, params)
  | some off ↦ elim (find ampersand (off + 1) query) [
    | none ↦
        some (
          true,
          params ++ record { key = slice query start off; param = drop (off + 1) query } ∷ [],
        )
    | some amp ↦
        let params' =
          params
          ++ record { key = slice query start off; param = slice query (off + 1) amp } ∷ [] in
        elim (find equals (amp + 1) query) [
          | none ↦ some (true, params')
          | some next ↦ params_from fuel (amp + 1) query params'
        ]
  ]
]

unfoldable pub parse_query : Uri → Option (Bool × Uri)
parse_query u =
    if is_empty u.query_string
    then some (true, record u { modified_query = false; query_params = [] })
    else (do
      r ← params_from (suc (length u.query_string)) 0 u.query_string u.query_params
      some (r.0, record u { modified_query = false; query_params = r.1 }))

-- the part of `parseString` before the authority: the URI and where to go on
abbrev pub take_scheme : Uri → Uri × ℕ
take_scheme u =
    let u = record u { modified = false; relative = false } in
    elim (find colon 0 u.full_string) [
      | none ↦ (u, 0)
      | some off ↦ (record u { scheme = slice u.full_string 0 off }, off + 1)
    ]

abbrev pub found_at : ℕ → Option ℕ → Bool
found_at start none = false
found_at start (some i) = i == start

abbrev pub read_authority : Uri → ℕ → Uri × Option ℕ
read_authority u start =
    let off = find slash start u.full_string in
    (record u { authority = slice_to u.full_string start off }, off)

-- with where the path starts, none for `npos`
unfoldable pub take_authority : Uri → ℕ → Uri × Option ℕ
take_authority u start =
    if found_at start (find_text (slash ∷ slash ∷ []) start u.full_string)
    then read_authority u (start + 2)
    else if found_at start (find slash start u.full_string)
    then (u, some start)
    else if is_empty u.scheme
    then (record u { relative = true }, some start)
    else read_authority u start

abbrev pub take_fragment : Uri → Option ℕ → Uri
take_fragment u none = u
take_fragment u (some off) = record u { fragment = drop (off + 1) u.full_string }

abbrev pub take_query : Uri → Option ℕ → Option (Bool × Uri)
take_query u none = some (true, u)
take_query u (some off) =
    let hash_at = find hash (off + 1) u.full_string in
    (do
      r ← parse_query (record u { query_string = slice_to u.full_string (off + 1) hash_at })
      some (r.0, if r.0 then take_fragment r.1 hash_at else r.1))

unfoldable pub take_path : Uri → Option ℕ → Option (Bool × Uri)
take_path u none = some (true, u)
take_path u (some start) =
    if ltb start (length u.full_string)
    then (let off = find question start u.full_string in
        take_query (record u { path = slice_to u.full_string start off }) off)
    else some (true, u)

abbrev pub parse_string : Uri → Option (Bool × Uri)
parse_string u = let s = take_scheme u in let a = take_authority s.0 s.1 in take_path a.0 a.1

abbrev pub set_string : Text → Uri → Option (Bool × Uri)
set_string uri u = parse_string (record (clear u) { full_string = uri })

abbrev pub build_scheme : Uri → Text
build_scheme u = if is_empty u.scheme then [] else u.scheme ++ colon ∷ []

abbrev pub build_authority : Uri → Text → Text
build_authority u str =
    if is_empty u.authority
    then str
    else (if not (text_eq u.scheme (codes "mailto")) && not (text_eq u.scheme (codes "news"))
        then str ++ slash ∷ slash ∷ []
        else str)
      ++ u.authority

abbrev pub build_rest : Uri → Text → Text
build_rest u str =
    let str = if is_empty u.query_string then str else (str ++ question ∷ []) ++ u.query_string in
    if is_empty u.fragment then str else (str ++ hash ∷ []) ++ u.fragment

unfoldable pub build_string : Uri → Uri
build_string u =
    if u.modified
    then (let str = build_authority u (build_scheme u) ++ u.path in
        let u = build_query u in record u { full_string = build_rest u str; modified = false })
    else u
