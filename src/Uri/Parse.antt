-- ===== src/Uri/Parse.antt =====
-- `parseString` of src/URI.cpp on the text that `buildString` makes.
use jhcommon.Prelude.{
  ℕ, ◌+◌, Bool, Bool-cases, inl, inr, if◌then◌else◌, ltb, ◌≡◌, refl, sym, ap, ◌∙◌, true, false,
  Option, some, none, [], ◌∷◌, ◌++◌, length, drop, arith,
}
use jhcommon.Prelude.Text.{Text, Lacks, find, slice_to, find-at, slice-at, drop-at, drop-over}
use jhcommon.Uri.{
  Uri, colon, slash, question, hash, build_string, set_string, take_scheme, take_authority,
  found_at, clear, take_path, take_query, take_fragment,
}
use jhcommon.Uri.Access.{get_string}
use jhcommon.Uri.Query.{joined, parse_query_ends}
use jhcommon.Uri.Absolute.{
  rest_text, uri_text, parsed, take_path-rest, build_string-text, IsAbsolute,
}

take_scheme-colon :
    (s scheme r : Text)
    → drop 0 s ≡ scheme ++ colon ∷ r
    → Lacks colon scheme
    → take_scheme (parsed s [] []) ≡ (parsed s scheme [], 0 + length scheme + 1)
take_scheme-colon s scheme r e lacks =
    rw (find-at 0 s colon scheme r e lacks, slice-at 0 s scheme (colon ∷ r) e) refl

take_authority-slashes :
    (s scheme : Text) (start : ℕ) (authority r : Text)
    → drop start s ≡ slash ∷ slash ∷ (authority ++ slash ∷ r)
    → Lacks slash authority
    → take_authority (parsed s scheme []) start
      ≡ (parsed s scheme authority, some (start + 2 + length authority))
unfolding take_authority
take_authority-slashes s scheme start authority r e lacks =
    let here : found_at start (some (start + 0)) ≡ true = ground arith in
    let behind : drop (start + 2) s ≡ authority ++ slash ∷ r =
      drop-over start s (slash ∷ slash ∷ []) (authority ++ slash ∷ r) e in
    rw
      (
        e,
        here,
        find-at (start + 2) s slash authority r behind lacks,
        slice-at (start + 2) s authority (slash ∷ r) behind,
      )
      refl

-- `getString` of an absolute URI whose two flags are set is parsed by `setString` to the same URI
-- with its parameters, not relative, and `setString` returns true. Absolute: the scheme is given,
-- without ':', and neither "mailto" nor "news"; the authority is given, without '/'; the path
-- begins with '/' and has no '?'; no key has '=', no value '&', and the query no '#'; and a
-- fragment comes only with a query.
pub set_string-get_string :
    (u v : Uri)
    → u.modified ≡ true
    → u.modified_query ≡ true
    → IsAbsolute u
    → set_string (get_string u).0 v ≡ some (true, record (build_string u) { relative = false })
unfolding uri_text
set_string-get_string u v flag query_flag ok =
    let s = uri_text u in
    let rest = rest_text u.query_params u.fragment in
    let below = slash ∷ (ok.below_root ++ rest) in
    let split : drop 0 s ≡ u.scheme ++ colon ∷ slash ∷ slash ∷ (u.authority ++ below) =
      ap (λ p. u.scheme ++ colon ∷ slash ∷ slash ∷ (u.authority ++ (p ++ rest))) ok.rooted in
    let at = 0 + length u.scheme + 1 in
    let behind = drop-at 0 s colon u.scheme (slash ∷ slash ∷ (u.authority ++ below)) split in
    let scheme_step = take_scheme-colon s u.scheme _ split ok.scheme_lacks in
    let authority_step =
      take_authority-slashes s u.scheme at u.authority (ok.below_root ++ rest) behind
        ok.authority_lacks in
    let path_step =
      take_path-rest s u.scheme u.authority ok.below_root u.fragment (at + 2 + length u.authority)
        u.query_params
        (drop-over (at + 2) s u.authority below (drop-over at s (slash ∷ slash ∷ []) _ behind))
        (rw ok.rooted at ok.path_lacks) ok.params_plain ok.query_lacks ok.no_lone_fragment in
    rw (build_string-text u flag query_flag ok) (
      ap (λ x. let a = take_authority x.0 x.1 in take_path a.0 a.1) scheme_step
      ∙ ap (λ a. take_path a.0 a.1) authority_step
      ∙ path_step
      ∙ ap
          (λ p. some (
            true,
            record (parsed s u.scheme u.authority) {
              path = p;
              query_string = joined u.query_params;
              query_params = u.query_params;
              fragment = u.fragment;
            },
          ))
          (sym ok.rooted))

take_query_ends : (u : Uri) (o : Option ℕ) → (r : Bool × Uri) × (take_query u o ≡ some r)
take_query_ends u none = (_, refl)
take_query_ends u (some off) =
    let hash_at = find hash (off + 1) u.full_string in
    let (r, e) =
      parse_query_ends (record u { query_string = slice_to u.full_string (off + 1) hash_at }) in
    ((r.0, if r.0 then take_fragment r.1 hash_at else r.1), rw e refl)

take_path_ends : (u : Uri) (o : Option ℕ) → (r : Bool × Uri) × (take_path u o ≡ some r)
unfolding take_path
take_path_ends u none = (_, refl)
take_path_ends u (some start) = elim (Bool-cases (ltb start (length u.full_string))) [
  | inl e ↦
      let off = find question start u.full_string in
      rw e (take_query_ends (record u { path = slice_to u.full_string start off }) off)
  | inr e ↦ ((true, u), rw e refl)
]

-- `setString` ends on every string.
pub set_string_ends : (s : Text) (v : Uri) → (r : Bool × Uri) × (set_string s v ≡ some r)
set_string_ends s v =
    let scheme = take_scheme (record (clear v) { full_string = s }) in
    let authority = take_authority scheme.0 scheme.1 in take_path_ends authority.0 authority.1
