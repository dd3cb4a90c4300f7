-- ===== src/Uri/Absolute.antt =====
-- src/URI.cpp: the URIs that a parser can tell apart, and the text that `buildString` makes of them.
use jhcommon.Prelude.{
  ℕ, ◌+◌, if◌then◌else◌, ◌≡◌, refl, sym, ap, ◌∙◌, true, false, some, List, [], ◌∷◌, ◌++◌, length,
  drop, append_assoc, append-nil, All, lt→ltb,
}
use jhcommon.Prelude.Text.{
  Text, codes, text_eq, Lacks, find-at, find-none, slice-at, drop-at, drop-lt,
}
use jhcommon.Uri.{
  QueryParam, Uri, colon, slash, question, hash, is_empty, build_query, build_string, build_scheme,
  build_authority, build_rest, take_path,
}
use jhcommon.Uri.Query.{joined, joined_filled, IsPlain, build_query-joined, set_query-joined}

abbrev pub fragment_text : Text → Text
fragment_text [] = []
fragment_text (c ∷ f) = hash ∷ c ∷ f

-- the text behind the path
abbrev pub rest_text : List QueryParam → Text → Text
rest_text [] f = []
rest_text (p ∷ ps) f = question ∷ joined (p ∷ ps) ++ fragment_text f

abbrev pub NoLoneFragment : List QueryParam → Text → Type 0
NoLoneFragment [] f = f ≡ []
NoLoneFragment (p ∷ ps) f = Unit

-- A URI with all the parts that a parser can tell apart.
pub record IsAbsolute (u : Uri) : Type 0 where
  pub scheme_given : is_empty u.scheme ≡ false
  pub scheme_lacks : Lacks colon u.scheme
  pub not_mailto : text_eq u.scheme (codes "mailto") ≡ false
  pub not_news : text_eq u.scheme (codes "news") ≡ false
  pub authority_given : is_empty u.authority ≡ false
  pub authority_lacks : Lacks slash u.authority
  pub below_root : Text
  pub rooted : u.path ≡ slash ∷ below_root
  pub path_lacks : Lacks question u.path
  pub params_plain : All IsPlain u.query_params
  pub query_lacks : Lacks hash (joined u.query_params)
  pub no_lone_fragment : NoLoneFragment u.query_params u.fragment

unfoldable pub uri_text : Uri → Text
uri_text u =
    u.scheme
    ++ colon ∷ slash ∷ slash ∷ (u.authority ++ (u.path ++ rest_text u.query_params u.fragment))

-- the URI that the parser has when it comes to the path
abbrev pub parsed : Text → Text → Text → Uri
parsed s scheme authority = record {
  relative = false;
  modified = false;
  modified_query = false;
  full_string = s;
  query_string = [];
  scheme = scheme;
  authority = authority;
  path = [];
  fragment = [];
  query_params = [];
}

pub take_path-rest :
    (s scheme authority path f : Text) (start : ℕ) (ps : List QueryParam)
    → drop start s ≡ (slash ∷ path) ++ rest_text ps f
    → Lacks question (slash ∷ path)
    → All IsPlain ps
    → Lacks hash (joined ps)
    → NoLoneFragment ps f
    → take_path (parsed s scheme authority) (some start)
      ≡ some (
        true,
        record (parsed s scheme authority) {
          path = slash ∷ path;
          query_string = joined ps;
          query_params = ps;
          fragment = f;
        },
      )
unfolding take_path
take_path-rest s scheme authority path f start [] e lacks ok no_hash lone =
    let e' : drop start s ≡ slash ∷ path = e ∙ append-nil (slash ∷ path) in
    let inside = lt→ltb start (length s) (drop-lt start s slash path e') in
    rw (inside, find-none start s question (slash ∷ path) e' lacks, e', lone) refl
take_path-rest s scheme authority path [] start (p ∷ ps) e lacks ok no_hash lone =
    let query = joined (p ∷ ps) in
    let inside = lt→ltb start (length s) (drop-lt start s slash _ e) in
    let at = start + length (slash ∷ path) in
    let behind : drop (at + 1) s ≡ query =
      drop-at start s question (slash ∷ path) (query ++ []) e ∙ append-nil query in
    let parsed_query =
      set_query-joined (record (parsed s scheme authority) { path = slash ∷ path }) (p ∷ ps) ok
        refl in
    rw
      (
        inside,
        find-at start s question (slash ∷ path) (query ++ []) e lacks,
        slice-at start s (slash ∷ path) (question ∷ query ++ []) e,
        find-none (at + 1) s hash query behind no_hash,
        behind,
        parsed_query,
      )
      refl
take_path-rest s scheme authority path (c ∷ f) start (p ∷ ps) e lacks ok no_hash lone =
    let query = joined (p ∷ ps) in
    let inside = lt→ltb start (length s) (drop-lt start s slash _ e) in
    let at = start + length (slash ∷ path) in
    let rest = hash ∷ c ∷ f in
    let behind = drop-at start s question (slash ∷ path) (query ++ rest) e in
    let parsed_query =
      set_query-joined (record (parsed s scheme authority) { path = slash ∷ path }) (p ∷ ps) ok
        refl in
    rw
      (
        inside,
        find-at start s question (slash ∷ path) (query ++ rest) e lacks,
        slice-at start s (slash ∷ path) (question ∷ query ++ rest) e,
        find-at (at + 1) s hash query (c ∷ f) behind no_hash,
        slice-at (at + 1) s query rest behind,
        parsed_query,
        drop-at (at + 1) s hash query (c ∷ f) behind,
      )
      refl

build_rest-rest_text :
    (str : Text) (ps : List QueryParam) (f : Text)
    → NoLoneFragment ps f
    → build_rest (record (parsed [] [] []) { query_string = joined ps; fragment = f }) str
      ≡ str ++ rest_text ps f
build_rest-rest_text str [] f lone = rw lone (sym (append-nil str))
build_rest-rest_text str (p ∷ ps) [] lone =
    rw (joined_filled p ps, append-nil (joined (p ∷ ps))) (append_assoc str (question ∷ []) _)
build_rest-rest_text str (p ∷ ps) (c ∷ f) lone = rw (joined_filled p ps) (simp append_assoc)

parts_text : Uri → Text
parts_text u = build_authority u (build_scheme u) ++ u.path

parts :
    (u : Uri)
    → IsAbsolute u
    → parts_text u ≡ (((u.scheme ++ colon ∷ []) ++ slash ∷ slash ∷ []) ++ u.authority) ++ u.path
unfolding parts_text
parts u ok = rw (ok.scheme_given, ok.authority_given, ok.not_mailto, ok.not_news) refl

-- The URI with its text, when both its flags are set and it has all the parts.
pub build_string-text :
    (u : Uri)
    → u.modified ≡ true
    → u.modified_query ≡ true
    → IsAbsolute u
    → build_string u ≡ record u {
      full_string = uri_text u;
      query_string = joined u.query_params;
      modified = false;
      modified_query = false;
    }
unfolding build_string parts_text uri_text
build_string-text u flag query_flag ok =
    let built =
      λ (w : Uri). record w { full_string = build_rest w (parts_text u); modified = false } in
    ap (λ b. if b then built (build_query u) else u) flag
    ∙ ap built (build_query-joined u query_flag)
    ∙ ap
        (λ text. record u {
          full_string = text;
          query_string = joined u.query_params;
          modified = false;
          modified_query = false;
        })
        (build_rest-rest_text (parts_text u) u.query_params u.fragment ok.no_lone_fragment
          ∙ ap (λ str. str ++ rest_text u.query_params u.fragment) (parts u ok)
          ∙ (simp append_assoc))
