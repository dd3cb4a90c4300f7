-- ===== src/Uri/Tests.antt =====
-- Runs of src/URI.cpp, and its theorems at concrete URIs.
use jhcommon.Prelude.{◌≡◌, refl, true, false, Option, some, none, [], ◌∷◌, Bool}
use jhcommon.Prelude.Text.{Text, codes}
use jhcommon.Uri.{
  QueryParam, Uri, init, set_string, build_string, query_text, take_path, take_authority,
}
use jhcommon.Uri.Access.{
  get_string, set_query, get_query, find_param, remove_query_param, copy_values,
}
use jhcommon.Uri.Query.{parse_query-joined}
use jhcommon.Uri.Absolute.{IsAbsolute}
use jhcommon.Uri.Parse.{set_string-get_string, set_string_ends}

abbrev size : QueryParam
size = record { key = codes "size"; param = codes "a=b" }

abbrev page_no : QueryParam
page_no = record { key = codes "page"; param = codes "12" }

-- the URI http://host:80/dir/file?size=a=b&page=12#top, by its setters
abbrev page : Uri
page = record init {
  modified = true;
  modified_query = true;
  scheme = codes "http";
  authority = codes "host:80";
  path = codes "/dir/file";
  fragment = codes "top";
  query_params = size ∷ page_no ∷ [];
}

page_text : (build_string page).full_string ≡ codes "http://host:80/dir/file?size=a=b&page=12#top"
unfolding build_string query_text
page_text = refl

page-IsAbsolute : IsAbsolute page
page-IsAbsolute = record {
  scheme_given = refl;
  scheme_lacks = refl;
  not_mailto = refl;
  not_news = refl;
  authority_given = refl;
  authority_lacks = refl;
  below_root = codes "dir/file";
  rooted = refl;
  path_lacks = refl;
  params_plain = ((refl, refl), ((refl, refl), tt));
  query_lacks = refl;
  no_lone_fragment = tt;
}

set_string-get_string_example :
    set_string (get_string page).0 init
    ≡ some (true, record (build_string page) { relative = false })
set_string-get_string_example = set_string-get_string page init refl refl page-IsAbsolute

set_string_ends_example : (r : Bool × Uri) × (set_string (codes "mailto:a?b") page ≡ some r)
set_string_ends_example = set_string_ends (codes "mailto:a?b") page

-- `setQuery` on a URI that has parameters keeps them.
parse_query-joined_example :
    set_query (codes "page=12") (record init { query_params = size ∷ [] })
    ≡ some
        (true, record init { query_string = codes "page=12"; query_params = size ∷ page_no ∷ [] })
parse_query-joined_example =
    parse_query-joined (record init { query_params = size ∷ [] }) (page_no ∷ []) ((refl, refl), tt)

-- `removeQueryParam` does not set `mModified`, so `getString` still has the parameter, and a copy
-- has it for good.
abbrev built : Uri
built = build_string page

remove_then_string :
    (get_string (remove_query_param (codes "size") built)).0
    ≡ codes "http://host:80/dir/file?size=a=b&page=12#top"
unfolding build_string query_text remove_query_param find_param
remove_then_string = refl

remove_then_copy :
    (get_query (copy_values (remove_query_param (codes "size") built)).0).0
    ≡ codes "size=a=b&page=12"
unfolding build_string query_text remove_query_param find_param
remove_then_copy = refl

-- A fragment with no query is read into the path.
abbrev plain_of : Option (Bool × Uri) → Text × Text
plain_of none = ([], [])
plain_of (some r) = (r.1.path, r.1.fragment)

lone_fragment : plain_of (set_string (codes "http://host/a#top") init) ≡ (codes "/a#top", [])
unfolding take_path take_authority
lone_fragment = refl
