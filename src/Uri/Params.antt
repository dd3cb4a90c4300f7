-- ===== src/Uri/Params.antt =====
-- The query parameters of src/URI.cpp as a map in which the first entry of a key counts.
use mathlib.Core.Option
use jhcommon.Prelude.{
  ℕ, suc, ◌≡◌, refl, sym, ap, ◌∙◌, false, Bool-cases, inl, inr, if◌then◌else◌, Option, some, none,
  List, [], ◌∷◌, ◌++◌,
}
use jhcommon.Prelude.Text.{Text, text_eq, text_eq_iff}
use jhcommon.Uri.{QueryParam, Uri}
use jhcommon.Uri.Access.{
  find_param, erase_found, param_or_null, remove_query_param, get_query_param, append_query_param,
}

abbrev pub lookup : Text → List QueryParam → Option Text
lookup key [] = none
lookup key (p ∷ ps) = if text_eq p.key key then some p.param else lookup key ps

abbrev pub remove_first : Text → List QueryParam → List QueryParam
remove_first key [] = []
remove_first key (p ∷ ps) = if text_eq p.key key then ps else p ∷ remove_first key ps

abbrev pub or_else : Option Text → Option Text → Option Text
or_else none w = w
or_else (some v) w = some v

-- `gNullString` for a missing key
abbrev pub or_null : Option Text → Text
or_null none = []
or_null (some v) = v

find_param-suc :
    (key : Text) (i : ℕ) (ps : List QueryParam)
    → find_param key (suc i) ps ≡ Option.map suc (find_param key i ps)
unfolding find_param
find_param-suc key i [] = refl
find_param-suc key i (p ∷ ps) = elim (Bool-cases (text_eq p.key key)) [
  | inl e ↦ rw e refl
  | inr e ↦ rw e (find_param-suc key (suc i) ps)
]

erase_found-suc :
    (o : Option ℕ) (p : QueryParam) (ps : List QueryParam)
    → erase_found (Option.map suc o) (p ∷ ps) ≡ p ∷ erase_found o ps
erase_found-suc none p ps = refl
erase_found-suc (some i) p ps = refl

param_or_null-suc :
    (o : Option ℕ) (p : QueryParam) (ps : List QueryParam)
    → param_or_null (Option.map suc o) (p ∷ ps) ≡ param_or_null o ps
param_or_null-suc none p ps = refl
param_or_null-suc (some i) p ps = refl

erase_found-find_param :
    (key : Text) (ps : List QueryParam) → erase_found (find_param key 0 ps) ps ≡ remove_first key ps
unfolding find_param
erase_found-find_param key [] = refl
erase_found-find_param key (p ∷ ps) = elim (Bool-cases (text_eq p.key key)) [
  | inl e ↦ rw e refl
  | inr e ↦
      rw (e, find_param-suc key 0 ps, erase_found-suc (find_param key 0 ps) p ps)
        (ap (◌∷◌ p) (erase_found-find_param key ps))
]

param_or_null-find_param :
    (key : Text) (ps : List QueryParam)
    → param_or_null (find_param key 0 ps) ps ≡ or_null (lookup key ps)
unfolding find_param
param_or_null-find_param key [] = refl
param_or_null-find_param key (p ∷ ps) = elim (Bool-cases (text_eq p.key key)) [
  | inl e ↦ rw e refl
  | inr e ↦
      rw (e, find_param-suc key 0 ps, param_or_null-suc (find_param key 0 ps) p ps)
        (param_or_null-find_param key ps)
]

lookup-remove_first :
    (key other : Text) (ps : List QueryParam)
    → text_eq key other ≡ false
    → lookup other (remove_first key ps) ≡ lookup other ps
lookup-remove_first key other [] ne = refl
lookup-remove_first key other (p ∷ ps) ne = elim (Bool-cases (text_eq p.key key)) [
  | inl e ↦
      let missed : text_eq p.key other ≡ false =
        ap (λ k. text_eq k other) ((text_eq_iff p.key key).0 e) ∙ ne in
      rw (e, missed) refl
  | inr e ↦ rw e (
      ap (λ found. if text_eq p.key other then some p.param else found)
        (lookup-remove_first key other ps ne))
]

lookup-append :
    (key : Text) (p : QueryParam) (ps : List QueryParam)
    → lookup key (ps ++ p ∷ []) ≡ or_else (lookup key ps) (lookup key (p ∷ []))
lookup-append key p [] = refl
lookup-append key p (q ∷ ps) = elim (Bool-cases (text_eq q.key key)) [
  | inl e ↦ rw e refl
  | inr e ↦ rw e (lookup-append key p ps)
]

-- The index loop, `erase` and the access by index are the removal of the first entry of the key,
-- and its value, or the null string when no entry has the key.
pub query_param_lem :
    (key : Text) (u : Uri)
    → ((remove_query_param key u).query_params ≡ remove_first key u.query_params)
      × (get_query_param key u ≡ or_null (lookup key u.query_params))
unfolding remove_query_param get_query_param
query_param_lem key u =
    (erase_found-find_param key u.query_params, param_or_null-find_param key u.query_params)

-- `removeQueryParam` of one key changes the value of no other key.
pub get_query_param-remove_query_param :
    (key other : Text) (u : Uri)
    → text_eq key other ≡ false
    → get_query_param other (remove_query_param key u) ≡ get_query_param other u
get_query_param-remove_query_param key other u ne =
    (query_param_lem other (remove_query_param key u)).1
    ∙ ap (λ ps. or_null (lookup other ps)) ((query_param_lem key u).0)
    ∙ ap or_null (lookup-remove_first key other u.query_params ne)
    ∙ sym (query_param_lem other u).1

-- `appendQueryParam` changes no value of a key that is there, and gives its value to one that is
-- not.
pub get_query_param-append_query_param :
    (key value other : Text) (u : Uri)
    → get_query_param other (append_query_param key value u)
      ≡ or_null
          (or_else (lookup other u.query_params) (if text_eq key other then some value else none))
get_query_param-append_query_param key value other u =
    (query_param_lem other (append_query_param key value u)).1
    ∙ ap or_null (lookup-append other (record { key = key; param = value }) u.query_params)
