-- ===== src/Http/Names.antt =====
-- `HttpFieldMap` of src/HttpHeader.cpp: the names of the HTTP/1.1 fields, which are compared without
-- their case by `strcasecmp`, and their types, from `kHttpFieldMapStart` on.

use jhcommon.Prelude.{
  ℕ, zero, suc, ◌+◌, ◌-◌, ◌≡◌, refl, sym, ap, ap₂, ◌∙◌, Bool, true, false, ◌&&◌, Option, none, some,
  List, [], ◌∷◌, map, get_elem?, leb, ◌==◌, if◌then◌else◌, arith, Bool-cases, inl, inr,
}
use jhcommon.Prelude.Text.{Text, codes, text_eq}
use jhcommon.Http.{FieldMap}

abbrev pub map_start : ℕ
map_start = 1000

unfoldable pub field_names : List Text
field_names =
    codes "Accept"
    ∷ codes "Accept-Charset"
    ∷ codes "Accept-Encoding"
    ∷ codes "Accept-Language"
    ∷ codes "Accept-Ranges"
    ∷ codes "Age"
    ∷ codes "Allow"
    ∷ codes "Authorization"
    ∷ codes "Cache-Control"
    ∷ codes "Connection"
    ∷ codes "Content-Encoding"
    ∷ codes "Content-Language"
    ∷ codes "Content-Length"
    ∷ codes "Content-Location"
    ∷ codes "Content-MD5"
    ∷ codes "Content-Range"
    ∷ codes "Content-Type"
    ∷ codes "Date"
    ∷ codes "ETag"
    ∷ codes "Expect"
    ∷ codes "Expires"
    ∷ codes "From"
    ∷ codes "Host"
    ∷ codes "If-Match"
    ∷ codes "If-Modified-Since"
    ∷ codes "If-None-Match"
    ∷ codes "If-Range"
    ∷ codes "If-Unmodified-Since"
    ∷ codes "Last-Modified"
    ∷ codes "Location"
    ∷ codes "Max-Forwards"
    ∷ codes "Pragma"
    ∷ codes "Proxy-Authenticate"
    ∷ codes "Proxy-Authorization"
    ∷ codes "Range"
    ∷ codes "Referer"
    ∷ codes "Retry-After"
    ∷ codes "Server"
    ∷ codes "TE"
    ∷ codes "Trailer"
    ∷ codes "Transfer-Encoding"
    ∷ codes "Upgrade"
    ∷ codes "User-Agent"
    ∷ codes "Vary"
    ∷ codes "Via"
    ∷ codes "Warning"
    ∷ codes "WWW-Authenticate"
    ∷ []

-- `tolower` of an ASCII character
abbrev pub lower : ℕ → ℕ
lower c = if leb 65 c && leb c 90 then c + 32 else c

-- `strcasecmp( s, t ) == 0`
abbrev pub same_name : Text → Text → Bool
same_name s t = text_eq (map lower s) (map lower t)

-- the loop of `getFieldType`, from the index i
unfoldable pub name_index : Text → ℕ → List Text → Option ℕ
name_index field i [] = none
name_index field i (n ∷ ns) =
    if same_name field n then some (i + map_start) else name_index field (suc i) ns

unfoldable pub http_field_type : Text → Option ℕ
http_field_type field = name_index field 0 field_names

unfoldable pub http_type_string : ℕ → Option Text
http_type_string type =
    if leb map_start type then get_elem? field_names (type - map_start) else none

unfoldable pub http_field_map : FieldMap
http_field_map = record { field_type = http_field_type; type_string = http_type_string }

name_index-lower :
    (s t : Text) (i : ℕ) (ns : List Text)
    → map lower s ≡ map lower t
    → name_index s i ns ≡ name_index t i ns
unfolding name_index
name_index-lower s t i [] e = refl
name_index-lower s t i (n ∷ ns) e =
    ap₂ (λ b r. if b then some (i + map_start) else r) (ap (λ u. text_eq u (map lower n)) e)
      (name_index-lower s t (suc i) ns e)

abbrev is_type : ℕ → Option ℕ → Bool
is_type t none = false
is_type t (some u) = u == t

-- The names and the types agree from the index i on.
abbrev agrees : ℕ → List Text → Bool
agrees i [] = true
agrees i (n ∷ ns) = is_type (i + map_start) (http_field_type n) && agrees (suc i) ns

names_agree : agrees 0 field_names ≡ true
unfolding http_field_type field_names name_index
names_agree = refl

is_type_iff : (t : ℕ) (o : Option ℕ) → is_type t o ≡ true → o ≡ some t
is_type_iff t none h = cc
is_type_iff t (some u) h = ground arith

pub and_left : (a b : Bool) → (a && b) ≡ true → a ≡ true
and_left a b h = ground arith

pub and_right : (a b : Bool) → (a && b) ≡ true → b ≡ true
and_right a b h = ground arith

some_inj : {s t : Text} → some s ≡ some t → s ≡ t
some_inj e = cc

agrees-get_elem? :
    (i k : ℕ) (ns : List Text) {name : Text}
    → agrees i ns ≡ true
    → get_elem? ns k ≡ some name
    → http_field_type name ≡ some (i + k + map_start)
agrees-get_elem? i k [] h e = cc
agrees-get_elem? i zero (n ∷ ns) h e =
    let here = is_type_iff (i + map_start) (http_field_type n) (and_left _ _ h) in
    let k : i + 0 + map_start ≡ i + map_start = omega arith in
    rw k (ap http_field_type (sym (some_inj e)) ∙ here)
agrees-get_elem? i (suc k) (n ∷ ns) h e =
    let k' : i + suc k + map_start ≡ suc i + k + map_start = omega arith in
    rw k' (agrees-get_elem? (suc i) k ns (and_right _ _ h) e)

-- Every name that differs from the name of a type in the case of its letters only is of that type.
pub http_field_type-lower :
    (type : ℕ) (name s : Text)
    → http_type_string type ≡ some name
    → map lower s ≡ map lower name
    → http_field_type s ≡ some type
unfolding http_field_type http_type_string
http_field_type-lower type name s e same = elim (Bool-cases (leb map_start type)) [
  | inl h ↦
      let k : 0 + (type - map_start) + map_start ≡ type = ground arith in
      name_index-lower s name 0 field_names same
      ∙ agrees-get_elem? 0 (type - map_start) field_names names_agree (rw h at e)
      ∙ ap some k
  | inr h ↦ let e' = rw h at e in cc
]
