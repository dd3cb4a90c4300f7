-- ===== src/Http/Request.antt =====
-- src/HttpRequest.cpp: the first line of a request, its parse in the ring and its build, over the
-- model of src/URI.cpp. `sscanf` of the version is a parameter.
pub mod FirstLine
pub mod Build
use jhcommon.Prelude.{
  ℕ, zero, suc, ◌+◌, Bool, true, false, Option, none, some, List, [], ◌∷◌, ◌++◌, length, get_elem?,
  ltb, leb, ◌==◌, if◌then◌else◌, ◌>>=◌,
}
use jhcommon.Prelude.Int.{ℤ}
use jhcommon.Prelude.Text.{Text, codes, text_eq}
use jhcommon.CircularBuffer.{CircularBuffer}
use jhcommon.CircularBuffer.Access.{byte_at}
use jhcommon.Uri.{Uri, set_string}
use jhcommon.Uri.Access.{get_query}
use jhcommon.Http.{Bytes, cr, lf, space, is_byte, c_str}

abbrev pub max_method_size : ℕ
max_method_size = 128

abbrev pub max_uri_size : ℕ
max_uri_size = 2048

abbrev pub max_proto_size : ℕ
max_proto_size = 64

abbrev pub method_types : List Text
method_types =
    codes "OPTIONS"
    ∷ codes "GET"
    ∷ codes "HEAD"
    ∷ codes "POST"
    ∷ codes "PUT"
    ∷ codes "DELETE"
    ∷ codes "TRACE"
    ∷ codes "CONNECT"
    ∷ []

pub record Request : Type 0 where
  -- none for `kMethodUnknown`
  pub method : Option ℕ
  pub major : ℤ
  pub minor : ℤ
  pub uri : Uri

-- The loops that read a word up to a byte. A round of fuel for each byte that fits into the word.
unfoldable pub take_word : ℕ → ℕ → ℕ → ℕ → ℕ → Bytes → Text → Option (Text × ℕ)
take_word zero stop max len i byte acc = none
take_word (suc n) stop max len i byte acc = elim (byte i) [
  | none ↦ none
  | some c ↦ elim (ltb len (suc i)) [
    | true ↦ none
    | false ↦ elim (c == stop) [
      | true ↦ some (acc, suc i)
      | false ↦ elim (leb max (suc (length acc))) [
        | true ↦ none
        | false ↦ take_word n stop max len (suc i) byte (acc ++ c ∷ [])
      ]
    ]
  ]
]

-- the loop over the spaces before the URI
unfoldable pub skip_spaces : ℕ → ℕ → ℕ → Bytes → Option ℕ
skip_spaces zero len i byte = none
skip_spaces (suc n) len i byte = elim (is_byte space (byte i)) [
  | false ↦ some i
  | true ↦ elim (ltb len (suc i)) [ true ↦ none | false ↦ skip_spaces n len (suc i) byte ]
]

-- the loop of `parseMethod`, from the index i
unfoldable pub find_method : Text → ℕ → List Text → Option ℕ
find_method method i [] = none
find_method method i (m ∷ ms) = if text_eq method m then some i else find_method method (suc i) ms

abbrev pub parse_method : Text → Option ℕ
parse_method method = find_method (c_str method) 0 method_types

-- the three words, and the length of the line
pub record Words : Type 0 where
  pub method : Text
  pub uri : Text
  pub protocol : Text
  pub size : ℕ

unfoldable pub take_words : ℕ → Bytes → Option Words
take_words len byte = do
  m ← take_word max_method_size space max_method_size len 0 byte []
  i ← skip_spaces (suc len) len m.1 byte
  u ← take_word max_uri_size space max_uri_size len i byte []
  p ← take_word max_proto_size cr max_proto_size len u.1 byte []
  some (record {
    method = m.0;
    uri = u.0;
    protocol = p.0;
    size = if is_byte lf (byte p.1) then suc p.1 else p.1;
  })

-- `sscanf( protocol, "HTTP/%d.%d", &mMajor, &mMinor )` gives the two numbers, from the old ones.
module _ (sscanf : Text → ℤ × ℤ → ℤ × ℤ) where
  abbrev pub set_words : Words → Request → Option (ℕ × Request)
  set_words w q = do
    u ← set_string (c_str w.uri) q.uri
    let v : ℤ × ℤ = sscanf (c_str w.protocol) (q.major, q.minor)
    some (w.size, record { method = parse_method w.method; major = v.0; minor = v.1; uri = u.1 })

  unfoldable pub parse_first_line : CircularBuffer → Request → Option (ℕ × Request)
  parse_first_line c q = do w ← take_words c.len (λ i. byte_at i c); set_words w q

-- the path, with the query behind it
abbrev pub target : Text → Text → Text
target path [] = path
target path (c ∷ query) = (path ++ codes "?") ++ c ∷ query

-- none reads behind the list of methods
abbrev pub build_first_line : Request → Option Text
build_first_line q = do
  m ← q.method
  name ← get_elem? method_types m
  some (
      ((name ++ space ∷ []) ++ target q.uri.path (get_query q.uri).0)
      ++ (codes " HTTP/1.1" ++ cr ∷ lf ∷ []))
