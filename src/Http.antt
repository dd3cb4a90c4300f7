-- ===== src/Http.antt =====
-- src/HttpHeaderBase.cpp and src/HttpHeader.cpp: the fields of a header, their names, the lines that
-- are found and parsed in the ring of src/CircularBuffer.cpp, and the text that is built. A result
-- of -1 is `none`. `first_line` is what `buildFirstLine` of a derived class puts into the string.
pub mod Lines
pub mod States
pub mod Parse
pub mod Message
pub mod Names
pub mod Fields
pub mod Response
pub mod Request
mod Tests
use mathlib.Core.Option
use jhcommon.Prelude.{
  ℕ, zero, suc, ◌+◌, ◌-◌, Bool, true, false, ◌&&◌, ◌||◌, Option, none, some, List, [], ◌∷◌, ◌++◌,
  length, get_elem?, ltb, leb, ◌==◌, if◌then◌else◌, ◌>>=◌,
}
use jhcommon.Prelude.Text.{Text, codes, text_eq}
use jhcommon.CircularBuffer.{CircularBuffer}
use jhcommon.CircularBuffer.Access.{byte_at}

-- `byteAt` of a buffer
abbrev pub Bytes : Type 0
Bytes = ℕ → Option ℕ

abbrev pub cr : ℕ
cr = 13

abbrev pub lf : ℕ
lf = 10

abbrev pub space : ℕ
space = 32

abbrev pub tab : ℕ
tab = 9

abbrev pub colon : ℕ
colon = 58

abbrev pub is_byte : ℕ → Option ℕ → Bool
is_byte b none = false
is_byte b (some c) = c == b

abbrev pub is_blank : Option ℕ → Bool
is_blank c = is_byte space c || is_byte tab c

pub data LineState : Type 0 where
  search_cr : LineState
  have_cr : LineState

-- The loop of `searchForLine` from the index i, with n rounds left; `some 0` is `kEOH`.
unfoldable pub search_from : ℕ → ℕ → LineState → Bytes → Option ℕ
search_from zero i state byte = none
search_from (suc n) i search_cr byte = elim (byte i) [
  | none ↦ none
  | some c ↦ search_from n (suc i) (if c == cr then have_cr else search_cr) byte
]
search_from (suc n) i have_cr byte =
    let rest = search_from n (suc i) search_cr byte in
    elim (byte i) [
      | none ↦ none
      | some c ↦
          if c == lf
          then (if suc i == 2
              then some 0
              else if is_blank (byte (suc i))
              then rest
              else some (suc i))
          else rest
    ]

pub search_for_line : CircularBuffer → Option ℕ
search_for_line c = search_from c.len 0 search_cr (λ i. byte_at i c)

pub data ParseState : Type 0 where
  parse_field : ParseState
  parse_data : ParseState
  parse_crlf : ParseState
  skip_ws : ParseState

-- the variables of the loop of `parseLine`
pub record Scan : Type 0 where
  pub state : ParseState
  pub field : Text
  pub value : Text
  pub append_space : Bool

-- one round that does not return: the byte c, and the one behind it
unfoldable pub scan_byte : ParseState → ℕ → Option ℕ → Scan → Scan
scan_byte parse_field c next s =
    if c == colon
    then record s { state = skip_ws; append_space = false }
    else record s { field = s.field ++ c ∷ [] }
scan_byte parse_data c next s =
    if c == cr && is_byte lf next
    then record s { state = parse_crlf; append_space = true }
    else record s { value = s.value ++ c ∷ [] }
scan_byte parse_crlf c next s = if c == lf && is_blank next then record s { state = skip_ws } else s
scan_byte skip_ws c next s =
    if c == cr && is_byte lf next
    then record s { state = parse_crlf }
    else if c == tab || c == space
    then s
    else record s {
      value = (if s.append_space then s.value ++ space ∷ [] else s.value) ++ c ∷ [];
      append_space = false;
      state = parse_data;
    }

-- the line ends at this byte
abbrev pub ends_line : ParseState → ℕ → Option ℕ → Bool
ends_line parse_field c next = false
ends_line parse_data c next = false
ends_line parse_crlf c next = if c == lf then (if is_blank next then false else true) else false
ends_line skip_ws c next = false

-- The loop of `parseLine` from the index i, with n rounds left: the scan and the length.
unfoldable pub parse_from : ℕ → ℕ → Bytes → Scan → Option (Scan × ℕ)
parse_from zero i byte s = none
parse_from (suc n) i byte s = elim (byte i) [
  | none ↦ none
  | some c ↦ elim (ends_line s.state c (byte (suc i))) [
    | true ↦ some (s, suc i)
    | false ↦ parse_from n (suc i) byte (scan_byte s.state c (byte (suc i)) s)
  ]
]

-- a `FieldMap`
pub record FieldMap : Type 0 where
  pub field_type : Text → Option ℕ
  pub type_string : ℕ → Option Text

pub record Field : Type 0 where
  pub type : ℕ
  pub value : Text

pub record Header : Type 0 where
  -- the first `mNumFields` slots
  pub fields : List Field
  pub mappings : List FieldMap
  pub header_str : Text

abbrev pub max_fields : ℕ
max_fields = 32

-- the text up to its first NUL
abbrev pub c_str : Text → Text
c_str [] = []
c_str (c ∷ s) = if c == 0 then [] else c ∷ c_str s

abbrev pub get_field_type : List FieldMap → Text → Option ℕ
get_field_type [] field = none
get_field_type (m ∷ ms) field = elim (m.field_type field) [
  | none ↦ get_field_type ms field
  | some t ↦ some t
]

abbrev pub get_field_type_string : List FieldMap → ℕ → Option Text
get_field_type_string [] t = none
get_field_type_string (m ∷ ms) t = elim (m.type_string t) [
  | none ↦ get_field_type_string ms t
  | some name ↦ some name
]

pub data Parsed : Type 0 where
  failed : Parsed
  parsed : ℕ → Header → Parsed
  -- a write behind the array of fields
  overrun : Parsed

-- A field with a known name goes to the next slot, with no test of its number.
abbrev pub next_slot : ℕ → Text → Header → Option ℕ → Parsed
next_slot n value h none = parsed n h
next_slot n value h (some t) =
    if ltb (length h.fields) max_fields
    then parsed n (record h { fields = h.fields ++ record { type = t; value = value } ∷ [] })
    else overrun

abbrev pub end_line : Header → Scan × ℕ → Parsed
end_line h (s, n) = next_slot n (c_str s.value) h (get_field_type h.mappings (c_str s.field))

abbrev pub parsed_line : Header → Option (Scan × ℕ) → Parsed
parsed_line h none = failed
parsed_line h (some r) = end_line h r

abbrev pub start_scan : Scan
start_scan = record { state = parse_field; field = []; value = []; append_space = false }

unfoldable pub parse_line : CircularBuffer → Header → Parsed
parse_line c h = parsed_line h (parse_from c.len 0 (λ i. byte_at i c) start_scan)

abbrev pub add_field : ℕ → Text → Header → Bool × Header
add_field type value h = if leb max_fields (length h.fields) then (false, h) else (
  true,
  record h { fields = h.fields ++ record { type = type; value = value } ∷ []; header_str = [] },
)

unfoldable pub get_field : ℕ → List Field → Option Text
get_field type [] = none
get_field type (f ∷ fs) = if f.type == type then some f.value else get_field type fs

-- The slots behind the first field of the type move one down.
unfoldable pub remove_slot : ℕ → List Field → Option (List Field)
remove_slot type [] = none
remove_slot type (f ∷ fs) =
    if f.type == type then some fs else Option.map (λ r. f ∷ r) (remove_slot type fs)

abbrev pub remove_field : ℕ → Header → Bool × Header
remove_field type h = elim (remove_slot type h.fields) [
  | none ↦ (false, h)
  | some fs ↦ (true, record h { fields = fs })
]

-- The loop of `buildHeader`; none is the append of a NULL name.
unfoldable pub build_fields : List FieldMap → List Field → Text → Option Text
build_fields ms [] str = some (str ++ cr ∷ lf ∷ [])
build_fields ms (f ∷ fs) str = do
  name ← get_field_type_string ms f.type
  build_fields ms fs ((((str ++ name) ++ colon ∷ space ∷ []) ++ f.value) ++ cr ∷ lf ∷ [])

abbrev pub build_header : Text → Header → Option Header
build_header [] h = some (record h { header_str = [] })
build_header (c ∷ line) h = do
  str ← build_fields h.mappings h.fields (c ∷ line)
  some (record h { header_str = str })

abbrev pub get_header : Text → Header → Option Header
get_header first_line h = elim h.header_str [ [] ↦ build_header first_line h | _ ↦ some h ]
