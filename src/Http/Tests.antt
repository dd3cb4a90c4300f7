-- ===== src/Http/Tests.antt =====
-- Runs of src/HttpHeaderBase.cpp, and its theorems at concrete headers.
use jhcommon.Prelude.{
  ℕ, ◌*◌, ◌-◌, Bool, true, ◌+◌, ◌≡◌, refl, none, some, [], ◌∷◌, ◌++◌, length, All, arith, get_elem?,
}
use jhcommon.Prelude.Int.{ℤ, pos}
use jhcommon.Prelude.Text.{Text, codes}
use jhcommon.CircularBuffer.{CircularBuffer}
use jhcommon.CircularBuffer.Inv.{IsValid, contents}
use jhcommon.Http.{Field, Header, cr, lf, search_from, search_cr, build_fields, build_header}
use jhcommon.Http.Names.{http_field_map, http_field_type, http_type_string, field_names, name_index}
use jhcommon.Http.Parse.{Named, IsNamed}
use jhcommon.Http.Message.{HasName, read_fields, lines_text, read_fields-build_header}
use jhcommon.Uri.{Uri, init, set_string}
use jhcommon.Http.Request.{Request, parse_first_line as parse_request}
use jhcommon.Http.Request.Build.{received, request_line_lem}
use jhcommon.Http.Response.{get_response_string, response_codes, build_first_line, parse_first_line}
use jhcommon.Http.Response.Message.{parse_first_line-build_first_line}

abbrev host : Field
host = record { type = 1022; value = codes "h:80" }

abbrev age : Field
age = record { type = 1005; value = [] }

abbrev host_line : Named
host_line = record { name = codes "Host"; field = host }

abbrev age_line : Named
age_line = record { name = codes "Age"; field = age }

abbrev empty_header : Header
empty_header = record { fields = []; mappings = http_field_map ∷ []; header_str = [] }

abbrev two_fields : Header
two_fields = record { fields = host ∷ age ∷ []; mappings = http_field_map ∷ []; header_str = [] }

abbrev body : Text
body = codes "ok"

-- a ring that holds the text from its start on
abbrev ring : Text → CircularBuffer
ring text = record {
  buffer = text ++ 0 ∷ [];
  read_ptr = 0;
  write_ptr = length text;
  len = length text;
  buffer_size = length text + 1;
  data_signals = 0;
  free_signals = 0;
}

abbrev message : Text
message = lines_text (host_line ∷ age_line ∷ []) (cr ∷ lf ∷ body)

host_line-IsNamed : IsNamed (http_field_map ∷ []) host_line
unfolding http_field_map http_field_type field_names name_index
host_line-IsNamed = record {
  name_ended = refl;
  name_line = refl;
  name_text = refl;
  name_start = refl;
  value_line = refl;
  value_text = refl;
  value_start = refl;
  typed = refl;
}

age_line-IsNamed : IsNamed (http_field_map ∷ []) age_line
unfolding http_field_map http_field_type field_names name_index
age_line-IsNamed = record {
  name_ended = refl;
  name_line = refl;
  name_text = refl;
  name_start = refl;
  value_line = refl;
  value_text = refl;
  value_start = refl;
  typed = refl;
}

host_named : http_type_string 1022 ≡ some (codes "Host")
unfolding http_type_string field_names
host_named = refl

age_named : http_type_string 1005 ≡ some (codes "Age")
unfolding http_type_string field_names
age_named = refl

message-IsValid : IsValid (ring message)
message-IsValid = ground arith

abbrev sent : Header
sent = record two_fields {
  header_str =
      codes "GET / HTTP/1.1" ++ cr ∷ lf ∷ lines_text (host_line ∷ age_line ∷ []) (cr ∷ lf ∷ []);
}

names : All (HasName (http_field_map ∷ [])) (host_line ∷ age_line ∷ [])
unfolding http_field_map http_type_string field_names
names = (refl, (refl, tt))

built : build_header (codes "GET / HTTP/1.1" ++ cr ∷ lf ∷ []) two_fields ≡ some sent
unfolding build_fields http_field_map http_type_string field_names
built = refl

read_fields-build_header_example :
    (c' : CircularBuffer) × (read_fields 3 (ring message) empty_header ≡ some (c', two_fields))
    × IsValid c'
    × (contents c' ≡ cr ∷ lf ∷ body)
read_fields-build_header_example =
    read_fields-build_header 3 (host_line ∷ age_line ∷ []) b'G'
      (codes "ET / HTTP/1.1" ++ cr ∷ lf ∷ []) body two_fields sent empty_header (omega arith)
      message-IsValid refl names (host_line-IsNamed, (age_line-IsNamed, tt)) (omega arith) built
      refl

-- A CR before the CR and LF hides them: the LF is not looked at after the second CR.
double_cr : search_from 4 0 search_cr (get_elem? (b'a' ∷ cr ∷ cr ∷ lf ∷ [])) ≡ none
unfolding search_from
double_cr = refl

-- decimal digits, for `strtol`
abbrev read_digits : ℕ → Text → ℕ
read_digits n [] = n
read_digits n (c ∷ s) = read_digits (n * 10 + (c - 48)) s

abbrev to_number : Text → ℤ × Bool
to_number s = (pos (read_digits 0 s), true)

abbrev print_code : ℤ → Text
print_code code = codes "404"

abbrev not_found : Text
not_found = codes "HTTP/1.1 404 Not Found" ++ cr ∷ lf ∷ []

response-IsValid : IsValid (ring (not_found ++ body))
response-IsValid = ground arith

not_found_built : build_first_line print_code (pos 404) ≡ some not_found
unfolding get_response_string response_codes
not_found_built = refl

parse_first_line-build_first_line_example :
    parse_first_line to_number (ring (not_found ++ body)) (pos 200)
    ≡ (pos 404, some (length not_found))
parse_first_line-build_first_line_example =
    parse_first_line-build_first_line to_number print_code (pos 404) (pos 200) not_found body
      response-IsValid
      (record {
        digit = 52;
        digits1 = 48 ∷ 52 ∷ [];
        nonempty = refl;
        short = omega arith;
        no_space = refl;
        converts = refl;
      })
      not_found_built refl refl

abbrev asked : Request
asked = record {
  method = some 1;
  major = pos 1;
  minor = pos 1;
  uri = record init { path = codes "/dir" };
}

abbrev get_line : Text
get_line = codes "GET /dir HTTP/1.1" ++ cr ∷ lf ∷ []

request-IsValid : IsValid (ring (get_line ++ body))
request-IsValid = ground arith

abbrev version_1_1 : Text → ℤ × ℤ → ℤ × ℤ
version_1_1 s old = (pos 1, pos 1)

request_line_lem_example :
    (b : Bool) × (u : Uri) × (set_string (codes "/dir") init ≡ some (b, u))
    × (parse_request version_1_1 (ring (get_line ++ body)) (record asked { uri = init })
        ≡ some (length get_line, received version_1_1 1 (record asked { uri = init }) u))
request_line_lem_example =
    request_line_lem version_1_1 asked (record asked { uri = init }) 1 47 (codes "dir") get_line
      body request-IsValid refl refl refl refl (omega arith) refl refl
