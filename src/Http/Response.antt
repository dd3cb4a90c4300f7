-- ===== src/Http/Response.antt =====
-- src/HttpResponse.cpp: the first line of a response, its parse in the ring and its build. `strtol`
-- and `snprintf` of a decimal number are parameters: the first gives a value and whether it
-- converted anything without an error.
pub mod FirstLine
pub mod Message
use jhcommon.Prelude.{
  ℕ, zero, suc, ◌+◌, Bool, true, false, ◌&&◌, ◌||◌, Option, none, some, List, [], ◌∷◌, ◌++◌, length,
  ltb, leb, ◌==◌, if◌then◌else◌,
}
use jhcommon.Prelude.Int.{ℤ, pos, int_eq}
use jhcommon.Prelude.Text.{Text, codes}
use jhcommon.CircularBuffer.{CircularBuffer}
use jhcommon.CircularBuffer.Access.{byte_at}
use jhcommon.Http.{Bytes, cr, lf, space, is_byte, c_str}

pub record ResponseCode : Type 0 where
  pub code : ℤ
  pub description : Text

abbrev row : ℕ → Text → ResponseCode
row code description = record { code = pos code; description = description }

unfoldable pub response_codes : List ResponseCode
response_codes =
    row 100 (codes "Continue")
    ∷ row 100 (codes "Switching Protocols")
    ∷ row 200 (codes "OK")
    ∷ row 201 (codes "Created")
    ∷ row 202 (codes "Accepted")
    ∷ row 203 (codes "Non-Authorative Information")
    ∷ row 204 (codes "No Content")
    ∷ row 205 (codes "Reset Content")
    ∷ row 206 (codes "Partial Content")
    ∷ row 300 (codes "Multiple Choices")
    ∷ row 301 (codes "Moved Permanently")
    ∷ row 302 (codes "Found")
    ∷ row 303 (codes "See Other")
    ∷ row 304 (codes "Not Modified")
    ∷ row 305 (codes "Use Proxy")
    ∷ row 305 (codes "Temporary Redirect")
    ∷ row 400 (codes "Bad Request")
    ∷ row 401 (codes "Unauthorized")
    ∷ row 402 (codes "Payment Required")
    ∷ row 403 (codes "Forbidden")
    ∷ row 404 (codes "Not Found")
    ∷ row 405 (codes "Method Not Allowed")
    ∷ row 406 (codes "Not Acceptable")
    ∷ row 407 (codes "Proxy Authentication Required")
    ∷ row 408 (codes "Request Timeout")
    ∷ row 410 (codes "Gone")
    ∷ row 411 (codes "Length Required")
    ∷ row 412 (codes "Precondition Failed")
    ∷ row 413 (codes "Request Entity Too Large")
    ∷ row 414 (codes "Request-URI Too Long")
    ∷ row 415 (codes "Unsupported Media Type")
    ∷ row 416 (codes "Request Range Not Satisfiable")
    ∷ row 417 (codes "Expectation Failed")
    ∷ row 500 (codes "Internal Server Error")
    ∷ row 501 (codes "Not Implemented")
    ∷ row 502 (codes "Bad Gateway")
    ∷ row 503 (codes "Service Unavailable")
    ∷ row 504 (codes "Gateway Timeout")
    ∷ row 505 (codes "HTTP Version Not Supported")
    ∷ []

abbrev pub find_description : ℤ → List ResponseCode → Text
find_description code [] = codes "Unknown HTTP error"
find_description code (r ∷ rs) =
    if int_eq r.code code then r.description else find_description code rs

unfoldable pub get_response_string : ℤ → Text
get_response_string code = find_description code response_codes

pub data StatusState : Type 0 where
  parse_protocol : StatusState
  seek_status_code : StatusState
  parse_status_code : StatusState
  seek_status_text : StatusState
  parse_status_text : StatusState
  parsing_error : StatusState

-- the variables of the loop of `parseFirstLine`, and `mResponseCode`
pub record Status : Type 0 where
  pub state : StatusState
  pub code_str : Text
  pub code : ℤ

-- one round: the loop goes on, or the line ends
pub data Round : Type 0 where
  goes : Status → Round
  ends : Status → Round

-- The cases, each with the one that it falls through to.
abbrev pub text_byte : ℕ → Status → Round
text_byte c s =
    if c == cr || c == lf
    then ends (record s { state = parse_status_text })
    else goes (record s { state = parse_status_text })

abbrev pub seek_text_byte : ℕ → Status → Round
seek_text_byte c s =
    if c == space then goes (record s { state = seek_status_text }) else text_byte c s

abbrev pub is_error : StatusState → Bool
is_error parsing_error = true
is_error _ = false

-- `i` behind the CR or LF: the LF of a CR, and an empty line behind a 100
abbrev pub skip_lf : ℕ → Bytes → ℕ → ℕ
skip_lf len byte i = if ltb i len && is_byte lf (byte i) then suc i else i

abbrev pub skip_continue : ℕ → ℤ → Bytes → ℕ → ℕ
skip_continue len code byte i =
    if int_eq code (pos 100) && ltb (suc i) len && is_byte cr (byte i) && is_byte lf (byte (suc i))
    then suc (suc i)
    else i

abbrev pub line_end : ℕ → ℤ → Bytes → ℕ → ℕ
line_end len code byte i = skip_continue len code byte (skip_lf len byte i)

module _ (strtol : Text → ℤ × Bool) where
  abbrev pub converted : ℕ → Status → ℤ × Bool → Round
  converted c s v =
      if v.1
      then seek_text_byte c (record s { state = seek_status_text; code = v.0 })
      else goes (record s { state = parsing_error; code = v.0 })

  abbrev pub code_byte : ℕ → Status → Round
  code_byte c s =
      if c == space
      then converted c s (strtol (c_str s.code_str))
      else goes (record s { state = parse_status_code; code_str = s.code_str ++ c ∷ [] })

  abbrev pub seek_code_byte : ℕ → Status → Round
  seek_code_byte c s =
      if c == space then goes (record s { state = seek_status_code }) else code_byte c s

  unfoldable pub status_byte : StatusState → ℕ → Status → Round
  status_byte parse_protocol c s = if c == space then seek_code_byte c s else goes s
  status_byte seek_status_code c s = seek_code_byte c s
  status_byte parse_status_code c s = code_byte c s
  status_byte seek_status_text c s = seek_text_byte c s
  status_byte parse_status_text c s = text_byte c s
  status_byte parsing_error c s = goes s

  -- The loop from the index i, with n bytes left, in a buffer of len bytes.
  unfoldable pub status_from : ℕ → ℕ → ℕ → Bytes → Status → Status × Option ℕ
  status_from len zero i byte s = (s, none)
  status_from len (suc n) i byte s = elim (is_error s.state) [
    | true ↦ (s, none)
    | false ↦ elim (byte i) [
      | none ↦ (s, none)
      | some c ↦ elim (status_byte s.state c s) [
        | goes v ↦ status_from len n (suc i) byte v
        | ends v ↦ (v, some (line_end len v.code byte (suc i)))
      ]
    ]
  ]

  abbrev pub parse_bytes : ℕ → Bytes → ℤ → ℤ × Option ℕ
  parse_bytes len byte code =
      if leb len 1
      then (code, none)
      else if is_byte cr (byte 0) && is_byte lf (byte 1)
      then (code, some 2)
      else (let r =
            status_from len len 0 byte
              (record { state = parse_protocol; code_str = []; code = code }) in
          (r.0.code, r.1))

  -- The new response code, and the length of the line.
  unfoldable pub parse_first_line : CircularBuffer → ℤ → ℤ × Option ℕ
  parse_first_line c code = parse_bytes c.len (λ i. byte_at i c) code

abbrev pub status_code_size : ℕ
status_code_size = 16

-- With `snprintf`; none is the abort on a code that is too long for its buffer.
abbrev pub build_first_line : (ℤ → Text) → ℤ → Option Text
build_first_line print_int code =
    if leb status_code_size (length (print_int code))
    then none
    else some (
        (((codes "HTTP/1.1 " ++ print_int code) ++ space ∷ []) ++ get_response_string code)
        ++ cr ∷ lf ∷ [])
