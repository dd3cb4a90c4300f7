-- ===== src/Http/Message.antt =====
-- The loop of src/HttpAgent.cpp that reads the fields of a response from the ring, and the text that
-- `buildHeader` of src/HttpHeaderBase.cpp makes: each the inverse of the other. A line that does not
-- parse stays in the ring, so the loop comes to it again; the loop takes fuel, a round for a line.
use jhcommon.Prelude.{
  ℕ, zero, suc, ◌+◌, ◌<◌, ◌≤◌, ◌≡◌, refl, sym, ap, ◌∙◌, true, false, Option, none, some, List, [],
  ◌∷◌, ◌++◌, length, drop, min, ◌==◌, ◌>>=◌, arith, append_assoc, append-nil, length-append, All,
  drop-append_length, drop-min-length,
}
use jhcommon.Prelude.Text.{Text, Lacks-append}
use jhcommon.CircularBuffer.{CircularBuffer, read}
use jhcommon.CircularBuffer.Inv.{IsValid, contents, length-contents}
use jhcommon.CircularBuffer.Read.{read_lem}
use jhcommon.Http.{
  cr, lf, space, colon, is_blank, Field, FieldMap, Header, failed, parsed, overrun, max_fields,
  search_for_line, parse_line, get_field_type_string, build_header, build_fields,
}
use jhcommon.Http.Lines.{line_text, first, search_for_line-folded, search_for_line-empty}
use jhcommon.Http.Parse.{Named, IsNamed, field_line, parse_line-field_line}

unfoldable pub read_fields : ℕ → CircularBuffer → Header → Option (CircularBuffer × Header)
read_fields zero c h = none
read_fields (suc fuel) c h = elim (search_for_line c) [
  | none ↦ some (c, h)
  | some n ↦ elim (n == 0) [
    | true ↦ some (c, h)
    | false ↦ elim (parse_line c h) [
      | failed ↦ read_fields fuel c h
      | overrun ↦ none
      | parsed len h' ↦ (do r ← read none len c; read_fields fuel r.2 h')
    ]
  ]
]

abbrev pub lines_text : List Named → Text → Text
lines_text [] r = r
lines_text (n ∷ ns) r = field_line n (lines_text ns r)

abbrev pub fields_of : List Named → List Field
fields_of [] = []
fields_of (n ∷ ns) = n.field ∷ fields_of ns

-- Each type has its name.
abbrev pub HasName : List FieldMap → Named → Type 0
HasName ms n = get_field_type_string ms n.field.type ≡ some n.name

build_fields-lines :
    (ms : List FieldMap) (ns : List Named) (str : Text)
    → All (HasName ms) ns
    → build_fields ms (fields_of ns) str ≡ some (str ++ lines_text ns (cr ∷ lf ∷ []))
unfolding build_fields
build_fields-lines ms [] str ok = refl
build_fields-lines ms (n ∷ ns) str ok = rw ok.0 (
    build_fields-lines ms ns
      ((((str ++ n.name) ++ colon ∷ space ∷ []) ++ n.field.value) ++ cr ∷ lf ∷ []) ok.1
    ∙ ap some (simp append_assoc))

name_first :
    (name r : Text) → is_blank (first name) ≡ false → is_blank (first (name ++ colon ∷ r)) ≡ false
name_first [] r h = refl
name_first (c ∷ name) r h = h

lines_start :
    (ms : List FieldMap) (ns : List Named) (body : Text)
    → All (IsNamed ms) ns
    → is_blank (first (lines_text ns (cr ∷ lf ∷ body))) ≡ false
lines_start ms [] body ok = refl
lines_start ms (n ∷ ns) body ok =
    name_first n.name (space ∷ line_text n.field.value (lines_text ns (cr ∷ lf ∷ body)))
      ok.0.name_start

line_assoc :
    (n : Named) (r : Text) → line_text (n.name ++ colon ∷ space ∷ n.field.value) r ≡ field_line n r
line_assoc n r = append_assoc n.name (colon ∷ space ∷ n.field.value) (cr ∷ lf ∷ r)

field_line-append : (n : Named) (r : Text) → field_line n r ≡ field_line n [] ++ r
field_line-append n r = simp append_assoc

nonzero : (n : ℕ) → 0 < n → (n == 0) ≡ false
nonzero n h = ground arith

-- One line of the loop.
read_fields-line :
    (fuel : ℕ) {c : CircularBuffer} (n : Named) (r : Text) (h : Header)
    → IsValid c
    → IsNamed h.mappings n
    → length h.fields < max_fields
    → is_blank (first r) ≡ false
    → contents c ≡ field_line n r
    → (c' : CircularBuffer) × IsValid c'
      × (contents c' ≡ r)
      × (read_fields (suc fuel) c h
          ≡ read_fields fuel c' (record h { fields = h.fields ++ n.field ∷ [] }))
unfolding read_fields
read_fields-line fuel {c} n r h v named room end e =
    let line : Text = n.name ++ colon ∷ space ∷ n.field.value in
    let k = length (field_line n []) in
    let found =
      search_for_line-folded line [] r v
        (omega (arith, length-append n.name (colon ∷ space ∷ n.field.value)))
        (Lacks-append cr n.name (colon ∷ space ∷ n.field.value) named.name_line
          (rw named.value_line refl))
        tt end (e ∙ sym (line_assoc n r)) in
    let long : (length (line_text line []) == 0) ≡ false =
      nonzero (length (line_text line [])) (omega (arith, length-append line (cr ∷ lf ∷ []))) in
    let taken = parse_line-field_line n r h v named room end e in
    let (c', removed, w) = read_lem none k v in
    let left : contents c' ≡ r =
      w.bytes
      ∙ ap (λ m. drop (min k m) (contents c)) (sym (length-contents c))
      ∙ drop-min-length k (contents c)
      ∙ ap (drop k) (e ∙ field_line-append n r)
      ∙ drop-append_length (field_line n []) r in
    (c', w.valid, left, rw (found, read_fields, long, taken, removed) refl)

-- On a valid ring that holds the lines of fields, an empty line and a body, the loop ends with
-- the fields added in their order, as long as there are slots, and with the empty line and the
-- body left in the ring.
pub read_fields-lines_text :
    (fuel : ℕ) {c : CircularBuffer} (ns : List Named) (body : Text) (h : Header)
    → length ns < fuel
    → IsValid c
    → All (IsNamed h.mappings) ns
    → length h.fields + length ns ≤ max_fields
    → contents c ≡ lines_text ns (cr ∷ lf ∷ body)
    → (c' : CircularBuffer) × (read_fields fuel c h
        ≡ some (c', record h { fields = h.fields ++ fields_of ns }))
      × IsValid c'
      × (contents c' ≡ cr ∷ lf ∷ body)
unfolding read_fields
read_fields-lines_text zero ns body h f v ok room e = absurd (omega arith)
read_fields-lines_text (suc fuel) {c} [] body h f v ok room e =
    let stop = search_for_line-empty body v e in
    (c, rw (stop, read_fields, append-nil h.fields) refl, v, e)
read_fields-lines_text (suc fuel) {c} (n ∷ ns) body h f v ok room e =
    let (c1, v1, e1, step) =
      read_fields-line fuel n (lines_text ns (cr ∷ lf ∷ body)) h v ok.0 (omega arith)
        (lines_start h.mappings ns body ok.1) e in
    let h1 : Header = record h { fields = h.fields ++ n.field ∷ [] } in
    let (c2, rest, v2, e2) =
      read_fields-lines_text fuel ns body h1 (omega arith) v1 ok.1
        (omega (arith, length-append h.fields (n.field ∷ []))) e1 in
    (
      c2,
      step
          ∙ rest
          ∙ ap (λ fs. some (c2, record h { fields = fs }))
              (append_assoc h.fields (n.field ∷ []) (fields_of ns)),
      v2,
      e2,
    )

lines_text-append :
    (ns : List Named) (r body : Text) → lines_text ns r ++ body ≡ lines_text ns (r ++ body)
lines_text-append [] r body = refl
lines_text-append (n ∷ ns) r body =
    (simp append_assoc) ∙ ap (field_line n) (lines_text-append ns r body)

abbrev sent_str : Option Header → Text
sent_str none = []
sent_str (some h) = h.header_str

build_header-lines :
    (g : Header) (x : ℕ) (line : Text) (ns : List Named)
    → g.fields ≡ fields_of ns
    → All (HasName g.mappings) ns
    → build_header (x ∷ line) g
      ≡ some (record g { header_str = (x ∷ line) ++ lines_text ns (cr ∷ lf ∷ []) })
build_header-lines g x line ns e named =
    let built =
      ap (λ fs. build_fields g.mappings fs (x ∷ line)) e
      ∙ build_fields-lines g.mappings ns (x ∷ line) named in
    rw built refl

-- What `buildHeader` sends is read back: when the fields of a header are in a valid ring as it
-- builds them behind a first line that is not empty, with a body behind them, the loop ends with
-- these fields added in their order, and the empty line and the body left in the ring. Each type
-- has its name at the sender and each name its type at the receiver, no name or value has a NUL or
-- a CR or begins with a blank, no name has ':', and there are slots for all fields.
pub read_fields-build_header :
    (fuel : ℕ) {c : CircularBuffer} (ns : List Named) (x : ℕ) (line body : Text) (g sent h : Header)
    → length ns < fuel
    → IsValid c
    → g.fields ≡ fields_of ns
    → All (HasName g.mappings) ns
    → All (IsNamed h.mappings) ns
    → length h.fields + length ns ≤ max_fields
    → build_header (x ∷ line) g ≡ some sent
    → contents c ≡ drop (length (x ∷ line)) sent.header_str ++ body
    → (c' : CircularBuffer) × (read_fields fuel c h
        ≡ some (c', record h { fields = h.fields ++ fields_of ns }))
      × IsValid c'
      × (contents c' ≡ cr ∷ lf ∷ body)
read_fields-build_header fuel {c} ns x line body g sent h f v fields_are named ok room built e =
    let sent_text = ap sent_str (sym built ∙ build_header-lines g x line ns fields_are named) in
    read_fields-lines_text fuel ns body h f v ok room (
      e
      ∙ ap (λ s. drop (length (x ∷ line)) s ++ body) sent_text
      ∙ ap (λ s. s ++ body) (drop-append_length (x ∷ line) (lines_text ns (cr ∷ lf ∷ [])))
      ∙ lines_text-append ns (cr ∷ lf ∷ []) body)
