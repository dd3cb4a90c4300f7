-- ===== src/Http/Parse.antt =====
-- `parseLine` of src/HttpHeaderBase.cpp on the line of a field.
use jhcommon.Prelude.{
  ℕ, suc, ◌+◌, ◌<◌, ◌≡◌, refl, sym, ap, ap₂, ◌∙◌, false, some, List, [], ◌∷◌, ◌++◌, length,
  get_elem?, lt→ltb, arith, length-append,
}
use jhcommon.Prelude.Text.{Text, Lacks, Lacks-cons}
use jhcommon.CircularBuffer.{CircularBuffer}
use jhcommon.CircularBuffer.Inv.{IsValid, contents, length-contents}
use jhcommon.Http.Lines.{line_text, first, byte_at-contents}
use jhcommon.Http.{
  Header, parsed, Field, FieldMap, get_field_type, end_line, max_fields, c_str, cr, lf, space,
  colon, is_blank, parse_crlf, Scan, parse_from, start_scan, parse_line, parsed_line,
}
use jhcommon.Http.States.{in_state, parse_from-field}

pub c_str-Lacks : (s : Text) → Lacks 0 s → c_str s ≡ s
c_str-Lacks [] h = refl
c_str-Lacks (c ∷ s) h = let (ne, h') = Lacks-cons 0 c s h in rw ne (ap (◌∷◌ c) (c_str-Lacks s h'))

end_line_known :
    (h : Header) (s : Scan) (k t : ℕ)
    → get_field_type h.mappings (c_str s.field) ≡ some t
    → length h.fields < max_fields
    → end_line h (s, k)
      ≡ parsed k (record h { fields = h.fields ++ record { type = t; value = c_str s.value } ∷ [] })
end_line_known h s k t e room =
    let free = lt→ltb (length h.fields) max_fields room in rw (e, free) refl

-- a field with its name, as a line of a header can hold it
pub record Named : Type 0 where
  pub name : Text
  pub field : Field

pub record IsNamed (ms : List FieldMap) (n : Named) : Type 0 where
  pub name_ended : Lacks colon n.name
  pub name_line : Lacks cr n.name
  pub name_text : Lacks 0 n.name
  pub name_start : is_blank (first n.name) ≡ false
  pub value_line : Lacks cr n.field.value
  pub value_text : Lacks 0 n.field.value
  pub value_start : is_blank (first n.field.value) ≡ false
  pub typed : get_field_type ms n.name ≡ some n.field.type

-- the line of a field, with r behind it
abbrev pub field_line : Named → Text → Text
field_line n r = n.name ++ colon ∷ space ∷ line_text n.field.value r

-- On a valid ring that begins with the line of a field, and whose next line does not begin with a
-- blank, `parseLine` adds the field and gives the length of the line, while there is a slot.
pub parse_line-field_line :
    {c : CircularBuffer} (n : Named) (r : Text) (h : Header)
    → IsValid c
    → IsNamed h.mappings n
    → length h.fields < max_fields
    → is_blank (first r) ≡ false
    → contents c ≡ field_line n r
    → parse_line c h
      ≡ parsed (length (field_line n [])) (record h { fields = h.fields ++ n.field ∷ [] })
unfolding parse_line
parse_line-field_line {c} n r h v named room end e =
    let count : c.len ≡ length (field_line n r) = sym (length-contents c) ∙ ap length e in
    let (flag, scanned) =
      parse_from-field (contents c) 0 [] n.name n.field.value r named.name_ended named.value_line
        named.value_start end e in
    let total : suc (suc (suc (suc (0 + length n.name)) + length n.field.value))
        ≡ length (field_line n []) =
      omega (
        arith,
        length-append n.name (colon ∷ space ∷ line_text n.field.value []),
        length-append n.field.value (cr ∷ lf ∷ []),
      ) in
    let known : get_field_type h.mappings (c_str n.name) ≡ some n.field.type =
      ap (get_field_type h.mappings) (c_str-Lacks n.name named.name_text) ∙ named.typed in
    ap (λ b. parsed_line h (parse_from c.len 0 b start_scan)) (byte_at-contents v)
    ∙ ap (λ k. parsed_line h (parse_from k 0 (get_elem? (contents c)) start_scan)) count
    ∙ ap (parsed_line h) scanned
    ∙ end_line_known h (in_state parse_crlf n.name n.field.value flag) _ n.field.type known room
    ∙ ap₂
        (λ k value.
          parsed k
            (record h { fields = h.fields ++ record { type = n.field.type; value = value } ∷ [] }))
        total (c_str-Lacks n.field.value named.value_text)
