-- ===== src/Http/States.antt =====
-- src/HttpHeaderBase.cpp: the states of `parseLine` on the text of a field.
use jhcommon.Prelude.{
  ℕ, suc, ◌+◌, ◌≡◌, refl, sym, ◌∙◌, Bool, true, false, ◌||◌, some, [], ◌∷◌, ◌++◌, length, get_elem?,
  drop, ◌==◌, arith, append_assoc, append-nil,
}
use jhcommon.Prelude.Text.{Text, Lacks, Lacks-cons}
use jhcommon.Http.Lines.{line_text, first, byte_of_drop, byte_first}
use jhcommon.Http.{
  cr, lf, space, tab, colon, is_blank, ParseState, parse_field, parse_data, parse_crlf, skip_ws,
  Scan, scan_byte, ends_line, parse_from, start_scan,
}

-- the scan behind a field name, with this much of the value read
abbrev pub in_state : ParseState → Text → Text → Bool → Scan
in_state state field value append_space = record {
  state = state;
  field = field;
  value = value;
  append_space = append_space;
}

module _ (s : Text) (n i c : ℕ) (scan scan' : Scan) where
  parse_from-step :
      get_elem? s i ≡ some c
      → ends_line scan.state c (get_elem? s (suc i)) ≡ false
      → scan_byte scan.state c (get_elem? s (suc i)) scan ≡ scan'
      → parse_from (suc n) i (get_elem? s) scan ≡ parse_from n (suc i) (get_elem? s) scan'
  unfolding parse_from
  parse_from-step here go_on e = rw (here, parse_from, go_on, e) refl

  parse_from-stop :
      get_elem? s i ≡ some c
      → ends_line scan.state c (get_elem? s (suc i)) ≡ true
      → parse_from (suc n) i (get_elem? s) scan ≡ some (scan, suc i)
  unfolding parse_from
  parse_from-stop here stop = rw (here, parse_from, stop) refl

module _ (s : Text) where
  -- the LF that ends the field
  parse_from-end :
      (i : ℕ) (field value : Text) (flag : Bool) (r : Text)
      → is_blank (first r) ≡ false
      → drop i s ≡ lf ∷ r
      → parse_from (suc (length r)) i (get_elem? s) (in_state parse_crlf field value flag)
        ≡ some (in_state parse_crlf field value flag, suc i)
  parse_from-end i field value flag r end e =
      let (here, e1) = byte_of_drop s i lf r e in
      parse_from-stop s (length r) i lf (in_state parse_crlf field value flag) start_scan here
        (rw (byte_first s (suc i) r e1, end) refl)

  parse_from-value :
      (i : ℕ) (field value rest r : Text)
      → Lacks cr rest
      → is_blank (first r) ≡ false
      → drop i s ≡ line_text rest r
      → parse_from
          (length (line_text rest r))
          i
          (get_elem? s)
          (in_state parse_data field value false)
        ≡ some (in_state parse_crlf field (value ++ rest) true, suc (suc (i + length rest)))
  unfolding scan_byte
  parse_from-value i field value [] r h end e =
      let (here, e1) = byte_of_drop s i cr (lf ∷ r) e in
      let (next, e2) = byte_of_drop s (suc i) lf r e1 in
      let n : i + 0 ≡ i = omega arith in
      rw (n, append-nil value)
        (parse_from-step s (suc (length r)) i cr (in_state parse_data field value false)
            (in_state parse_crlf field value true) here refl (rw next refl)
          ∙ parse_from-end (suc i) field value true r end e1)
  parse_from-value i field value (c ∷ rest) r h end e =
      let (ne, h') = Lacks-cons cr c rest h in
      let (here, e1) = byte_of_drop s i c (line_text rest r) e in
      let n : i + suc (length rest) ≡ suc i + length rest = omega arith in
      rw (n, sym (append_assoc value (c ∷ []) rest))
        (parse_from-step s (length (line_text rest r)) i c (in_state parse_data field value false)
            (in_state parse_data field (value ++ c ∷ []) false) here refl (rw ne refl)
          ∙ parse_from-value (suc i) field (value ++ c ∷ []) rest r h' end e1)

  -- the blank behind the colon, and the first byte of the value
  parse_from-blank :
      (i : ℕ) (field value r : Text)
      → Lacks cr value
      → is_blank (first value) ≡ false
      → is_blank (first r) ≡ false
      → drop i s ≡ space ∷ line_text value r
      → (flag : Bool) × (parse_from
            (suc (length (line_text value r)))
            i
            (get_elem? s)
            (in_state skip_ws field [] false)
          ≡ some (in_state parse_crlf field value flag, suc (suc (suc i + length value))))
  unfolding scan_byte
  parse_from-blank i field [] r h start end e =
      let (here, e1) = byte_of_drop s i space (cr ∷ lf ∷ r) e in
      let (here', e2) = byte_of_drop s (suc i) cr (lf ∷ r) e1 in
      let (next, e3) = byte_of_drop s (suc (suc i)) lf r e2 in
      let n : suc i + 0 ≡ suc i = omega arith in
      let scan = in_state skip_ws field [] false in
      (
        false,
        rw n (
            parse_from-step s (suc (suc (length r))) i space scan scan here refl refl
            ∙ parse_from-step s (suc (length r)) (suc i) cr scan
                (in_state parse_crlf field [] false) here' refl (rw next refl)
            ∙ parse_from-end (suc (suc i)) field [] false r end e2),
      )
  parse_from-blank i field (c ∷ value) r h start end e =
      let (ne, h') = Lacks-cons cr c value h in
      let (here, e1) = byte_of_drop s i space (line_text (c ∷ value) r) e in
      let (here', e2) = byte_of_drop s (suc i) c (line_text value r) e1 in
      let n : suc i + suc (length value) ≡ suc (suc i) + length value = omega arith in
      let scan = in_state skip_ws field [] false in
      let not_blank : (c == tab || c == space) ≡ false = ground arith in
      (
        true,
        rw n (
            parse_from-step s (suc (length (line_text value r))) i space scan scan here refl refl
            ∙ parse_from-step s (length (line_text value r)) (suc i) c scan
                (in_state parse_data field (c ∷ []) false) here' refl (rw (ne, not_blank) refl)
            ∙ parse_from-value (suc (suc i)) field (c ∷ []) value r h' end e2),
      )

  pub parse_from-field :
      (i : ℕ) (field name value r : Text)
      → Lacks colon name
      → Lacks cr value
      → is_blank (first value) ≡ false
      → is_blank (first r) ≡ false
      → drop i s ≡ name ++ colon ∷ space ∷ line_text value r
      → (flag : Bool) × (parse_from
            (length (name ++ colon ∷ space ∷ line_text value r))
            i
            (get_elem? s)
            (in_state parse_field field [] false)
          ≡ some (
            in_state parse_crlf (field ++ name) value flag,
            suc (suc (suc (suc (i + length name)) + length value)),
          ))
  unfolding scan_byte
  parse_from-field i field [] value r hn h start end e =
      let (here, e1) = byte_of_drop s i colon (space ∷ line_text value r) e in
      let (flag, rest) = parse_from-blank (suc i) field value r h start end e1 in
      let n : i + 0 ≡ i = omega arith in
      (
        flag,
        rw (n, append-nil field)
            (parse_from-step s (suc (length (line_text value r))) i colon
                (in_state parse_field field [] false) (in_state skip_ws field [] false) here refl
                refl
              ∙ rest),
      )
  parse_from-field i field (c ∷ name) value r hn h start end e =
      let (ne, hn') = Lacks-cons colon c name hn in
      let (here, e1) = byte_of_drop s i c (name ++ colon ∷ space ∷ line_text value r) e in
      let (flag, rest) =
        parse_from-field (suc i) (field ++ c ∷ []) name value r hn' h start end e1 in
      let n : i + suc (length name) ≡ suc i + length name = omega arith in
      (
        flag,
        rw (n, sym (append_assoc field (c ∷ []) name))
            (parse_from-step s (length (name ++ colon ∷ space ∷ line_text value r)) i c
                (in_state parse_field field [] false)
                (in_state parse_field (field ++ c ∷ []) [] false) here refl (rw ne refl)
              ∙ rest),
      )
