-- ===== src/Http/Response/FirstLine.antt =====
-- `parseFirstLine` of src/HttpResponse.cpp on what `buildFirstLine` writes.
use jhcommon.Prelude.{
  ℕ, zero, suc, ◌+◌, ◌<◌, ◌≡◌, refl, sym, ap, ◌∙◌, Bool, true, false, some, [], ◌∷◌, ◌++◌, length,
  get_elem?, drop, ltb, lt→ltb, ◌==◌, arith, append_assoc, append-nil,
}
use jhcommon.Prelude.Int.{ℤ}
use jhcommon.Prelude.Text.{Text, Lacks, Lacks-cons}
use jhcommon.Http.Lines.{first, byte_of_drop, byte_first}
use jhcommon.Http.{cr, lf, space, is_byte, c_str}
use jhcommon.Http.Response.{
  StatusState, parse_protocol, seek_status_code, parse_status_code, seek_status_text,
  parse_status_text, Status, goes, ends, is_error, line_end, status_byte, status_from,
}

abbrev pub in_state : StatusState → Text → ℤ → Status
in_state state code_str code = record { state = state; code_str = code_str; code = code }

pub drop-past : (s : Text) (i : ℕ) (p r : Text) → drop i s ≡ p ++ r → drop (i + length p) s ≡ r
drop-past s i [] r e = let n : i + 0 ≡ i = omega arith in rw n e
drop-past s i (c ∷ p) r e =
    let n : i + suc (length p) ≡ suc i + length p = omega arith in
    rw n (drop-past s (suc i) p r (byte_of_drop s i c (p ++ r) e).1)

pub get_elem?-below : (s : Text) (i c : ℕ) → get_elem? s i ≡ some c → i < length s
get_elem?-below [] i c h = cc
get_elem?-below (x ∷ s) zero c h = omega arith
get_elem?-below (x ∷ s) (suc i) c h = let b = get_elem?-below s i c h in omega arith

module _ (strtol : Text → ℤ × Bool) (len : ℕ) (s : Text) where
  status_from-goes :
      (n i c : ℕ) (v w : Status)
      → get_elem? s i ≡ some c
      → is_error v.state ≡ false
      → status_byte strtol v.state c v ≡ goes w
      → status_from strtol len (suc n) i (get_elem? s) v
        ≡ status_from strtol len n (suc i) (get_elem? s) w
  unfolding status_from
  status_from-goes n i c v w here fine e = rw (status_from, fine, here, e) refl

  status_from-ends :
      (n i c : ℕ) (v w : Status)
      → get_elem? s i ≡ some c
      → is_error v.state ≡ false
      → status_byte strtol v.state c v ≡ ends w
      → status_from strtol len (suc n) i (get_elem? s) v
        ≡ (w, some (line_end len w.code (get_elem? s) (suc i)))
  unfolding status_from
  status_from-ends n i c v w here fine e = rw (status_from, fine, here, e) refl

  -- the protocol
  pub status_from-protocol :
      (i : ℕ) (p r : Text) (code : ℤ)
      → Lacks space p
      → drop i s ≡ p ++ r
      → status_from strtol len (length (p ++ r)) i (get_elem? s) (in_state parse_protocol [] code)
        ≡ status_from strtol len
            (length r)
            (i + length p)
            (get_elem? s)
            (in_state parse_protocol [] code)
  unfolding status_byte
  status_from-protocol i [] r code h e = let n : i + 0 ≡ i = omega arith in rw n refl
  status_from-protocol i (c ∷ p) r code h e =
      let (ne, h') = Lacks-cons space c p h in
      let (here, e1) = byte_of_drop s i c (p ++ r) e in
      let n : i + suc (length p) ≡ suc i + length p = omega arith in
      let st = in_state parse_protocol [] code in
      rw n (
        status_from-goes (length (p ++ r)) i c st st here refl (rw ne refl)
        ∙ status_from-protocol (suc i) p r code h' e1)

  -- the digits behind the first one
  status_from-code :
      (i : ℕ) (done ds r : Text) (code : ℤ)
      → Lacks space ds
      → drop i s ≡ ds ++ r
      → status_from strtol len
          (length (ds ++ r))
          i
          (get_elem? s)
          (in_state parse_status_code done code)
        ≡ status_from strtol len
            (length r)
            (i + length ds)
            (get_elem? s)
            (in_state parse_status_code (done ++ ds) code)
  unfolding status_byte
  status_from-code i done [] r code h e =
      let n : i + 0 ≡ i = omega arith in rw (n, append-nil done) refl
  status_from-code i done (c ∷ ds) r code h e =
      let (ne, h') = Lacks-cons space c ds h in
      let (here, e1) = byte_of_drop s i c (ds ++ r) e in
      let n : i + suc (length ds) ≡ suc i + length ds = omega arith in
      rw (n, sym (append_assoc done (c ∷ []) ds))
        (status_from-goes (length (ds ++ r)) i c (in_state parse_status_code done code)
            (in_state parse_status_code (done ++ c ∷ []) code) here refl (rw ne refl)
          ∙ status_from-code (suc i) (done ++ c ∷ []) ds r code h' e1)

  -- the text behind its first byte, up to the CR
  status_from-text :
      (i : ℕ) (str t r : Text) (code : ℤ)
      → Lacks cr t
      → Lacks lf t
      → drop i s ≡ t ++ cr ∷ r
      → status_from strtol len
          (length (t ++ cr ∷ r))
          i
          (get_elem? s)
          (in_state parse_status_text str code)
        ≡ (
          in_state parse_status_text str code,
          some (line_end len code (get_elem? s) (suc (i + length t))),
        )
  unfolding status_byte
  status_from-text i str [] r code h k e =
      let (here, e1) = byte_of_drop s i cr r e in
      let n : i + 0 ≡ i = omega arith in
      let st = in_state parse_status_text str code in
      rw n (status_from-ends (length r) i cr st st here refl refl)
  status_from-text i str (c ∷ t) r code h k e =
      let (ne, h') = Lacks-cons cr c t h in
      let (ne2, k') = Lacks-cons lf c t k in
      let (here, e1) = byte_of_drop s i c (t ++ cr ∷ r) e in
      let n : i + suc (length t) ≡ suc i + length t = omega arith in
      let st = in_state parse_status_text str code in
      rw n (
        status_from-goes (length (t ++ cr ∷ r)) i c st st here refl (rw (ne, ne2) refl)
        ∙ status_from-text (suc i) str t r code h' k' e1)

  -- the end of the line, where no empty line is skipped behind it
  line_end-crlf :
      (i : ℕ) (r : Text) (code : ℤ)
      → len ≡ length s
      → is_byte cr (first r) ≡ false
      → drop i s ≡ lf ∷ r
      → line_end len code (get_elem? s) i ≡ suc i
  line_end-crlf i r code l h e =
      let (here, e1) = byte_of_drop s i lf r e in
      let next : is_byte cr (get_elem? s (suc i)) ≡ false = rw (byte_first s (suc i) r e1) h in
      let inside : ltb i len ≡ true = rw l (lt→ltb i (length s) (get_elem?-below s i lf here)) in
      rw (inside, here) (grind (arith, next))

  pub status_from-line :
      (i d t : ℕ) (ds ts r : Text) (code code0 : ℤ)
      → len ≡ length s
      → (d == space) ≡ false
      → Lacks space ds
      → strtol (c_str (d ∷ ds)) ≡ (code, true)
      → (t == space) ≡ false
      → Lacks cr (t ∷ ts)
      → Lacks lf (t ∷ ts)
      → is_byte cr (first r) ≡ false
      → drop i s ≡ space ∷ d ∷ (ds ++ space ∷ t ∷ (ts ++ cr ∷ lf ∷ r))
      → status_from strtol len
          (length (space ∷ d ∷ (ds ++ space ∷ t ∷ (ts ++ cr ∷ lf ∷ r))))
          i
          (get_elem? s)
          (in_state parse_protocol [] code0)
        ≡ (in_state parse_status_text (d ∷ ds) code, some (i + length ds + length ts + 6))
  unfolding status_byte
  status_from-line i d t ds ts r code code0 l nd hd conv nt hc hl end e =
      let (s0, e1) = byte_of_drop s i space (d ∷ (ds ++ space ∷ t ∷ (ts ++ cr ∷ lf ∷ r))) e in
      let (s1, e2) = byte_of_drop s (suc i) d (ds ++ space ∷ t ∷ (ts ++ cr ∷ lf ∷ r)) e1 in
      let j = suc (suc i) + length ds in
      let e3 = drop-past s (suc (suc i)) ds (space ∷ t ∷ (ts ++ cr ∷ lf ∷ r)) e2 in
      let (s3, e4) = byte_of_drop s j space (t ∷ (ts ++ cr ∷ lf ∷ r)) e3 in
      let (s4, e5) = byte_of_drop s (suc j) t (ts ++ cr ∷ lf ∷ r) e4 in
      let e6 = drop-past s (suc (suc j)) ts (cr ∷ lf ∷ r) e5 in
      let (s6, e7) = byte_of_drop s (suc (suc j) + length ts) cr (lf ∷ r) e6 in
      let (nc, hc') = Lacks-cons cr t ts hc in
      let (nl, hl') = Lacks-cons lf t ts hl in
      let n : suc (suc (suc (suc j) + length ts)) ≡ i + length ds + length ts + 6 = omega arith in
      status_from-goes (length (d ∷ (ds ++ space ∷ t ∷ (ts ++ cr ∷ lf ∷ r)))) i space
        (in_state parse_protocol [] code0) (in_state seek_status_code [] code0) s0 refl refl
      ∙ status_from-goes (length (ds ++ space ∷ t ∷ (ts ++ cr ∷ lf ∷ r))) (suc i) d
          (in_state seek_status_code [] code0) (in_state parse_status_code (d ∷ []) code0) s1 refl
          (rw nd refl)
      ∙ status_from-code (suc (suc i)) (d ∷ []) ds (space ∷ t ∷ (ts ++ cr ∷ lf ∷ r)) code0 hd e2
      ∙ status_from-goes (length (t ∷ (ts ++ cr ∷ lf ∷ r))) j space
          (in_state parse_status_code (d ∷ ds) code0) (in_state seek_status_text (d ∷ ds) code) s3
          refl (rw conv refl)
      ∙ status_from-goes (length (ts ++ cr ∷ lf ∷ r)) (suc j) t
          (in_state seek_status_text (d ∷ ds) code) (in_state parse_status_text (d ∷ ds) code) s4
          refl (rw (nt, nc, nl) refl)
      ∙ status_from-text (suc (suc j)) (d ∷ ds) ts (lf ∷ r) code hc' hl' e5
      ∙ ap (λ k. (in_state parse_status_text (d ∷ ds) code, some k))
          (line_end-crlf (suc (suc (suc j) + length ts)) r code l end e7 ∙ n)
