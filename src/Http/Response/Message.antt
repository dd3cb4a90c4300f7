-- ===== src/Http/Response/Message.antt =====
-- The first line of a response that src/HttpResponse.cpp writes is parsed to its code.
use jhcommon.Prelude.{
  ℕ, ◌+◌, ◌<◌, ◌≡◌, refl, sym, ap, ap₂, ◌∙◌, Bool, true, false, ◌&&◌, not, Bool-cases, inl, inr,
  some, List, [], ◌∷◌, ◌++◌, length, get_elem?, drop, leb, ◌==◌, arith, append_assoc, length-append,
}
use jhcommon.Prelude.Int.{ℤ, int_eq}
use jhcommon.Prelude.Text.{Text, codes, index_of, Lacks, Lacks-cons}
use jhcommon.CircularBuffer.{CircularBuffer}
use jhcommon.CircularBuffer.Inv.{IsValid, contents, length-contents}
use jhcommon.Http.Lines.{first, byte_at-contents}
use jhcommon.Http.{cr, lf, space, is_byte, c_str}
use jhcommon.Http.Response.{
  ResponseCode, response_codes, find_description, get_response_string, parse_bytes,
  parse_first_line, build_first_line, status_code_size, parse_protocol, status_from,
}
use jhcommon.Http.Response.FirstLine.{in_state, status_from-protocol, status_from-line}

abbrev pub lacks : ℕ → Text → Bool
lacks c [] = true
lacks c (x ∷ s) = not (x == c) && lacks c s

pub lacks-Lacks : (c : ℕ) (s : Text) → lacks c s ≡ true → Lacks c s
lacks-Lacks c [] h = refl
lacks-Lacks c (x ∷ s) h = elim (Bool-cases (x == c)) [
  | inl e ↦ ground (arith, rw e at h)
  | inr e ↦ rw (e, lacks-Lacks c s (ground arith)) refl
]

abbrev is_plain : Text → Bool
is_plain [] = false
is_plain (t ∷ ts) = not (t == space) && lacks cr (t ∷ ts) && lacks lf (t ∷ ts)

abbrev all_plain : List ResponseCode → Bool
all_plain [] = true
all_plain (r ∷ rs) = is_plain r.description && all_plain rs

codes_plain : all_plain response_codes ≡ true
unfolding response_codes
codes_plain = refl

find_description-plain :
    (code : ℤ) (rs : List ResponseCode)
    → all_plain rs ≡ true
    → is_plain (find_description code rs) ≡ true
find_description-plain code [] h = refl
find_description-plain code (r ∷ rs) h = elim (Bool-cases (int_eq r.code code)) [
  | inl e ↦ rw e (ground arith)
  | inr e ↦ rw e (find_description-plain code rs (ground arith))
]

plain_split :
    (x : Text)
    → is_plain x ≡ true
    → (t : ℕ) × (ts : Text) × (x ≡ t ∷ ts)
      × ((t == space) ≡ false)
      × Lacks cr (t ∷ ts)
      × Lacks lf (t ∷ ts)
plain_split [] h = ground (arith, h)
plain_split (t ∷ ts) h = (
  t,
  ts,
  refl,
  ground arith,
  lacks-Lacks cr (t ∷ ts) (ground arith),
  lacks-Lacks lf (t ∷ ts) (ground arith),
)

-- the line of a code's digits and its description
abbrev line_of : Text → Text → Text
line_of digits text = (((codes "HTTP/1.1 " ++ digits) ++ space ∷ []) ++ text) ++ cr ∷ lf ∷ []

line_of-split :
    (d t : ℕ) (ds ts r : Text)
    → line_of (d ∷ ds) (t ∷ ts) ++ r
      ≡ codes "HTTP/1.1" ++ space ∷ d ∷ (ds ++ space ∷ t ∷ (ts ++ cr ∷ lf ∷ r))
line_of-split d t ds ts r = simp append_assoc

length-line_of :
    (d t : ℕ) (ds ts : Text) → length (line_of (d ∷ ds) (t ∷ ts)) ≡ 8 + length ds + length ts + 6
length-line_of d t ds ts =
    let a =
      length-append (((codes "HTTP/1.1 " ++ d ∷ ds) ++ space ∷ []) ++ t ∷ ts) (cr ∷ lf ∷ []) in
    let b = length-append ((codes "HTTP/1.1 " ++ d ∷ ds) ++ space ∷ []) (t ∷ ts) in
    let c = length-append (codes "HTTP/1.1 " ++ d ∷ ds) (space ∷ []) in
    let e = length-append (codes "HTTP/1.1 ") (d ∷ ds) in omega arith

some_inj : {x y : Text} → some x ≡ some y → x ≡ y
some_inj e = cc

-- What `snprintf` and `strtol` do with a code.
pub record IsNumber (strtol : Text → ℤ × Bool) (code : ℤ) (digits : Text) : Type 0 where
  pub digit : ℕ
  pub digits1 : Text
  pub nonempty : digits ≡ digit ∷ digits1
  pub short : length digits < status_code_size
  pub no_space : Lacks space digits
  pub converts : strtol (c_str digits) ≡ (code, true)

module _ (strtol : Text → ℤ × Bool) where
  parse_bytes-line :
      (d t : ℕ) (ds ts r : Text) (code code0 : ℤ)
      → (d == space) ≡ false
      → Lacks space ds
      → strtol (c_str (d ∷ ds)) ≡ (code, true)
      → (t == space) ≡ false
      → Lacks cr (t ∷ ts)
      → Lacks lf (t ∷ ts)
      → is_byte cr (first r) ≡ false
      → (s : Text) → s ≡ codes "HTTP/1.1" ++ space ∷ d ∷ (ds ++ space ∷ t ∷ (ts ++ cr ∷ lf ∷ r))
      → parse_bytes strtol (length s) (get_elem? s) code0
        ≡ (code, some (8 + length ds + length ts + 6))
  parse_bytes-line d t ds ts r code code0 nd hd conv nt hc hl end s e =
      let rest = space ∷ d ∷ (ds ++ space ∷ t ∷ (ts ++ cr ∷ lf ∷ r)) in
      let long : leb (length s) 1 ≡ false = rw e (ground arith) in
      let h0 : get_elem? s 0 ≡ some 72 = ap (λ u. get_elem? u 0) e in
      let i = 0 + length (codes "HTTP/1.1") in
      let n : i + length ds + length ts + 6 ≡ 8 + length ds + length ts + 6 = omega arith in
      let scanned =
        ap (λ k. status_from strtol (length s) k 0 (get_elem? s) (in_state parse_protocol [] code0))
          (ap length e)
        ∙ status_from-protocol strtol (length s) s 0 (codes "HTTP/1.1") rest code0 refl e
        ∙ status_from-line strtol (length s) s i d t ds ts r code code0 refl nd hd conv nt hc hl end
            (ap (drop 8) e) in
      rw (long, h0) (ap (λ q. (q.0.code, q.1)) scanned ∙ ap (λ k. (code, some k)) n)

-- The first line that `buildFirstLine` writes for a code, at the start of the ring and with no CR
-- behind it, is parsed by `parseFirstLine` to that code and the line's length, whatever the code was
-- before. That `snprintf` writes a few characters, none of them a space, that `strtol` reads back is
-- the assumption on these two.
pub parse_first_line-build_first_line :
    (strtol : Text → ℤ × Bool) (print_int : ℤ → Text) (code code0 : ℤ) (line r : Text)
    → {c : CircularBuffer} → IsValid c
    → IsNumber strtol code (print_int code)
    → build_first_line print_int code ≡ some line
    → is_byte cr (first r) ≡ false
    → contents c ≡ line ++ r
    → parse_first_line strtol c code0 ≡ (code, some (length line))
unfolding parse_first_line get_response_string
parse_first_line-build_first_line strtol print_int code code0 line r {c} v num built end e =
    let (t, ts, split, nt, hc, hl) =
      plain_split (get_response_string code)
        (find_description-plain code response_codes codes_plain) in
    let fits : leb status_code_size (length (print_int code)) ≡ false =
      let short = num.short in ground arith in
    let digits = num.nonempty in
    let line_is : line_of (num.digit ∷ num.digits1) (t ∷ ts) ≡ line =
      ap₂ line_of (sym digits) (sym split) ∙ some_inj (rw fits at built) in
    let (nd, hd) =
      Lacks-cons space num.digit num.digits1 (ap (index_of space) (sym digits) ∙ num.no_space) in
    let conv : strtol (c_str (num.digit ∷ num.digits1)) ≡ (code, true) =
      ap (λ x. strtol (c_str x)) (sym digits) ∙ num.converts in
    let whole = e ∙ ap (λ l. l ++ r) (sym line_is) ∙ line_of-split num.digit t num.digits1 ts r in
    let size = ap length (sym line_is) ∙ length-line_of num.digit t num.digits1 ts in
    ap (λ b. parse_bytes strtol c.len b code0) (byte_at-contents v)
    ∙ ap (λ k. parse_bytes strtol k (get_elem? (contents c)) code0) (sym (length-contents c))
    ∙ parse_bytes-line strtol num.digit t num.digits1 ts r code code0 nd hd conv nt hc hl end
        (contents c) whole
    ∙ ap (λ k. (code, some k)) (sym size)
