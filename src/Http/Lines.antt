-- ===== src/Http/Lines.antt =====
-- `searchForLine` of src/HttpHeaderBase.cpp finds the end of a line and of its continuations.
use jhcommon.Prelude.{
  ℕ, zero, suc, ◌+◌, ◌<◌, ◌≡◌, refl, sym, ap, ◌∙◌, fun_ext, true, false, Option, none, some, List,
  [], ◌∷◌, ◌++◌, length, get_elem?, drop, ◌==◌, if◌then◌else◌, arith, length-append, All,
}
use jhcommon.Prelude.Text.{Text, Lacks, Lacks-cons}
use jhcommon.CircularBuffer.{CircularBuffer}
use jhcommon.CircularBuffer.Inv.{IsValid, contents, length-contents}
use jhcommon.CircularBuffer.Access.{byte_at}
use jhcommon.CircularBuffer.Access.Chunks.{byte_at_lem}
use jhcommon.Http.{Bytes, cr, lf, is_blank, search_cr, search_from, search_for_line}

-- `line` ended by CR and LF, with r behind it
abbrev pub line_text : Text → Text → Text
line_text line r = line ++ cr ∷ lf ∷ r

-- A line that is continued by the lines `more`, with r behind it.
abbrev pub folded : Text → List Text → Text → Text
folded line [] r = line_text line r
folded line (m ∷ more) r = line_text line (folded m more r)

abbrev pub first : Text → Option ℕ
first [] = none
first (c ∷ s) = some c

abbrev pub IsContinuation : Text → Type 0
IsContinuation m = Lacks cr m × (is_blank (first m) ≡ true)

pub byte_of_drop :
    (s : Text) (i c : ℕ) (r : Text)
    → drop i s ≡ c ∷ r
    → (get_elem? s i ≡ some c) × (drop (suc i) s ≡ r)
byte_of_drop [] zero c r e = cc
byte_of_drop (a ∷ s) zero c r e = (cc, cc)
byte_of_drop [] (suc i) c r e = cc
byte_of_drop (a ∷ s) (suc i) c r e = byte_of_drop s i c r e

pub byte_first : (s : Text) (i : ℕ) (r : Text) → drop i s ≡ r → get_elem? s i ≡ first r
byte_first [] zero r e = ap first e
byte_first (a ∷ s) zero r e = ap first e
byte_first [] (suc i) r e = ap first e
byte_first (a ∷ s) (suc i) r e = byte_first s i r e

folded_blank :
    (m : Text) (more : List Text) (r : Text)
    → is_blank (first m) ≡ true
    → is_blank (first (folded m more r)) ≡ true
folded_blank [] more r h = cc
folded_blank (c ∷ m) [] r h = h
folded_blank (c ∷ m) (n ∷ more) r h = h

-- From the start of a line that has no CR, the search comes to the byte behind its CR and LF.
module _ (s : Text) where
  search_from-line :
      (i : ℕ) (line r : Text)
      → Lacks cr line
      → drop i s ≡ line_text line r
      → search_from (length (line_text line r)) i search_cr (get_elem? s) ≡ (
          if suc (suc (i + length line)) == 2
          then some 0
          else if is_blank (first r)
          then search_from (length r) (suc (suc (i + length line))) search_cr (get_elem? s)
          else some (suc (suc (i + length line))))
  unfolding search_from
  search_from-line i [] r h e =
      let (here, e1) = byte_of_drop s i cr (lf ∷ r) e in
      let (next, e2) = byte_of_drop s (suc i) lf r e1 in
      let n : i + 0 ≡ i = omega arith in
      rw (here, search_from, next, byte_first s (suc (suc i)) r e2, n) refl
  search_from-line i (c ∷ line) r h e =
      let (ne, h') = Lacks-cons cr c line h in
      let (here, e1) = byte_of_drop s i c (line_text line r) e in
      let n : i + suc (length line) ≡ suc i + length line = omega arith in
      rw (here, search_from, ne, n) (search_from-line (suc i) line r h' e1)

  drop-line :
      (i : ℕ) (line r : Text)
      → drop i s ≡ line_text line r
      → drop (suc (suc (i + length line))) s ≡ r
  drop-line i [] r e =
      let n : i + 0 ≡ i = omega arith in
      rw n (byte_of_drop s (suc i) lf r (byte_of_drop s i cr (lf ∷ r) e).1).1
  drop-line i (c ∷ line) r e =
      let n : i + suc (length line) ≡ suc i + length line = omega arith in
      rw n (drop-line (suc i) line r (byte_of_drop s i c (line_text line r) e).1)

  search_from-folded :
      (i : ℕ) (line : Text) (more : List Text) (r : Text)
      → 0 < i + length line
      → Lacks cr line
      → All IsContinuation more
      → is_blank (first r) ≡ false
      → drop i s ≡ folded line more r
      → search_from (length (folded line more r)) i search_cr (get_elem? s)
        ≡ some (i + length (folded line more []))
  search_from-folded i line [] r pos h ok end e =
      let go_on : (suc (suc (i + length line)) == 2) ≡ false = ground arith in
      let n : suc (suc (i + length line)) ≡ i + length (line_text line []) =
        omega (arith, length-append line (cr ∷ lf ∷ [])) in
      rw (search_from-line i line r h e, go_on, end, n) refl
  search_from-folded i line (m ∷ more) r pos h ok end e =
      let go_on : (suc (suc (i + length line)) == 2) ≡ false = ground arith in
      let blank = folded_blank m more r ok.0.1 in
      let rest =
        search_from-folded (suc (suc (i + length line))) m more r (omega arith) ok.0.0 ok.1 end
          (drop-line i line (folded m more r) e) in
      let n : suc (suc (i + length line)) + length (folded m more [])
          ≡ i + length (folded line (m ∷ more) []) =
        omega (arith, length-append line (cr ∷ lf ∷ folded m more [])) in
      rw (search_from-line i line (folded m more r) h e, go_on, blank) (rest ∙ ap some n)

-- `byteAt` of a valid ring reads the bytes that it holds.
pub byte_at-contents :
    {c : CircularBuffer} → IsValid c → ◌≡◌ {A = Bytes} (λ i. byte_at i c) (get_elem? (contents c))
byte_at-contents v = fun_ext (λ i. byte_at_lem i v)

pub search_for_line-empty :
    {c : CircularBuffer} (r : Text)
    → IsValid c
    → contents c ≡ cr ∷ lf ∷ r
    → search_for_line c ≡ some 0
unfolding search_for_line
search_for_line-empty {c} r v e =
    let n : c.len ≡ length (cr ∷ lf ∷ r) = sym (length-contents c) ∙ ap length e in
    ap (λ b. search_from c.len 0 search_cr b) (byte_at-contents v)
    ∙ ap (λ k. search_from k 0 search_cr (get_elem? (contents c))) n
    ∙ search_from-line (contents c) 0 [] r refl e

-- On a valid ring that holds a header line, folded over as many lines as it may be, with more
-- behind it that does not begin with a blank, `searchForLine` gives the length of all its lines.
pub search_for_line-folded :
    {c : CircularBuffer} (line : Text) (more : List Text) (r : Text)
    → IsValid c
    → 0 < length line
    → Lacks cr line
    → All IsContinuation more
    → is_blank (first r) ≡ false
    → contents c ≡ folded line more r
    → search_for_line c ≡ some (length (folded line more []))
unfolding search_for_line
search_for_line-folded {c} line more r v pos h ok end e =
    let n : c.len ≡ length (folded line more r) = sym (length-contents c) ∙ ap length e in
    let zero_add : 0 + length (folded line more []) ≡ length (folded line more []) = omega arith in
    ap (λ b. search_from c.len 0 search_cr b) (byte_at-contents v)
    ∙ ap (λ k. search_from k 0 search_cr (get_elem? (contents c))) n
    ∙ search_from-folded (contents c) 0 line more r (omega arith) h ok end e
    ∙ ap some zero_add
