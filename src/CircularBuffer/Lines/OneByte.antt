-- ===== src/CircularBuffer/Lines/OneByte.antt =====
-- `peekLine` and `getLine` with a terminal of one byte, such as the default "\n".
use mathlib.Core.Option
use jhcommon.Prelude.{
  ℕ, suc, ◌+◌, ◌-◌, ◌≤◌, ◌<◌, ◌≡◌, ◌≢◌, ◌⊎◌, refl, sym, ap, ap₂, ◌∙◌, Option, some, none, [], ◌∷◌,
  true, false, ◌&&◌, not, take, drop, length, ltb, ◌==◌, if◌then◌else◌, arith, ℕ_discrete,
  length-take, dec_lt, min,
}
use jhcommon.Prelude.Text.{index_of, index_of-lt}
use jhcommon.CircularBuffer.{CircularBuffer}
use jhcommon.CircularBuffer.Inv.{IsValid, contents, length-contents}
use jhcommon.CircularBuffer.Read.{read_lem, take-contents, pieces}
use jhcommon.CircularBuffer.Segment.{after, segment, segment-take}
use jhcommon.CircularBuffer.Lines.{
  Peeked, not_found, line, thrown, scan, line_at, found_line, peek_line, get_line,
}
use jhcommon.CircularBuffer.Lines.Scan.{Ends, scan-found, scan-missing}

-- Neither pointer stands at the end of the storage.
pub record IsInside (c : CircularBuffer) : Type 0 where
  pub valid : IsValid c
  pub read_inside : c.read_ptr < c.buffer_size
  pub write_inside : c.write_ptr < c.buffer_size

-- What `peekLine` makes of the first terminal in the bytes held. Behind a terminal that is the last
-- byte of a full ring, the scan's pointer is back at the read pointer.
abbrev pub expected : CircularBuffer → Option ℕ → Peeked
expected c none = not_found
expected c (some i) =
    if suc i == c.buffer_size && not (c.read_ptr == 0) then thrown else line (take i (contents c))

module _ (i : ℕ) {c : CircularBuffer} (v : IsInside c) (held : i < c.len) where
  abbrev last : ℕ
  last = after c.buffer_size c.read_ptr i

  line_at_flat : c.read_ptr + i < c.buffer_size → line_at 1 c last ≡ expected c (some i)
  unfolding line_at
  line_at_flat h =
      let at : last ≡ c.read_ptr + i = ground arith in
      let back : ltb (c.read_ptr + i + 1) c.read_ptr ≡ false = ground arith in
      let long : ltb (c.read_ptr + i + 1 - c.read_ptr) 1 ≡ false = ground arith in
      let size : c.read_ptr + i + 1 - c.read_ptr - 1 ≡ i = omega arith in
      let fits : (suc i == c.buffer_size && not (c.read_ptr == 0)) ≡ false = ground arith in
      let start : after c.buffer_size c.read_ptr 0 ≡ c.read_ptr = ground arith in
      rw (at, back, long, size, fits, take-contents i c v.valid (omega arith), start)
        (ap line
          (sym (segment-take c.buffer c.buffer_size c.read_ptr i (omega arith) (omega arith))))

  line_at_full :
      c.buffer_size ≤ c.read_ptr + i
      → suc i ≡ c.buffer_size
      → line_at 1 c last ≡ expected c (some i)
  unfolding line_at
  line_at_full h e =
      let at : last + 1 ≡ c.read_ptr = ground arith in
      let back : ltb c.read_ptr c.read_ptr ≡ false = ground arith in
      let long : ltb (c.read_ptr - c.read_ptr) 1 ≡ true = ground arith in
      let full : (suc i == c.buffer_size && not (c.read_ptr == 0)) ≡ true = ground arith in
      rw (at, back, long, full)

  line_at_wrapped :
      c.buffer_size ≤ c.read_ptr + i
      → suc i < c.buffer_size
      → line_at 1 c last ≡ expected c (some i)
  unfolding line_at
  line_at_wrapped h e =
      let back : ltb (last + 1) c.read_ptr ≡ true = ground arith in
      let long : ltb (last + 1) 1 ≡ false = ground arith in
      let tail : min (c.buffer_size - c.read_ptr) i ≡ c.buffer_size - c.read_ptr = omega arith in
      let size : last + 1 - 1 ≡ i - (c.buffer_size - c.read_ptr) = ground arith in
      let fits : (suc i == c.buffer_size && not (c.read_ptr == 0)) ≡ false = ground arith in
      rw (back, long, size, fits, take-contents i c v.valid (omega arith))
        (ap line (sym (rw tail at (pieces i c v.valid (omega arith)))))

  line_at_lem : line_at 1 c last ≡ expected c (some i)
  line_at_lem = elim (dec_lt (c.read_ptr + i) c.buffer_size) [
    | yes h ↦ line_at_flat h
    | no h ↦ elim (ℕ_discrete (suc i) c.buffer_size) [
      | yes e ↦ line_at_full (omega arith) e
      | no e ↦ line_at_wrapped (omega arith) (omega arith)
    ]
  ]

found_line_lem :
    {c : CircularBuffer} (o : Option ℕ)
    → IsInside c
    → ((i : ℕ) → o ≡ some i → i < c.len)
    → found_line 1 c (Option.map (after c.buffer_size c.read_ptr) o) ≡ expected c o
found_line_lem none v h = refl
found_line_lem (some i) v h = line_at_lem i v (h i refl)

scan_lem :
    (fuel t : ℕ) {c : CircularBuffer} (o : Option ℕ)
    → t < 128
    → IsInside c
    → 0 < c.len
    → c.len ≤ fuel
    → index_of t (contents c) ≡ o
    → scan fuel (t ∷ []) c c.read_ptr 0 ≡ some (Option.map (after c.buffer_size c.read_ptr) o)
scan_lem fuel t {c} o plain v some_len h = go o
  where
    start : after c.buffer_size c.read_ptr 0 ≡ c.read_ptr
    start = ground arith

    count : suc (c.len - 1) ≡ c.len
    count = omega arith

    held : contents c ≡ segment c.buffer c.buffer_size c.read_ptr (suc (c.len - 1))
    held = ap₂ (segment c.buffer c.buffer_size) start (sym count)

    ends : Ends t plain c v.write_inside fuel (c.len - 1) c.read_ptr
    ends = (v.read_inside, omega arith, omega arith, ground arith)

    go :
        (o : Option ℕ)
        → index_of t (contents c) ≡ o
        → scan fuel (t ∷ []) c c.read_ptr 0 ≡ some (Option.map (after c.buffer_size c.read_ptr) o)
    go none e =
        scan-missing t plain c v.write_inside (c.len - 1) fuel c.read_ptr ends
          (ap (index_of t) (sym held) ∙ e)
    go (some i) e =
        scan-found t plain c v.write_inside (c.len - 1) fuel c.read_ptr i ends
          (ap (index_of t) (sym held) ∙ e)

pub peek_line_lem :
    (fuel t : ℕ) {c : CircularBuffer}
    → t < 128
    → IsInside c
    → c.len ≤ fuel
    → peek_line fuel (t ∷ []) c ≡ some (expected c (index_of t (contents c)))
unfolding peek_line
peek_line_lem fuel t {c} plain v h = elim (ℕ_discrete c.len 0) [
  | yes z ↦ rw z
  | no some_len ↦
      let test : (c.len == 0) ≡ false = ground arith in
      rw (test, scan_lem fuel t (index_of t (contents c)) plain v (omega arith) h refl)
        (ap some (
          found_line_lem (index_of t (contents c)) v
            (λ i e. omega (arith, index_of-lt t (contents c) e, length-contents c))))
]

-- `getLine` then removes the line and its terminal, and reports their size; with no terminal it
-- reports 0 and changes nothing.
pub get_line_lem :
    (fuel t : ℕ) {c : CircularBuffer} (i : ℕ)
    → t < 128
    → IsInside c
    → c.len ≤ fuel
    → index_of t (contents c) ≡ some i
    → (suc i ≢ c.buffer_size) ⊎ (c.read_ptr ≡ 0)
    → (c' : CircularBuffer) × (get_line fuel (t ∷ []) c
        ≡ some (line (take i (contents c)), suc i, c'))
      × IsValid c'
      × (contents c' ≡ drop (suc i) (contents c))
unfolding get_line
get_line_lem fuel t {c} i plain v h e ok =
    let fits : (suc i == c.buffer_size && not (c.read_ptr == 0)) ≡ false = ground arith in
    let i_in : i < c.len = omega (arith, index_of-lt t (contents c) e, length-contents c) in
    let l : length (take i (contents c)) + 1 ≡ suc i =
      omega (arith, length-take i (contents c), length-contents c) in
    let m : min (suc i) c.len ≡ suc i = omega arith in
    let (c', r, w) = read_lem none (suc i) v.valid in
    (c', rw (peek_line_lem fuel t plain v h, e, fits, l, r, m), w.valid, rw m at w.bytes)
