-- ===== src/CircularBuffer/Read.antt =====
-- `read`: how many bytes it removes, which, and that it never aborts on a valid ring.
use jhcommon.Prelude.{
  ℕ, ◌+◌, ◌-◌, ◌≤◌, ◌<◌, ◌≡◌, refl, sym, ap, ◌∙◌, some, none, List, ◌++◌, take, drop, min, length,
  arith, length-take, length-drop, dec_lt, ltb, ◌==◌, false, lt→ltb, if◌then◌else◌, ℕ_discrete,
  Option, blit, blit-nil, blit-append, take-append_length, drop-append_length, append-nil, [],
}
use jhcommon.CircularBuffer.{
  CircularBuffer, subtract_length, read, read_copy, read_advance, broadcast_free,
}
use jhcommon.CircularBuffer.Segment.{after, segment, segment-add, segment-take, length-segment}
use jhcommon.CircularBuffer.Inv.{IsValid, contents}

-- What `read` leaves in the caller's buffer.
abbrev pub filled : Option (List ℕ) → List ℕ → Option (List ℕ)
filled none bytes = none
filled (some dest) bytes = some (blit dest 0 bytes)

-- What removing the `n` oldest bytes leaves behind; waiting writers are woken once.
pub record Removed (c : CircularBuffer) (n : ℕ) (c' : CircularBuffer) : Type 0 where
  pub valid : IsValid c'
  pub bytes : contents c' ≡ drop n (contents c)
  pub size_kept : c'.buffer_size ≡ c.buffer_size
  pub datas_kept : c'.data_signals ≡ c.data_signals
  pub woken : c'.free_signals ≡ c.free_signals + min 1 n

module _ (n : ℕ) (c : CircularBuffer) (v : IsValid c) (held : n ≤ c.len) where
  abbrev start : ℕ
  start = after c.buffer_size c.read_ptr 0

  abbrev tail : ℕ
  tail = min (c.buffer_size - c.read_ptr) n

  split :
      contents c
      ≡ segment c.buffer c.buffer_size start n
        ++ segment c.buffer c.buffer_size (after c.buffer_size start n) (c.len - n)
  split =
      let e : n + (c.len - n) ≡ c.len = omega arith in
      rw e at (segment-add c.buffer c.buffer_size start n (c.len - n) (ground arith) (omega arith))

  pub take-contents : take n (contents c) ≡ segment c.buffer c.buffer_size start n
  take-contents = rw split (
      rw (length-segment) at (
        take-append_length (segment c.buffer c.buffer_size start n)
          (segment c.buffer c.buffer_size (after c.buffer_size start n) (c.len - n))))

  pub drop-contents :
      drop n (contents c) ≡ segment c.buffer c.buffer_size (after c.buffer_size start n) (c.len - n)
  drop-contents = rw split (
      rw (length-segment) at (
        drop-append_length (segment c.buffer c.buffer_size start n)
          (segment c.buffer c.buffer_size (after c.buffer_size start n) (c.len - n))))

  pub pieces :
      segment c.buffer c.buffer_size start n
      ≡ take tail (drop c.read_ptr c.buffer) ++ take (n - tail) c.buffer
  pieces = elim (dec_lt c.read_ptr c.buffer_size) [
    | yes h ↦ elim (dec_lt (c.buffer_size - c.read_ptr) n) [ yes w ↦ wraps h w | no w ↦ flat h w ]
    | no h ↦
        let s0 : start ≡ 0 = ground arith in
        let t0 : tail ≡ 0 = omega arith in
        let n0 : n - 0 ≡ n = omega arith in
        rw (s0, t0, n0, segment-take c.buffer c.buffer_size 0 n (omega arith) (omega arith))
  ]
    where
      flat :
          c.read_ptr < c.buffer_size
          → ¬ c.buffer_size - c.read_ptr < n
          → segment c.buffer c.buffer_size start n
            ≡ take tail (drop c.read_ptr c.buffer) ++ take (n - tail) c.buffer
      flat h w =
          let s0 : start ≡ c.read_ptr = ground arith in
          let t0 : tail ≡ n = omega arith in
          let n0 : n - n ≡ 0 = omega arith in
          rw (s0, t0, n0, append-nil)
            (segment-take c.buffer c.buffer_size c.read_ptr n (omega arith) (omega arith))

      wraps :
          c.read_ptr < c.buffer_size
          → c.buffer_size - c.read_ptr < n
          → segment c.buffer c.buffer_size start n
            ≡ take tail (drop c.read_ptr c.buffer) ++ take (n - tail) c.buffer
      wraps h w =
          let s0 : start ≡ c.read_ptr = ground arith in
          let a0 : after c.buffer_size c.read_ptr tail ≡ 0 = ground arith in
          let whole : tail + (n - tail) ≡ n = omega arith in
          let cut =
            segment-add c.buffer c.buffer_size c.read_ptr tail (n - tail) (omega arith)
              (omega arith) in
          rw s0 (
            rw whole at cut
            ∙ rw (
              a0,
              segment-take c.buffer c.buffer_size c.read_ptr tail (omega arith) (omega arith),
              segment-take c.buffer c.buffer_size 0 (n - tail) (omega arith) (omega arith),
            ))

  advanced :
      after c.buffer_size (if ltb tail n then n - tail else c.read_ptr + tail) 0
      ≡ after c.buffer_size start n
  advanced = ground arith

  read_copy-filled :
      (dest : Option (List ℕ)) → read_copy dest tail n c ≡ filled dest (take n (contents c))
  read_copy-filled none = ground arith
  read_copy-filled (some d) =
      let l : length (take tail (drop c.read_ptr c.buffer)) ≡ tail =
        omega
          (arith, length-take tail (drop c.read_ptr c.buffer), length-drop c.read_ptr c.buffer) in
      rw (take-contents, pieces)
        (elim (dec_lt tail n) [
          | yes w ↦ rw (lt→ltb _ _ w) (
              ap some (
                rw l at (
                  blit-append d (take tail (drop c.read_ptr c.buffer)) (take (n - tail) c.buffer))))
          | no w ↦
              let one : ltb tail n ≡ false = ground arith in
              let n0 : n - tail ≡ 0 = omega arith in rw (one, n0, append-nil)
        ])

  remove :
      0 < n
      → (c' : CircularBuffer) × (subtract_length n (read_advance tail n c) ≡ some c')
        × Removed c n (broadcast_free c')
  unfolding subtract_length
  remove pos = (
    record (read_advance tail n c) {
      len = c.len - n;
      write_ptr = if c.write_ptr == c.buffer_size then 0 else c.write_ptr;
    },
    ground arith,
    record {
      valid = ground arith;
      bytes = rw (advanced, drop-contents);
      size_kept = refl;
      datas_kept = refl;
      woken = omega arith;
    },
  )

pub filled-nil : (dest : Option (List ℕ)) → filled dest [] ≡ dest
filled-nil none = refl
filled-nil (some d) = ap some (blit-nil d 0)

pub read_lem :
    (dest : Option (List ℕ)) (size : ℕ) {c : CircularBuffer}
    → IsValid c
    → let n = min size c.len in
      (c' : CircularBuffer) × (read dest size c ≡ some (n, filled dest (take n (contents c)), c'))
      × Removed c n c'
unfolding read
read_lem dest size {c} v = elim (ℕ_discrete (min size c.len) 0) [
  | yes z ↦ rw z (
    c,
    ap (λ d. some (0, d, c)) (sym (filled-nil dest)),
    record { valid = v; bytes = refl; size_kept = refl; datas_kept = refl; woken = omega arith },
  )
  | no z ↦
      let (c', e, w) = remove (min size c.len) c v (omega arith) (omega arith) in
      (
        broadcast_free c',
        ground (arith, e, read_copy-filled (min size c.len) c v (omega arith) dest),
        w,
      )
]
