-- ===== src/CircularBuffer/Write.antt =====
-- `write`: how many bytes it takes, which, and that it never aborts on a valid ring.
use jhcommon.Prelude.{
  ℕ, ◌+◌, ◌-◌, ◌≤◌, ◌<◌, ◌≡◌, ◌⊎◌, some, List, ◌++◌, take, drop, min, length, arith, length-blit,
  length-take, length-drop, take-add, dec_lt, blit, append_assoc, ◌∙◌, ap, sym, ltb, ◌==◌, true,
  false, lt→ltb, refl, ℕ_discrete, append-nil, if◌then◌else◌,
}
use jhcommon.CircularBuffer.{
  CircularBuffer, add_length, write_internal, get_free_space, write_copy, broadcast_data,
}
use jhcommon.CircularBuffer.Segment.{after, segment, segment-blit}
use jhcommon.CircularBuffer.Inv.{IsValid, contents, not_at_end}

-- The bytes of the ring with `n` more than it counts.
abbrev reach : CircularBuffer → ℕ → CircularBuffer → List ℕ
reach c n c' = segment c'.buffer c.buffer_size (after c.buffer_size c.read_ptr 0) (c.len + n)

-- What the two copies of `n` bytes do, before `mLen` counts them.
record Copied (c : CircularBuffer) (src : List ℕ) (n : ℕ) (c' : CircularBuffer) : Type 0 where
  bytes : reach c n c' ≡ contents c ++ take n src
  storage : length c'.buffer ≡ c.buffer_size
  read_kept : c'.read_ptr ≡ c.read_ptr
  len_kept : c'.len ≡ c.len
  size_kept : c'.buffer_size ≡ c.buffer_size
  frees_kept : c'.free_signals ≡ c.free_signals
  datas_kept : c'.data_signals ≡ c.data_signals
  inside : c'.write_ptr < c.buffer_size
  linked :
      (after c.buffer_size c.read_ptr 0 + (c.len + n) ≡ c'.write_ptr)
      ⊎ (after c.buffer_size c.read_ptr 0 + (c.len + n) ≡ c'.write_ptr + c.buffer_size)

-- What a write of the bytes `src` leaves behind; waiting readers are woken once.
pub record Wrote (c : CircularBuffer) (src : List ℕ) (c' : CircularBuffer) : Type 0 where
  pub valid : IsValid c'
  pub bytes : contents c' ≡ contents c ++ src
  pub size_kept : c'.buffer_size ≡ c.buffer_size
  pub frees_kept : c'.free_signals ≡ c.free_signals
  pub woken : c'.data_signals ≡ c.data_signals + min 1 (length src)

module _ (src : List ℕ) (n : ℕ) (c : CircularBuffer) (v : IsValid c) (pos : 0 < n)
    (fits : n ≤ get_free_space c) (given : n ≤ length src) where
  one_copy :
      n ≤ c.buffer_size - c.write_ptr
      → reach c n (record c { buffer = blit c.buffer c.write_ptr (take n src) })
        ≡ contents c ++ take n src
  one_copy h =
      let l : length (take n src) ≡ n = omega (arith, length-take n src) in
      rw l at (
        segment-blit (take n src) c.buffer c.buffer_size c.len (after c.buffer_size c.read_ptr 0)
          c.write_ptr (omega arith) (ground arith) (omega (arith, l)) (omega (arith, l))
          (λ _. ground arith))

  two_copies :
      (tail : ℕ)
      → tail ≡ c.buffer_size - c.write_ptr
      → tail < n
      → reach c n (record c {
        buffer =
            blit (blit c.buffer c.write_ptr (take tail src)) 0 (take (n - tail) (drop tail src));
      })
        ≡ contents c ++ take n src
  two_copies tail e h =
      let l : length (take tail src) ≡ tail = omega (arith, length-take tail src) in
      let m : length (take (n - tail) (drop tail src)) ≡ n - tail =
        omega (arith, length-take (n - tail) (drop tail src), length-drop tail src) in
      let first =
        segment-blit (take tail src) c.buffer c.buffer_size c.len (after c.buffer_size c.read_ptr 0)
          c.write_ptr (omega arith) (ground arith) (omega (arith, l)) (omega (arith, l))
          (λ _. ground arith) in
      let second =
        segment-blit (take (n - tail) (drop tail src)) (blit c.buffer c.write_ptr (take tail src))
          c.buffer_size (c.len + tail) (after c.buffer_size c.read_ptr 0) 0
          (omega (arith, length-blit c.buffer c.write_ptr (take tail src))) (ground arith)
          (omega (arith, m)) (omega (arith, m)) (λ _. ground arith) in
      let sum : c.len + tail + (n - tail) ≡ c.len + n = omega arith in
      let whole : tail + (n - tail) ≡ n = omega arith in
      rw (m, sum) at second
      ∙ ap (λ s. s ++ take (n - tail) (drop tail src)) (rw l at first)
      ∙ append_assoc (contents c) (take tail src) (take (n - tail) (drop tail src))
      ∙ ap (λ s. contents c ++ s) (sym (rw whole at (take-add tail (n - tail) src)))

  write_copy-Copied : Copied c src n (write_copy src n c)
  unfolding write_copy
  write_copy-Copied = elim (dec_lt (c.buffer_size - c.write_ptr) n) [
    | yes h ↦
        let t : min (c.buffer_size - c.write_ptr) n ≡ c.buffer_size - c.write_ptr = omega arith in
        let at_end : (c.write_ptr + (c.buffer_size - c.write_ptr) == c.buffer_size) ≡ true =
          ground arith in
        rw (t, lt→ltb _ _ h, at_end)
          (record {
            bytes = two_copies (c.buffer_size - c.write_ptr) refl h;
            storage = rw (length-blit, length-blit) v.storage;
            read_kept = refl;
            len_kept = refl;
            size_kept = refl;
            frees_kept = refl;
            datas_kept = refl;
            inside = omega (arith, not_at_end v (omega arith));
            linked = ground (arith, not_at_end v (omega arith));
          })
    | no h ↦
        let t : min (c.buffer_size - c.write_ptr) n ≡ n = omega arith in
        let one : ltb n n ≡ false = ground arith in
        rw (t, one)
          (record {
            bytes = one_copy (omega arith);
            storage = rw length-blit v.storage;
            read_kept = refl;
            len_kept = refl;
            size_kept = refl;
            frees_kept = refl;
            datas_kept = refl;
            inside = ground arith;
            linked = ground arith;
          })
  ]

  write_add_length :
      (c' : CircularBuffer)
      → Copied c src n c'
      → (c'' : CircularBuffer) × (add_length n c' ≡ some c'')
        × Wrote c (take n src) (broadcast_data c'')
  unfolding add_length
  write_add_length c' d =
      let same_start : after c.buffer_size (if c.read_ptr == c.buffer_size then 0 else c.read_ptr) 0
          ≡ after c.buffer_size c.read_ptr 0 =
        ground arith in
      (
        record c' {
          len = c.len + n;
          read_ptr = if c.read_ptr == c.buffer_size then 0 else c.read_ptr;
        },
        ground arith,
        record {
          valid = ground arith;
          bytes = rw (d.size_kept, same_start) d.bytes;
          size_kept = d.size_kept;
          frees_kept = ground arith;
          woken = omega (arith, length-take n src, d.datas_kept);
        },
      )

pub write_internal_lem :
    (src : List ℕ) (size : ℕ) {c : CircularBuffer}
    → IsValid c
    → size ≤ length src
    → let n = min size (get_free_space c) in
      (c' : CircularBuffer) × (write_internal (some src) size c ≡ some (n, c'))
      × Wrote c (take n src) c'
unfolding write_internal
write_internal_lem src size {c} v h = elim (ℕ_discrete (min size (get_free_space c)) 0) [
  | yes z ↦ rw z (
    c,
    refl,
    record {
      valid = v;
      bytes = sym (append-nil (contents c));
      size_kept = refl;
      frees_kept = refl;
      woken = omega arith;
    },
  )
  | no z ↦
      let (c', e, w) =
        write_add_length src (min size (get_free_space c)) c v (omega arith) (omega arith)
          (omega arith) _ (write_copy-Copied src _ c v (omega arith) (omega arith) (omega arith)) in
      (broadcast_data c', ground (arith, e), w)
]
