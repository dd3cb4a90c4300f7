-- ===== src/CircularBuffer/Overflow.antt =====
-- `write_overflow` and `writeByte`: the ring keeps the newest bytes.
use jhcommon.Prelude.{
  ℕ, ◌+◌, ◌-◌, ◌≤◌, ◌≡◌, refl, sym, ap, ◌∙◌, some, none, List, ◌++◌, take, drop, min, length, arith,
  length-drop, dec_lt, lt→ltb, drop-append, drop-all, drop-take,
}
use jhcommon.CircularBuffer.{CircularBuffer, make_room, write_overflow, get_free_space}
use jhcommon.CircularBuffer.Inv.{IsValid, contents, length-contents}
use jhcommon.CircularBuffer.Read.{Removed, read_lem}
use jhcommon.CircularBuffer.Write.{write_internal_lem}

make_room_lem :
    (n : ℕ) {c : CircularBuffer}
    → IsValid c
    → n ≤ c.buffer_size
    → (c' : CircularBuffer) × (make_room n c ≡ some c') × Removed c (n - get_free_space c) c'
unfolding make_room
make_room_lem n {c} v h = elim (dec_lt (get_free_space c) n) [
  | yes full ↦
      let (c', e, w) = read_lem none (n - get_free_space c) v in
      let m : min (n - get_free_space c) c.len ≡ n - get_free_space c = omega arith in
      (c', rw (lt→ltb _ _ full, e), rw m at w)
  | no room ↦
      let z : n - get_free_space c ≡ 0 = omega arith in
      (
        c,
        ground arith,
        rw z (record {
          valid = v;
          bytes = refl;
          size_kept = refl;
          datas_kept = refl;
          woken = omega arith;
        }),
      )
]

newest :
    (old src : List ℕ) (size cap : ℕ)
    → length old ≤ cap
    → size ≤ length src
    → drop (length old + size - cap) (old ++ take size src)
      ≡ drop (min size cap - (cap - length old)) old ++ take (min size cap) (drop (size - cap) src)
newest old src size cap h k =
    let back : length old + size - cap - length old ≡ size - cap = omega arith in
    let kept : size - (size - cap) ≡ min size cap = omega arith in
    rw (drop-append, back, drop-take, kept)
      (ap (λ l. l ++ take (min size cap) (drop (size - cap) src)) older)
  where
    older : drop (length old + size - cap) old ≡ drop (min size cap - (cap - length old)) old
    older = elim (dec_lt cap size) [
      | yes big ↦ rw (
        drop-all (length old + size - cap) old (omega arith),
        drop-all (min size cap - (cap - length old)) old (omega arith),
      )
      | no fits ↦
          let e : min size cap - (cap - length old) ≡ length old + size - cap = omega arith in rw e
    ]

-- On a valid ring `write_overflow` never aborts, reports the whole size as written, and leaves
-- the newest bytes of the old contents followed by the new data, as many as the ring holds.
pub write_overflow_lem :
    (src : List ℕ) (size : ℕ) {c : CircularBuffer}
    → IsValid c
    → size ≤ length src
    → (c' : CircularBuffer) × (write_overflow src size c ≡ some (size, c'))
      × IsValid c'
      × (contents c' ≡ drop (c.len + size - c.buffer_size) (contents c ++ take size src))
      × (c'.buffer_size ≡ c.buffer_size)
unfolding write_overflow
write_overflow_lem src size {c} v h =
    let (c1, e1, r) = make_room_lem (min size c.buffer_size) v (omega arith) in
    let (c2, e2, w) =
      write_internal_lem (drop (size - c.buffer_size) src) (min size c.buffer_size) r.valid
        (omega (arith, length-drop (size - c.buffer_size) src)) in
    let held : c1.len ≡ c.len - (min size c.buffer_size - get_free_space c) =
      rw (length-contents, length-drop, length-contents) at (ap length r.bytes) in
    let all : min (min size c.buffer_size) (get_free_space c1) ≡ min size c.buffer_size =
      omega (arith, r.size_kept, held) in
    let back : min size c.buffer_size + (size - c.buffer_size) ≡ size = omega arith in
    (
      c2,
      rw (e1, e2, all, back),
      w.valid,
      rw all at w.bytes
          ∙ ap (λ l. l ++ take (min size c.buffer_size) (drop (size - c.buffer_size) src)) r.bytes
          ∙ sym (
              rw (length-contents) at
                (newest (contents c) src size c.buffer_size (omega (arith, length-contents c)) h)),
      w.size_kept ∙ r.size_kept,
    )
