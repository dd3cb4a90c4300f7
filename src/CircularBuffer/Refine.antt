-- ===== src/CircularBuffer/Refine.antt =====
-- The ring refines the bounded queue of the bytes that it holds.
use mathlib.Core.Option
use jhcommon.Prelude.{
  ℕ, suc, ◌+◌, ◌≡◌, refl, ap, ◌∙◌, ◌==◌, ◌<◌, ◌≤◌, blit, true, false, Option, some, none, List, [],
  ◌∷◌, ◌++◌, length, arith, min, take, drop, replicate, set, length-set, take-all, take-blit,
  take-min-length, drop-min-length, length-take, length-replicate, if◌then◌else◌, ◌>>=◌, ℕ_discrete,
}
use jhcommon.CircularBuffer.Fifo
use jhcommon.CircularBuffer.Fifo.{Op, Reply, count, bytes, accepted, done}
use jhcommon.CircularBuffer.Inv.{IsValid, contents, length-contents, clear-IsValid, not_at_end}
use jhcommon.CircularBuffer.Overflow.{write_overflow_lem}
use jhcommon.CircularBuffer.Read.{read_lem}
use jhcommon.CircularBuffer.Segment.{after, segment-set}
use jhcommon.CircularBuffer.Write.{write_internal_lem}
use jhcommon.CircularBuffer.{
  CircularBuffer, write_internal, write_overflow, write_byte, add_length, read, clear,
  get_free_space,
}

-- A call on the ring. A `read` copies to a buffer of the size that it asks for.
pub step : Op → CircularBuffer → Option (Reply × CircularBuffer)
step (Op.write src) c = do r ← write_internal (some src) (length src) c; some (count r.0, r.1)
step (Op.write_overflow src) c = do r ← write_overflow src (length src) c; some (count r.0, r.1)
step (Op.write_byte b) c = do r ← write_byte b c; some (accepted r.0, r.1)
step (Op.read n) c = do
  r ← read (some (replicate n 0)) n c
  some (bytes (take r.0 (Option.get_or r.1 [])), r.2)
step (Op.discard n) c = do r ← read none n c; some (count r.0, r.2)
step Op.clear c = some (done, clear c)

pub run : List Op → CircularBuffer → Option (List Reply)
run [] c = some []
run (op ∷ ops) c = do r ← step op c; rest ← run ops r.1; some (r.0 ∷ rest)

write_byte-full :
    (b : ℕ) (c : CircularBuffer) → get_free_space c ≡ 0 → write_byte b c ≡ some (false, c)
unfolding write_byte
write_byte-full b c h = rw h

write_byte-room :
    (b : ℕ) {c : CircularBuffer}
    → IsValid c
    → 0 < get_free_space c
    → (c' : CircularBuffer) × (write_byte b c ≡ some (true, c'))
      × IsValid c'
      × (contents c' ≡ contents c ++ b ∷ [])
      × (c'.buffer_size ≡ c.buffer_size)
unfolding write_byte add_length
write_byte-room b {c} v h =
    let start = after c.buffer_size c.read_ptr 0 in
    let read' = if c.read_ptr == c.buffer_size then 0 else c.read_ptr in
    let write' = if c.write_ptr + 1 == c.buffer_size then 0 else c.write_ptr + 1 in
    let buffer' = set c.buffer c.write_ptr b in
    let stored : length buffer' ≡ c.buffer_size = length-set c.buffer c.write_ptr b ∙ v.storage in
    let start' : after c.buffer_size read' 0 ≡ start = ground arith in
    let more : c.len + 1 ≡ suc c.len = omega arith in
    let at_end : c.write_ptr < c.buffer_size = not_at_end v h in
    (
      record c {
        buffer = buffer';
        write_ptr = write';
        read_ptr = read';
        len = c.len + 1;
        data_signals = c.data_signals + 1;
      },
      ground arith,
      ground (arith, stored, at_end),
      rw (start', more)
          (segment-set c.buffer c.buffer_size c.len start c.write_ptr b (omega arith) (ground arith)
            (omega arith) (ground arith)),
      refl,
    )

-- What the step of the ring and the step of the queue have in common.
abbrev pub Follows : Op → CircularBuffer → Type 0
Follows op c =
    let (r, q) = Fifo.step c.buffer_size op (contents c) in
    (c' : CircularBuffer) × (step op c ≡ some (r, c'))
    × IsValid c'
    × (contents c' ≡ q)
    × (c'.buffer_size ≡ c.buffer_size)

dropped : (n : ℕ) (c : CircularBuffer) → drop (min n c.len) (contents c) ≡ drop n (contents c)
dropped n c = rw length-contents at (drop-min-length n (contents c))

copied :
    (n : ℕ) (c : CircularBuffer)
    → take (min n c.len) (blit (replicate n 0) 0 (take (min n c.len) (contents c)))
      ≡ take n (contents c)
copied n c =
    let l : length (take (min n c.len) (contents c)) ≡ min n c.len =
      omega (arith, length-take (min n c.len) (contents c), length-contents c) in
    let fits : length (take (min n c.len) (contents c)) ≤ length (replicate n 0) =
      omega (arith, l, length-replicate {A = ℕ} n 0) in
    rw l at (take-blit (replicate n 0) (take (min n c.len) (contents c)) fits)
    ∙ rw length-contents at (take-min-length n (contents c))

-- Every call on a valid ring returns what the bounded queue of its bytes returns, never aborts,
-- and leaves a valid ring of the same size that holds the queue's new bytes.
pub step_refines : (op : Op) {c : CircularBuffer} → IsValid c → Follows op c
unfolding step Fifo.step
step_refines (Op.write src) {c} v =
    let (c', e, w) = write_internal_lem src (length src) v (omega arith) in
    (c', rw (e, length-contents), w.valid, rw length-contents w.bytes, w.size_kept)
step_refines (Op.write_overflow src) {c} v =
    let (c', e, valid, b, s) = write_overflow_lem src (length src) v (omega arith) in
    (c', rw e, valid, rw length-contents (rw (take-all (length src) src (omega arith)) at b), s)
step_refines (Op.write_byte b) {c} v = elim (ℕ_discrete (get_free_space c) 0) [
  | yes z ↦ (c, rw (write_byte-full b c z, length-contents, z), v, rw (length-contents, z), refl)
  | no p ↦
      let (c', e, valid, bs, s) = write_byte-room b v (omega arith) in
      (c', ground (arith, e, length-contents c), valid, ground (arith, bs, length-contents c), s)
]
step_refines (Op.read n) {c} v =
    let (c', e, r) = read_lem (some (replicate n 0)) n v in
    (
      c',
      rw e (ap (λ l. some (bytes l, c')) (copied n c)),
      r.valid,
      r.bytes ∙ dropped n c,
      r.size_kept,
    )
step_refines (Op.discard n) {c} v =
    let (c', e, r) = read_lem none n v in
    (c', rw (e, length-contents), r.valid, r.bytes ∙ dropped n c, r.size_kept)
step_refines Op.clear {c} v = (clear c, refl, clear-IsValid v, refl, refl)

-- A whole sequence of calls on a valid ring runs to its end, and a caller cannot tell the ring from
-- the bounded queue of its bytes.
pub run_refines :
    (ops : List Op) {c : CircularBuffer}
    → IsValid c
    → run ops c ≡ some (Fifo.run c.buffer_size ops (contents c))
unfolding run Fifo.run
run_refines [] v = refl
run_refines (op ∷ ops) v =
    let (c', e, valid, b, s) = step_refines op v in rw (e, run_refines ops valid, b, s)
