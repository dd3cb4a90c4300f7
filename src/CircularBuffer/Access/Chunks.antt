-- ===== src/CircularBuffer/Access/Chunks.antt =====
-- `getBytes`, `byteAt` and `copy` show the bytes that the ring holds.
use jhcommon.Prelude.{
  ℕ, zero, suc, ◌+◌, ◌-◌, ◌≤◌, ◌<◌, ◌≡◌, ◌⊎◌, inl, inr, refl, sym, ap, ◌∙◌, min, some, none, List,
  [], ◌∷◌, take, drop, get_or, get_elem?, length, blit, blit-append, blit-nil, take-add,
  length-take, ltb, leb, if◌then◌else◌, arith, dec_lt, drop-cons, lt→ltb, false, take-min-length,
  take-append_length,
}
use jhcommon.CircularBuffer.{CircularBuffer}
use jhcommon.CircularBuffer.Access.{get_bytes_internal, byte_at, copy, copy_out}
use jhcommon.CircularBuffer.Inv.{IsValid, contents, length-contents}
use jhcommon.CircularBuffer.Read.{drop-contents}
use jhcommon.CircularBuffer.Segment.{after, segment, segment-add, segment-take, length-segment}

-- A pointer `p` to the byte at index `i`, with `size` bytes that lie there in one piece: up to the
-- last byte held, or up to the end of the storage.
pub record Chunk (c : CircularBuffer) (i p size : ℕ) : Type 0 where
  pub place : p ≡ after c.buffer_size (after c.buffer_size c.read_ptr 0) i
  pub nonempty : 0 < size
  pub held : i + size ≤ c.len
  pub inside : p + size ≤ c.buffer_size
  pub longest : (i + size ≡ c.len) ⊎ (p + size ≡ c.buffer_size)

chunk_ptr : ℕ → CircularBuffer → ℕ
chunk_ptr i c =
    if leb c.buffer_size (c.read_ptr + i) then c.read_ptr + i - c.buffer_size else c.read_ptr + i

chunk_size : ℕ → CircularBuffer → ℕ
chunk_size i c =
    if leb c.write_ptr c.read_ptr
    then (if leb c.buffer_size (c.read_ptr + i)
        then c.write_ptr - (c.read_ptr + i - c.buffer_size)
        else c.buffer_size - (c.read_ptr + i))
    else c.write_ptr - (c.read_ptr + i)

get_bytes-Chunk :
    (i : ℕ) {c : CircularBuffer}
    → IsValid c
    → i < c.len
    → (get_bytes_internal i c ≡ (some (chunk_ptr i c), chunk_size i c))
      × Chunk c i (chunk_ptr i c) (chunk_size i c)
unfolding get_bytes_internal chunk_ptr chunk_size
get_bytes-Chunk i {c} v h = ground arith

-- The bytes of a chunk are the bytes from that index on, as many as are asked of it.
Chunk-take :
    {c : CircularBuffer} {i p size : ℕ} (k : ℕ)
    → IsValid c
    → Chunk c i p size
    → k ≤ size
    → take k (drop p c.buffer) ≡ take k (drop i (contents c))
Chunk-take {c} {i} {p} {size} k v h le =
    let sum : k + (c.len - i - k) ≡ c.len - i = omega (arith, h.held) in
    let cut =
      segment-add c.buffer c.buffer_size p k (c.len - i - k) (omega (arith, h.inside, h.nonempty))
        (omega (arith, h.held, v.len_in)) in
    rw
      (
        drop-contents i c v (omega (arith, h.held)),
        ← h.place,
        rw sum at cut,
        ← segment-take c.buffer c.buffer_size p k (omega (arith, v.storage))
            (omega (arith, h.inside)),
      )
      (sym (
        rw length-segment at (
          take-append_length (segment c.buffer c.buffer_size p k)
            (segment c.buffer c.buffer_size (after c.buffer_size p k) (c.len - i - k)))))

-- Below the length, `getBytes` returns a pointer to the bytes from that index on, with the number that lie there in
-- one piece: at least one, none past the end of the storage, and all that are held or all up to the storage's end.
-- From the length on it returns NULL and 0.
pub get_bytes_lem :
    (i : ℕ) {c : CircularBuffer}
    → IsValid c
    → ((i < c.len)
        × ((p : ℕ) × (size : ℕ) × (get_bytes_internal i c ≡ (some p, size))
            × Chunk c i p size
            × (take size (drop p c.buffer) ≡ take size (drop i (contents c)))))
      ⊎ ((c.len ≤ i) × (get_bytes_internal i c ≡ (none, 0)))
get_bytes_lem i {c} v = elim (dec_lt i c.len) [
  | yes h ↦
      let (e, k) = get_bytes-Chunk i v h in
      inl (h, (chunk_ptr i c, chunk_size i c, e, k, Chunk-take (chunk_size i c) v k (omega arith)))
  | no h ↦ inr (omega arith, unfold get_bytes_internal in ground arith)
]

get_elem?-drop : (i : ℕ) (xs : List ℕ) → i < length xs → get_elem? xs i ≡ some (get_or xs i 0)
get_elem?-drop i [] h = absurd (omega arith)
get_elem?-drop zero (x ∷ xs) h = refl
get_elem?-drop (suc i) (x ∷ xs) h = get_elem?-drop i xs (omega arith)

get_elem?-none : (i : ℕ) (xs : List ℕ) → length xs ≤ i → get_elem? xs i ≡ none
get_elem?-none i [] h = refl
get_elem?-none zero (x ∷ xs) h = absurd (omega arith)
get_elem?-none (suc i) (x ∷ xs) h = get_elem?-none i xs (omega arith)

take_one : (p : ℕ) (xs : List ℕ) → p < length xs → take 1 (drop p xs) ≡ get_or xs p 0 ∷ []
take_one p xs h = rw (drop-cons xs p 0 h)

-- `byteAt` is the byte of that index, counted from the oldest, and -1 from the length on.
pub byte_at_lem : (i : ℕ) {c : CircularBuffer} → IsValid c → byte_at i c ≡ get_elem? (contents c) i
unfolding byte_at
byte_at_lem i {c} v = elim (get_bytes_lem i v) [
  | inl (h, (p, size, e, k, b)) ↦
      let one = Chunk-take 1 v k (k.nonempty) in
      let bound : i < length (contents c) = omega (arith, length-contents c) in
      rw (e, get_elem?-drop i (contents c) bound)
        (cc (
          take_one p c.buffer (omega (arith, k.inside, k.nonempty, v.storage)),
          take_one i (contents c) bound,
          one,
        ))
  | inr (h, e) ↦ rw (e, get_elem?-none i (contents c) (omega (arith, length-contents c)))
]

-- In one piece: the oldest bytes as far as they are asked for.
in_one_piece :
    (dest : List ℕ) (n : ℕ) {c : CircularBuffer} {p size : ℕ}
    → IsValid c
    → Chunk c 0 p size
    → n ≤ size
    → copy_out dest 0 (some p) n c ≡ blit dest 0 (take n (contents c))
in_one_piece dest n v k h = ap (blit dest 0) (Chunk-take n v k h)

-- In two pieces, the first of which ends at the end of the storage.
in_two_pieces :
    (dest : List ℕ) (n : ℕ) {c : CircularBuffer} {p q k m : ℕ}
    → IsValid c
    → Chunk c 0 p k
    → Chunk c k q m
    → k < n
    → n ≤ c.len
    → copy_out (copy_out dest 0 (some p) k c) k (some q) (n - k) c
      ≡ blit dest 0 (take n (contents c))
in_two_pieces dest n {c} {p} {q} {k} {m} v first second h le =
    let at_start : q ≡ 0 = second_start in
    let l : length (take k (contents c)) ≡ k =
      omega (arith, length-take k (contents c), length-contents c) in
    let whole : k + (n - k) ≡ n = omega arith in
    rw
      (
        Chunk-take k v first (omega arith),
        Chunk-take (n - k) v second
            (omega (arith, second.longest, at_start, v.len_in, second.held)),
      )
      (rw l at (blit-append dest (take k (contents c)) (take (n - k) (drop k (contents c))))
        ∙ ap (blit dest 0) (sym (rw whole at (take-add k (n - k) (contents c)))))
  where
    second_start : q ≡ 0
    second_start = ground (arith, first.place, first.longest, second.place, v.read_in, first.inside)

module _ (dest : List ℕ) (size : ℕ) {c : CircularBuffer} (v : IsValid c) where
  copy_of_length :
      ((0 < c.len)
          × ((p : ℕ) × (k : ℕ) × (get_bytes_internal 0 c ≡ (some p, k))
              × Chunk c 0 p k
              × (take k (drop p c.buffer) ≡ take k (drop 0 (contents c)))))
        ⊎ ((c.len ≤ 0) × (get_bytes_internal 0 c ≡ (none, 0)))
      → copy dest size c ≡ (min size c.len, blit dest 0 (take (min size c.len) (contents c)))
  unfolding copy
  copy_of_length (inr (h, e)) = let z : min size c.len ≡ 0 = omega arith in rw (z, e, blit-nil)
  copy_of_length (inl (h, (p, k, e, first, _))) = elim (dec_lt k (min size c.len)) [
    | no fits ↦
        let m : min k (min size c.len) ≡ min size c.len = omega arith in
        let flat : ltb (min size c.len) (min size c.len) ≡ false = ground arith in
        rw (e, m, flat)
          (ap (λ d. (min size c.len, d)) (in_one_piece dest (min size c.len) v first (omega arith)))
    | yes more ↦
        let m : min k (min size c.len) ≡ k = omega arith in
        let (e2, second) = get_bytes-Chunk k v (omega arith) in
        rw (e, m, lt→ltb _ _ more, e2)
          (ap (λ d. (min size c.len, d))
            (in_two_pieces dest (min size c.len) v first second more (omega arith)))
  ]

  -- `copy` on a valid ring copies the bytes that `read` would remove, and reports their number: as many of the
  -- oldest as are asked for, or all that are held.
  pub copy_lem : copy dest size c ≡ (min size c.len, blit dest 0 (take size (contents c)))
  copy_lem =
      let all : take (min size c.len) (contents c) ≡ take size (contents c) =
        rw length-contents at (take-min-length size (contents c)) in
      rw (← all) (copy_of_length (get_bytes_lem 0 v))
