-- ===== src/CircularBuffer/Fill.antt =====
-- `fillFromFile( IReaderWriter *, int )` of src/CircularBuffer.cpp. The reader is the caller's
-- object: a function from the size asked for to the outcome of its one `read`.
use jhcommon.Prelude.{
  ℕ, ◌+◌, ◌-◌, ◌≤◌, ◌<◌, ◌≡◌, refl, min, Option, some, List, ◌++◌, take, length, ltb, ◌==◌,
  if◌then◌else◌, ◌>>=◌, blit, length-blit, take-all, arith, false,
}
use jhcommon.CircularBuffer.{CircularBuffer, add_length, get_free_space, memcpy, broadcast_data}
use jhcommon.CircularBuffer.Inv.{IsValid, contents, not_at_end}
use jhcommon.CircularBuffer.Segment.{after, segment-blit}

-- What the reader put into the memory that it was given, or the error `-(code + 1)`.
pub data ReadResult : Type 0 where
  received : List ℕ → ReadResult
  failed : ℕ → ReadResult

-- The result of `fillFromFile`: a count, or the reader's error.
pub data FillResult : Type 0 where
  count : ℕ → FillResult
  error : ℕ → FillResult

-- `read` into the ring at the write pointer, which moves past the bytes received.
abbrev pub receive : List ℕ → CircularBuffer → CircularBuffer
receive bs c = record c {
  buffer = memcpy c.buffer c.write_ptr bs 0 (length bs);
  write_ptr = c.write_ptr + length bs;
}

abbrev pub wrap_write : CircularBuffer → CircularBuffer
wrap_write c = record c { write_ptr = if c.write_ptr == c.buffer_size then 0 else c.write_ptr }

-- the size asked of the reader: the storage may end before the free space does
abbrev pub ask : ℕ → CircularBuffer → ℕ
ask n c = if ltb c.write_ptr c.read_ptr then n else min n (c.buffer_size - c.write_ptr)

-- The write pointer goes round only if the data did not before.
pub after_read : CircularBuffer → ReadResult → Option (FillResult × CircularBuffer)
after_read c (failed e) = some (error e, c)
after_read c (received bs) =
    let moved = receive bs c in
    do
      c1 ← add_length (length bs) (if ltb c.write_ptr c.read_ptr then moved else wrap_write moved)
      some (count (length bs), broadcast_data c1)

pub fill_from_file : (ℕ → ReadResult) → ℕ → CircularBuffer → Option (FillResult × CircularBuffer)
fill_from_file reader size c =
    let n = min size (get_free_space c) in
    if n == 0 then some (count 0, c) else after_read c (reader (ask n c))

-- A reader does not deliver more than it is asked for.
abbrev pub IsBounded : (ℕ → ReadResult) → Type 0
IsBounded reader = (n : ℕ) (bs : List ℕ) → reader n ≡ received bs → length bs ≤ n

-- What the ring is after the outcome of the one read.
abbrev pub Filled : CircularBuffer → ReadResult → Option (FillResult × CircularBuffer) → Type 0
Filled c (failed e) res = res ≡ some (error e, c)
Filled c (received bs) res =
    (c' : CircularBuffer) × (res ≡ some (count (length bs), c'))
    × IsValid c'
    × (contents c' ≡ contents c ++ bs)
    × (c'.buffer_size ≡ c.buffer_size)

module _ (bs : List ℕ) (n : ℕ) {c : CircularBuffer} (v : IsValid c) (pos : 0 < n)
    (fits : n ≤ get_free_space c) (short : length bs ≤ ask n c) where
  abbrev write' : ℕ
  write' =
      if ltb c.write_ptr c.read_ptr
      then c.write_ptr + length bs
      else if c.write_ptr + length bs == c.buffer_size
      then 0
      else c.write_ptr + length bs

  abbrev result : CircularBuffer
  result = record c {
    buffer = blit c.buffer c.write_ptr bs;
    write_ptr = write';
    read_ptr = if c.read_ptr == c.buffer_size then 0 else c.read_ptr;
    len = c.len + length bs;
    data_signals = c.data_signals + 1;
  }

  inside : (c.write_ptr + length bs ≤ c.buffer_size) × (c.len + length bs ≤ c.buffer_size)
  inside = ground arith

  result-IsValid : IsValid result
  result-IsValid =
      ground (arith, length-blit c.buffer c.write_ptr bs, not_at_end v (omega arith), inside)

  contents-result : contents result ≡ contents c ++ bs
  contents-result =
      let start' : after c.buffer_size (if c.read_ptr == c.buffer_size then 0 else c.read_ptr) 0
          ≡ after c.buffer_size c.read_ptr 0 =
        ground arith in
      rw start' (
        segment-blit bs c.buffer c.buffer_size c.len (after c.buffer_size c.read_ptr 0) c.write_ptr
          (omega arith) (ground arith) inside.1 inside.0
          (λ _. ground (arith, not_at_end v (omega arith))))

  received-Filled : Filled c (received bs) (after_read c (received bs))
  unfolding after_read add_length
  received-Filled = (
    result,
    (let whole : take (length bs) bs ≡ bs = take-all (length bs) bs (omega arith) in
        rw whole (ground (arith, inside))),
    result-IsValid,
    contents-result,
    refl,
  )

fill-Filled :
    (r : ReadResult) (n : ℕ) {c : CircularBuffer}
    → IsValid c
    → 0 < n
    → n ≤ get_free_space c
    → ((bs : List ℕ) → r ≡ received bs → length bs ≤ ask n c)
    → Filled c r (after_read c r)
unfolding after_read
fill-Filled (failed e) n v pos fits short = refl
fill-Filled (received bs) n v pos fits short = received-Filled bs n v pos fits (short bs refl)

-- With room, `fillFromFile` on a valid ring makes one read, of at least one byte and of no more
-- than the free space. An error of the reader is returned and nothing changes; what
-- it received is appended to the contents, and counted.
pub fill_from_file_lem :
    (reader : ℕ → ReadResult) (size : ℕ) {c : CircularBuffer}
    → IsValid c
    → IsBounded reader
    → 0 < size
    → 0 < get_free_space c
    → let n = ask (min size (get_free_space c)) c in
      (0 < n) × (n ≤ get_free_space c) × Filled c (reader n) (fill_from_file reader size c)
unfolding fill_from_file
fill_from_file_lem reader size {c} v bounded some_size room =
    let pos : 0 < min size (get_free_space c) = omega arith in
    let test : (min size (get_free_space c) == 0) ≡ false = ground arith in
    (
      ground (arith, not_at_end v room),
      ground arith,
      rw test (
          fill-Filled (reader (ask (min size (get_free_space c)) c)) (min size (get_free_space c)) v
            pos (omega arith) (λ bs e. bounded _ bs e)),
    )
