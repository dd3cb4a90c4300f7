-- ===== src/CircularBuffer.antt =====
-- src/CircularBuffer.cpp and include/CircularBuffer.h: the byte ring. A pointer into the storage is
-- its offset from `mBuffer`, so `mBuffer` is 0 and `mEnd` is `buffer_size`. Sizes are the
-- non-negative values of `int`. `none` is the `abort()` of LOG_ERR_FATAL, which the
-- build's JH_VERBOSE_LOGGING turns on. The lock is held from the first to the last line of
-- each method, so a method is one step.
pub mod Segment
pub mod Inv
pub mod Write
pub mod Read
pub mod Overflow
pub mod Fifo
pub mod Refine
pub mod Access
pub mod Fill
pub mod Lines
mod Tests
use jhcommon.Prelude.{
  ℕ, ◌+◌, ◌-◌, ◌%◌, ◌^◌, min, Bool, true, false, Option, none, some, List, [], ◌∷◌, take, drop,
  get_elem?, set, blit, ltb, leb, ◌==◌, if◌then◌else◌, ◌>>=◌, length,
}

pub record CircularBuffer : Type 0 where
  pub buffer : List ℕ
  pub read_ptr : ℕ
  pub write_ptr : ℕ
  pub len : ℕ
  pub buffer_size : ℕ
  -- how often mDataCondition and mFreeCondition were broadcast
  pub data_signals : ℕ
  pub free_signals : ℕ

-- Storage of the caller's, or fresh: its bytes are not initialised either way.
abbrev pub init : List ℕ → ℕ → CircularBuffer
init storage size = record {
  buffer = storage;
  read_ptr = 0;
  write_ptr = 0;
  len = 0;
  buffer_size = size;
  data_signals = 0;
  free_signals = 0;
}

abbrev pub u32 : ℕ
u32 = 2 ^ 32

abbrev pub get_length : CircularBuffer → ℕ
get_length c = c.len

abbrev pub get_size : CircularBuffer → ℕ
get_size c = c.buffer_size

-- An `int` difference, negative only where `mLen` exceeds `mBufferSize`.
abbrev pub get_free_space : CircularBuffer → ℕ
get_free_space c = c.buffer_size - c.len

-- `size > mBufferSize - mLen` is compared as `unsigned int`.
pub add_length : ℕ → CircularBuffer → Option CircularBuffer
add_length size c =
    if ltb ((c.buffer_size + u32 - c.len) % u32) size
    then none
    else some (record c {
      len = (c.len + size) % u32;
      read_ptr = if c.read_ptr == c.buffer_size then 0 else c.read_ptr;
    })

pub subtract_length : ℕ → CircularBuffer → Option CircularBuffer
subtract_length size c =
    if ltb c.len size
    then none
    else some (record c {
      len = c.len - size;
      write_ptr = if c.write_ptr == c.buffer_size then 0 else c.write_ptr;
    })

-- `memcpy( dest + d, src + s, n )`
abbrev pub memcpy : List ℕ → ℕ → List ℕ → ℕ → ℕ → List ℕ
memcpy dest d src s n = blit dest d (take n (drop s src))

-- `bufferCopy` to a caller's buffer, which may be NULL.
abbrev pub buffer_copy : Option (List ℕ) → ℕ → List ℕ → ℕ → ℕ → Option (List ℕ)
buffer_copy none d src s n = none
buffer_copy (some dest) d src s n = some (memcpy dest d src s n)

-- the first copy of `write_internal`, up to the end of the storage
abbrev pub write_tail : List ℕ → ℕ → CircularBuffer → CircularBuffer
write_tail src tail c =
    let ptr = c.write_ptr + tail in
    record c {
      buffer = memcpy c.buffer c.write_ptr src 0 tail;
      write_ptr = if ptr == c.buffer_size then 0 else ptr;
    }

-- its second copy, at the beginning of the storage
abbrev pub write_head : List ℕ → ℕ → ℕ → CircularBuffer → CircularBuffer
write_head src tail head c = record c {
  buffer = memcpy c.buffer c.write_ptr src tail head;
  write_ptr = c.write_ptr + head;
}

abbrev pub broadcast_data : CircularBuffer → CircularBuffer
broadcast_data c = record c { data_signals = c.data_signals + 1 }

abbrev pub broadcast_free : CircularBuffer → CircularBuffer
broadcast_free c = record c { free_signals = c.free_signals + 1 }

-- both copies, of `n` bytes that fit
pub write_copy : List ℕ → ℕ → CircularBuffer → CircularBuffer
write_copy src n c =
    let tail = min (c.buffer_size - c.write_ptr) n in
    let c1 = write_tail src tail c in if ltb tail n then write_head src tail (n - tail) c1 else c1

pub write_internal : Option (List ℕ) → ℕ → CircularBuffer → Option (ℕ × CircularBuffer)
write_internal none size c = some (0, c)
write_internal (some src) size c =
    let n = min size (get_free_space c) in
    if n == 0
    then some (0, c)
    else (do c1 ← add_length n (write_copy src n c); some (n, broadcast_data c1))

abbrev pub write : Option (List ℕ) → ℕ → CircularBuffer → Option (ℕ × CircularBuffer)
write = write_internal

-- the bytes that `read` copies out: up to the end of the storage, then from its beginning
abbrev pub read_copy : Option (List ℕ) → ℕ → ℕ → CircularBuffer → Option (List ℕ)
read_copy dest tail n c =
    let dest1 = buffer_copy dest 0 c.buffer c.read_ptr tail in
    if ltb tail n then buffer_copy dest1 tail c.buffer 0 (n - tail) else dest1

abbrev pub read_advance : ℕ → ℕ → CircularBuffer → CircularBuffer
read_advance tail n c = record c { read_ptr = if ltb tail n then n - tail else c.read_ptr + tail }

-- The result, the caller's buffer (none for NULL) and the ring.
pub read : Option (List ℕ) → ℕ → CircularBuffer → Option (ℕ × Option (List ℕ) × CircularBuffer)
read dest size c =
    let n = min size c.len in
    let tail = min (c.buffer_size - c.read_ptr) n in
    if n == 0 then some (0, dest, c) else (do
      c1 ← subtract_length n (read_advance tail n c)
      some (n, read_copy dest tail n c, broadcast_free c1))

-- The `read( NULL, read_size )` of `write_overflow`, for `n` bytes to come.
pub make_room : ℕ → CircularBuffer → Option CircularBuffer
make_room n c =
    if ltb (get_free_space c) n
    then (do r ← read none (n - get_free_space c) c; some r.2)
    else some c

-- A caller's data larger than the whole ring loses its first `offset` bytes.
pub write_overflow : List ℕ → ℕ → CircularBuffer → Option (ℕ × CircularBuffer)
write_overflow src size c =
    let offset = size - c.buffer_size in
    let n = min size c.buffer_size in
    do
      c1 ← make_room n c
      w ← write_internal (some (drop offset src)) n c1
      some (w.0 + offset, w.1)

-- `true` stands for the result 0, `false` for -1.
pub write_byte : ℕ → CircularBuffer → Option (Bool × CircularBuffer)
write_byte byte c = if get_free_space c == 0 then some (false, c) else (do
  c1 ←
      add_length 1
        (record c { buffer = set c.buffer c.write_ptr byte; write_ptr = c.write_ptr + 1 })
  some (
    true,
    broadcast_data
        (record c1 { write_ptr = if c1.write_ptr == c1.buffer_size then 0 else c1.write_ptr }),
  ))

abbrev pub clear : CircularBuffer → CircularBuffer
clear c = broadcast_free (record c { write_ptr = 0; read_ptr = 0; len = 0 })
