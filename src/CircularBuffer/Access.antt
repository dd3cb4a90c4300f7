-- ===== src/CircularBuffer/Access.antt =====
-- `getBytes`, `byteAt` and `copy` of src/CircularBuffer.cpp, which read the ring and change nothing.
-- An index is a non-negative `int`.
pub mod Chunks
use jhcommon.Prelude.{
  ℕ, ◌+◌, ◌-◌, min, Option, some, none, List, take, drop, get_or, blit, ltb, leb, if◌then◌else◌,
}
use jhcommon.CircularBuffer.{CircularBuffer, memcpy}

-- The pointer (none for NULL) and the size that goes out through the reference.
pub get_bytes_internal : ℕ → CircularBuffer → Option ℕ × ℕ
get_bytes_internal i c =
    let res = c.read_ptr + i in
    if ltb i c.len
    then (if leb c.write_ptr c.read_ptr
        then (if leb c.buffer_size res
            then (some (res - c.buffer_size), c.write_ptr - (res - c.buffer_size))
            else (some res, c.buffer_size - res))
        else (some res, c.write_ptr - res))
    else (none, 0)

abbrev pub get_bytes : ℕ → CircularBuffer → Option ℕ × ℕ
get_bytes = get_bytes_internal

-- `*res`, or none for the result -1
abbrev pub deref : Option ℕ → CircularBuffer → Option ℕ
deref none c = none
deref (some p) c = some (get_or c.buffer p 0)

pub byte_at : ℕ → CircularBuffer → Option ℕ
byte_at i c = deref (get_bytes i c).0 c

-- `memcpy( dest + d, src, n )` out of the ring; from NULL it is only called with n = 0.
abbrev pub copy_out : List ℕ → ℕ → Option ℕ → ℕ → CircularBuffer → List ℕ
copy_out dest d none n c = dest
copy_out dest d (some p) n c = memcpy dest d c.buffer p n

pub copy : List ℕ → ℕ → CircularBuffer → ℕ × List ℕ
copy dest size c =
    let n = min size c.len in
    let first = get_bytes_internal 0 c in
    let start_size = min first.1 n in
    let dest1 = copy_out dest 0 first.0 start_size c in
    let second = get_bytes_internal start_size c in
    if ltb start_size n
    then (n, copy_out dest1 start_size second.0 (n - start_size) c)
    else (n, dest1)
