-- ===== src/CircularBuffer/Lines.antt =====
-- `peekLine` and `getLine` of src/CircularBuffer.cpp. The scan takes fuel, a round for each byte;
-- out of fuel is none. `terminal` is the text without its closing NUL.
pub mod Scan
pub mod OneByte
use jhcommon.Prelude.{
  ℕ, zero, suc, Bool, ◌&&◌, ◌+◌, ◌-◌, Option, some, none, List, [], take, drop, ◌++◌, get_or,
  length, ltb, ◌==◌, if◌then◌else◌, ◌>>=◌,
}
use jhcommon.CircularBuffer.{CircularBuffer, read}

pub data Peeked : Type 0 where
  not_found : Peeked
  line : List ℕ → Peeked
  -- the negative length that `assign` or `append` is given is too large as a `size_t`
  thrown : Peeked

-- `*ptr == terminal[ state ]`: the byte is a `uint8_t` and the terminal a `char`, which is signed, so
-- a character from 128 on is a negative number, and equal to no byte.
abbrev pub same_byte : ℕ → ℕ → Bool
same_byte b t = ltb t 128 && b == t

-- The do-while loop: `some none` is a loop that ended at the write pointer.
unfoldable pub scan : ℕ → List ℕ → CircularBuffer → ℕ → ℕ → Option (Option ℕ)
scan zero terminal c ptr state = none
scan (suc fuel) terminal c ptr state =
    let state' =
      if same_byte (get_or c.buffer ptr 0) (get_or terminal state 0) then state + 1 else 0 in
    let ptr' = if ptr + 1 == c.buffer_size then 0 else ptr + 1 in
    let rest = scan fuel terminal c ptr' state' in
    if state' == length terminal
    then some (some ptr)
    else if ptr' == c.write_ptr
    then some none
    else rest

-- What is assigned to `line`, when the terminal's last byte was found at `last`.
unfoldable pub line_at : ℕ → CircularBuffer → ℕ → Peeked
line_at term_len c last =
    let ptr = last + 1 in
    if ltb ptr c.read_ptr
    then (if ltb ptr term_len
        then thrown
        else line (
            take (c.buffer_size - c.read_ptr) (drop c.read_ptr c.buffer)
            ++ take (ptr - term_len) c.buffer))
    else if ltb (ptr - c.read_ptr) term_len
    then thrown
    else line (take (ptr - c.read_ptr - term_len) (drop c.read_ptr c.buffer))

abbrev pub found_line : ℕ → CircularBuffer → Option ℕ → Peeked
found_line term_len c none = not_found
found_line term_len c (some last) = line_at term_len c last

unfoldable pub peek_line : ℕ → List ℕ → CircularBuffer → Option Peeked
peek_line fuel terminal c =
    if c.len == 0
    then some not_found
    else (do found ← scan fuel terminal c c.read_ptr 0; some (found_line (length terminal) c found))

-- the result of `peekLine`: `line.length() + term_len`, or 0
abbrev pub peeked_size : ℕ → Peeked → ℕ
peeked_size term_len not_found = 0
peeked_size term_len (line l) = length l + term_len
peeked_size term_len thrown = 0

-- An exception passes through `getLine` before its `read`.
abbrev pub consume : ℕ → CircularBuffer → Peeked → Option (Peeked × ℕ × CircularBuffer)
consume term_len c thrown = some (thrown, 0, c)
consume term_len c p = do r ← read none (peeked_size term_len p) c; some (p, r.0, r.2)

pub get_line : ℕ → List ℕ → CircularBuffer → Option (Peeked × ℕ × CircularBuffer)
get_line fuel terminal c = do p ← peek_line fuel terminal c; consume (length terminal) c p
