-- ===== src/CircularBuffer/Inv.antt =====
-- The representation invariant of the ring of src/CircularBuffer.cpp, and the bytes that it holds.
use jhcommon.Prelude.{ℕ, ◌+◌, ◌^◌, ◌≤◌, ◌<◌, ◌≡◌, ◌⊎◌, List, length, arith, ℕ_discrete}
use jhcommon.CircularBuffer.{CircularBuffer, init, clear, get_free_space}
use jhcommon.CircularBuffer.Segment.{after, segment, length-segment}

-- Either pointer may stand at `mEnd`, the write pointer only while the ring is full.
pub record IsValid (c : CircularBuffer) : Type 0 where
  pub storage : length c.buffer ≡ c.buffer_size
  pub nonempty : 0 < c.buffer_size
  pub small : c.buffer_size < 2 ^ 31
  pub read_in : c.read_ptr ≤ c.buffer_size
  pub write_in : c.write_ptr ≤ c.buffer_size
  pub len_in : c.len ≤ c.buffer_size
  pub linked :
      (c.read_ptr + c.len ≡ c.write_ptr) ⊎ (c.read_ptr + c.len ≡ c.write_ptr + c.buffer_size)
  pub full_at_end : c.write_ptr ≡ c.buffer_size → c.len ≡ c.buffer_size

-- the bytes held, oldest first
abbrev pub contents : CircularBuffer → List ℕ
contents c = segment c.buffer c.buffer_size (after c.buffer_size c.read_ptr 0) c.len

pub init-IsValid :
    (storage : List ℕ)
    → 0 < length storage
    → length storage < 2 ^ 31
    → IsValid (init storage (length storage))
init-IsValid storage h k = ground arith

pub clear-IsValid : {c : CircularBuffer} → IsValid c → IsValid (clear c)
clear-IsValid v = ground arith

pub length-contents : (c : CircularBuffer) → length (contents c) ≡ c.len
length-contents c = length-segment c.buffer c.buffer_size (after c.buffer_size c.read_ptr 0) c.len

-- While there is room, the write pointer stands inside the storage.
pub not_at_end :
    {c : CircularBuffer} → IsValid c → 0 < get_free_space c → c.write_ptr < c.buffer_size
not_at_end {c} v h = elim (ℕ_discrete c.write_ptr c.buffer_size) [
  | yes e ↦ absurd (omega (arith, v.full_at_end e))
  | no e ↦ omega arith
]
