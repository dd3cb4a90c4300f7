-- ===== src/CircularBuffer/Fifo.antt =====
-- What the ring of src/CircularBuffer.cpp promises its clients: a queue of at most `cap` bytes,
-- oldest first.
use jhcommon.Prelude.{
  ℕ, ◌+◌, ◌-◌, ◌==◌, min, Bool, true, false, List, [], ◌∷◌, ◌++◌, take, drop, length, if◌then◌else◌,
}

-- The calls, each with the caller's data.
pub data Op : Type 0 where
  write : List ℕ → Op
  write_overflow : List ℕ → Op
  write_byte : ℕ → Op
  read : ℕ → Op
  discard : ℕ → Op
  clear : Op

-- What a caller sees of a call.
pub data Reply : Type 0 where
  count : ℕ → Reply
  bytes : List ℕ → Reply
  accepted : Bool → Reply
  done : Reply

module _ (cap : ℕ) where
  unfoldable pub step : Op → List ℕ → Reply × List ℕ
  step (write src) q = let n = min (length src) (cap - length q) in (count n, q ++ take n src)
  step (write_overflow src) q = (count (length src), drop (length q + length src - cap) (q ++ src))
  step (write_byte b) q =
      if cap - length q == 0 then (accepted false, q) else (accepted true, q ++ b ∷ [])
  step (read n) q = (bytes (take n q), drop n q)
  step (discard n) q = (count (min n (length q)), drop n q)
  step clear q = (done, [])

  unfoldable pub run : List Op → List ℕ → List Reply
  run [] q = []
  run (op ∷ ops) q = let (r, q') = step op q in r ∷ run ops q'
