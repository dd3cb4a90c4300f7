-- ===== src/CircularBuffer/Tests.antt =====
-- Runs of the ring of src/CircularBuffer.cpp, and its theorems at concrete rings.
use jhcommon.Prelude.{◌≡◌, refl, some, List, [], ◌∷◌, arith, true, false}
use jhcommon.CircularBuffer.{CircularBuffer, write_overflow}
use jhcommon.CircularBuffer.Fifo
use jhcommon.CircularBuffer.Fifo.{Op, Reply, count, bytes, accepted, done}
use jhcommon.CircularBuffer.Inv.{IsValid, contents}
use jhcommon.CircularBuffer.Lines.{thrown, not_found, peek_line, scan, line_at}
use jhcommon.CircularBuffer.Overflow.{write_overflow_lem}
use jhcommon.CircularBuffer.Refine.{run, run_refines}

-- 8, 9 at the end of the storage, and 10 at its beginning
abbrev wrapped : CircularBuffer
wrapped = record {
  buffer = b'\n' ∷ 7 ∷ 8 ∷ 9 ∷ [];
  read_ptr = 2;
  write_ptr = 1;
  len = 3;
  buffer_size = 4;
  data_signals = 0;
  free_signals = 0;
}

wrapped-IsValid : IsValid wrapped
wrapped-IsValid = ground arith

abbrev script : List Op
script =
    Op.write (1 ∷ 2 ∷ 3 ∷ [])
    ∷ Op.read 3
    ∷ Op.write_overflow (4 ∷ 5 ∷ 6 ∷ 7 ∷ 8 ∷ [])
    ∷ Op.write_byte 9
    ∷ Op.discard 1
    ∷ Op.write_byte 9
    ∷ Op.read 9
    ∷ []

abbrev answers : List Reply
answers =
    count 1
    ∷ bytes (8 ∷ 9 ∷ b'\n' ∷ [])
    ∷ count 5
    ∷ accepted false
    ∷ count 1
    ∷ accepted true
    ∷ bytes (6 ∷ 7 ∷ 8 ∷ 9 ∷ [])
    ∷ []

-- the code and the queue, by evaluation
fifo_runs : Fifo.run 4 script (8 ∷ 9 ∷ b'\n' ∷ []) ≡ answers
unfolding Fifo.run Fifo.step
fifo_runs = refl

run_refines_example : run script wrapped ≡ some (Fifo.run 4 script (8 ∷ 9 ∷ b'\n' ∷ []))
run_refines_example = run_refines script wrapped-IsValid

write_overflow_lem_example :
    (c' : CircularBuffer) × (write_overflow (1 ∷ 2 ∷ []) 2 wrapped ≡ some (2, c'))
    × IsValid c'
    × (contents c' ≡ 9 ∷ b'\n' ∷ 1 ∷ 2 ∷ [])
    × (c'.buffer_size ≡ 4)
write_overflow_lem_example = write_overflow_lem (1 ∷ 2 ∷ []) 2 wrapped-IsValid (omega arith)

-- A full ring whose last byte is the terminal: the exception.
abbrev full : CircularBuffer
full = record wrapped { buffer = 1 ∷ b'\n' ∷ 8 ∷ 9 ∷ []; write_ptr = 2; len = 4 }

peek_line_throws : peek_line 4 (b'\n' ∷ []) full ≡ some thrown
unfolding peek_line scan line_at
peek_line_throws = refl

-- "\r\r\n" holds the terminal "\r\n", and the scan does not find it.
abbrev returns : CircularBuffer
returns = record wrapped { buffer = b'\r' ∷ b'\r' ∷ b'\n' ∷ 0 ∷ []; read_ptr = 0; write_ptr = 3 }

peek_line_misses : peek_line 9 (b'\r' ∷ b'\n' ∷ []) returns ≡ some not_found
unfolding peek_line scan line_at
peek_line_misses = refl
