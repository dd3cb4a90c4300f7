-- ===== src/CircularBuffer/Lines/Scan.antt =====
-- src/CircularBuffer.cpp: the loop of `peekLine` with a terminal of one byte.

use jhcommon.Prelude.{
  ℕ, zero, suc, ◌+◌, ◌<◌, ◌≡◌, refl, ◌≢◌, inl, inr, ◌∙◌, some, none, List, [], ◌∷◌, true, false,
  get_or, ◌==◌, if◌then◌else◌, arith, lt→ltb, Bool-cases,
}
use jhcommon.Prelude.Text.{index_of, index_of-lt, map-suc-eq-some, map-suc-eq-none}
use jhcommon.CircularBuffer.{CircularBuffer}
use jhcommon.CircularBuffer.Segment.{after, segment, length-segment}
use jhcommon.CircularBuffer.Lines.{same_byte, scan}

index_of-hit :
    (t x : ℕ) (xs : List ℕ) {i : ℕ} → (x == t) ≡ true → index_of t (x ∷ xs) ≡ some i → i ≡ 0
index_of-hit t x xs hit e = ground arith

same_byte-plain : (b t : ℕ) → t < 128 → same_byte b t ≡ (b == t)
same_byte-plain b t h = rw (lt→ltb t 128 h) refl

module _ (t : ℕ) (plain : t < 128) (c : CircularBuffer)
    (write_in : c.write_ptr < c.buffer_size) where
  scan_hit :
      (fuel ptr : ℕ)
      → (get_or c.buffer ptr 0 == t) ≡ true
      → scan (suc fuel) (t ∷ []) c ptr 0 ≡ some (some ptr)
  unfolding scan
  scan_hit fuel ptr h = rw (same_byte-plain (get_or c.buffer ptr 0) t plain, h)

  scan_end :
      (fuel ptr : ℕ)
      → ptr < c.buffer_size
      → (get_or c.buffer ptr 0 == t) ≡ false
      → c.write_ptr ≡ after c.buffer_size ptr 1
      → scan (suc fuel) (t ∷ []) c ptr 0 ≡ some none
  unfolding scan
  scan_end fuel ptr hp h e =
      let stop : ((if ptr + 1 == c.buffer_size then 0 else ptr + 1) == c.write_ptr) ≡ true =
        ground arith in
      rw (same_byte-plain (get_or c.buffer ptr 0) t plain, h, stop)

  scan_on :
      (fuel ptr : ℕ)
      → ptr < c.buffer_size
      → (get_or c.buffer ptr 0 == t) ≡ false
      → c.write_ptr ≢ after c.buffer_size ptr 1
      → scan (suc fuel) (t ∷ []) c ptr 0 ≡ scan fuel (t ∷ []) c (after c.buffer_size ptr 1) 0
  unfolding scan
  scan_on fuel ptr hp h e =
      let next : (if ptr + 1 == c.buffer_size then 0 else ptr + 1) ≡ after c.buffer_size ptr 1 =
        ground arith in
      let on : (after c.buffer_size ptr 1 == c.write_ptr) ≡ false = ground arith in
      rw (same_byte-plain (get_or c.buffer ptr 0) t plain, h, next, on)

  found_here :
      (fuel ptr i m : ℕ)
      → (ptr < c.buffer_size)
        × (m < c.buffer_size)
        × (m < suc fuel)
        × (c.write_ptr ≡ after c.buffer_size ptr (suc m))
      → (get_or c.buffer ptr 0 == t) ≡ true
      → index_of t (segment c.buffer c.buffer_size ptr (suc m)) ≡ some i
      → scan (suc fuel) (t ∷ []) c ptr 0 ≡ some (some (after c.buffer_size ptr i))
  found_here fuel ptr i m h hit e =
      let i0 = index_of-hit t _ _ hit e in
      let here : after c.buffer_size ptr i ≡ ptr = ground arith in rw here (scan_hit fuel ptr hit)

  -- where the scan of `suc m` bytes from `ptr` on has to stop
  abbrev pub Ends : ℕ → ℕ → ℕ → Type 0
  Ends fuel m ptr =
      (ptr < c.buffer_size)
      × (m < c.buffer_size)
      × (m < fuel)
      × (c.write_ptr ≡ after c.buffer_size ptr (suc m))

  Ends-next :
      {fuel m ptr : ℕ}
      → Ends (suc fuel) (suc m) ptr
      → Ends fuel m (after c.buffer_size ptr 1) × (c.write_ptr ≢ after c.buffer_size ptr 1)
  Ends-next h = ground arith

  pub scan-found :
      (m fuel ptr i : ℕ)
      → Ends fuel m ptr
      → index_of t (segment c.buffer c.buffer_size ptr (suc m)) ≡ some i
      → scan fuel (t ∷ []) c ptr 0 ≡ some (some (after c.buffer_size ptr i))
  scan-found m zero ptr i h e = absurd (omega arith)
  scan-found zero (suc fuel) ptr i h e = elim (Bool-cases (get_or c.buffer ptr 0 == t)) [
    | inl hit ↦ found_here fuel ptr i 0 h hit e
    | inr miss ↦ cc (rw miss at e)
  ]
  scan-found (suc m) (suc fuel) ptr i h e = elim (Bool-cases (get_or c.buffer ptr 0 == t)) [
    | inl hit ↦ found_here fuel ptr i (suc m) h hit e
    | inr miss ↦
        let rest = segment c.buffer c.buffer_size (after c.buffer_size ptr 1) (suc m) in
        let (j, e', q) = map-suc-eq-some (index_of t rest) (rw miss at e) in
        let (h', on) = Ends-next h in
        let j_in : j < suc m = omega (
          arith,
          index_of-lt t rest e',
          length-segment c.buffer c.buffer_size (after c.buffer_size ptr 1) (suc m),
        ) in
        let there : after c.buffer_size (after c.buffer_size ptr 1) j ≡ after c.buffer_size ptr i =
          ground arith in
        scan_on fuel ptr h.0 miss on
        ∙ scan-found m fuel (after c.buffer_size ptr 1) j h' e'
        ∙ rw there
  ]

  pub scan-missing :
      (m fuel ptr : ℕ)
      → Ends fuel m ptr
      → index_of t (segment c.buffer c.buffer_size ptr (suc m)) ≡ none
      → scan fuel (t ∷ []) c ptr 0 ≡ some none
  scan-missing m zero ptr h e = absurd (omega arith)
  scan-missing zero (suc fuel) ptr h e = elim (Bool-cases (get_or c.buffer ptr 0 == t)) [
    | inl hit ↦ absurd (cc (rw hit at e))
    | inr miss ↦ scan_end fuel ptr h.0 miss h.3
  ]
  scan-missing (suc m) (suc fuel) ptr h e = elim (Bool-cases (get_or c.buffer ptr 0 == t)) [
    | inl hit ↦ absurd (cc (rw hit at e))
    | inr miss ↦
        let (h', on) = Ends-next h in
        scan_on fuel ptr h.0 miss on
        ∙ scan-missing m fuel (after c.buffer_size ptr 1) h' (map-suc-eq-none _ (rw miss at e))
  ]
