-- ===== src/CircularBuffer/Segment.antt =====
-- The bytes that lie in the ring from an index on, going round at the end of the storage.
use jhcommon.Prelude.{
  ℕ, zero, suc, ◌+◌, ◌-◌, ◌≤◌, ◌<◌, ◌≡◌, refl, ◌∙◌, ap, ap₂, List, [], ◌∷◌, ◌++◌, ◌≢◌, get_or, set,
  length, take, drop, blit, blit-nil, blit-cons, length-set, get_or-set_self, get_or-set_ne,
  drop-cons, leb, if◌then◌else◌, arith, append_assoc, append-nil,
}

-- the index `n` places behind `h`, for `n` up to the size
abbrev pub after : ℕ → ℕ → ℕ → ℕ
after size h n = if leb size (h + n) then h + n - size else h + n

abbrev pub segment : List ℕ → ℕ → ℕ → ℕ → List ℕ
segment buf size h zero = []
segment buf size h (suc n) = get_or buf h 0 ∷ segment buf size (after size h 1) n

pub length-segment : (buf : List ℕ) (size h n : ℕ) → length (segment buf size h n) ≡ n
length-segment buf size h zero = refl
length-segment buf size h (suc n) = ap suc (length-segment buf size (after size h 1) n)

pub segment-set :
    (buf : List ℕ) (size n h i x : ℕ)
    → size ≤ length buf
    → h < size
    → n < size
    → i ≡ after size h n
    → segment (set buf i x) size h (suc n) ≡ segment buf size h n ++ x ∷ []
segment-set buf size zero h i x s hh hn e =
    let same : i ≡ h = ground arith in rw (same, get_or-set_self buf h x 0 (omega arith))
segment-set buf size (suc n) h i x s hh hn e =
    ap₂ ◌∷◌ (get_or-set_ne buf i h x 0 (λ q. ground arith))
      (segment-set buf size n (after size h 1) i x s (ground arith) (omega arith) (ground arith))

-- Copying `src` just behind a segment extends it by `src`, if the copy does not pass the end.
pub segment-blit :
    (src buf : List ℕ) (size n h i : ℕ)
    → size ≤ length buf
    → h < size
    → n + length src ≤ size
    → i + length src ≤ size
    → (src ≢ [] → i ≡ after size h n)
    → segment (blit buf i src) size h (n + length src) ≡ segment buf size h n ++ src
segment-blit [] buf size n h i s hh hn hi e =
    let q : n + 0 ≡ n = omega arith in rw (blit-nil buf i, q, append-nil)
segment-blit (x ∷ xs) buf size n h i s hh hn hi e =
    let here : i ≡ after size h n = e (λ q. cc) in
    let step : n + suc (length xs) ≡ suc n + length xs = omega arith in
    rw (step, blit-cons buf i x xs)
      (segment-blit xs (set buf i x) size (suc n) h (suc i) (rw (length-set buf i x) s) hh
          (omega arith) (omega arith) (λ q. next q here)
        ∙ ap (λ l. l ++ xs) (segment-set buf size n h i x s hh (omega arith) here)
        ∙ append_assoc (segment buf size h n) (x ∷ []) xs)
  where
    next : xs ≢ [] → i ≡ after size h n → suc i ≡ after size h (suc n)
    next q here = grind arith

pub segment-add :
    (buf : List ℕ) (size h m n : ℕ)
    → h < size
    → m + n ≤ size
    → segment buf size h (m + n) ≡ segment buf size h m ++ segment buf size (after size h m) n
segment-add buf size h zero n hh hn =
    let p : 0 + n ≡ n = omega arith in let q : after size h 0 ≡ h = ground arith in rw (p, q)
segment-add buf size h (suc m) n hh hn =
    let p : suc m + n ≡ suc (m + n) = omega arith in
    let q : after size (after size h 1) m ≡ after size h (suc m) = ground arith in
    rw (p, ← q)
      (ap (◌∷◌ (get_or buf h 0))
        (segment-add buf size (after size h 1) m n (ground arith) (omega arith)))

pub segment-take :
    (buf : List ℕ) (size h n : ℕ)
    → size ≤ length buf
    → h + n ≤ size
    → segment buf size h n ≡ take n (drop h buf)
segment-take buf size h zero s hn = refl
segment-take buf size h (suc zero) s hn = rw (drop-cons buf h 0 (omega arith))
segment-take buf size h (suc (suc n)) s hn =
    let q : after size h 1 ≡ suc h = ground arith in
    rw (
      drop-cons buf h 0 (omega arith),
      ← segment-take buf size (suc h) (suc n) s (omega arith),
      ← q,
    )
