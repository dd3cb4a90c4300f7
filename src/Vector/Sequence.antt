-- ===== src/Vector/Sequence.antt =====
-- What the vector of include/jh_vector.h promises its clients: a sequence, where an index that is
-- out of range ends the program.
use jhcommon.Prelude.{
  ℕ, suc, ◌+◌, ◌-◌, ◌*◌, ◌≤◌, Option, none, some, List, [], ◌∷◌, ◌++◌, length, take, drop,
  replicate, get_elem?, ltb, if◌then◌else◌, ◌>>=◌, IfSome,
}

-- The calls. The other vector of an assignment has a list, and slots to spare.
pub data Op {ℓ} (A : Type ℓ) : Type ℓ where
  push_back : A → Op A
  erase : ℕ → Op A
  reserve : ℕ → Op A
  resize : ℕ → Op A
  clear : Op A
  assign : List A → ℕ → Op A
  assign_itself : Op A
  at : ℕ → Op A
  size : Op A

-- What a caller sees of a call.
pub data Reply {ℓ} (A : Type ℓ) : Type ℓ where
  done : Reply A
  object : A → Reply A
  count : ℕ → Reply A

module _ {ℓ} {A : Type ℓ} (fresh : A) where
  unfoldable pub step : Op A → List A → Option (Reply A × List A)
  step (push_back x) xs = some (done, xs ++ x ∷ [])
  step (erase i) xs = if ltb i (length xs) then some (done, take i xs ++ drop (suc i) xs) else none
  step (reserve n) xs = some (done, xs)
  step (resize n) xs = some (done, take n xs ++ replicate (n - length xs) fresh)
  step clear xs = some (done, [])
  step (assign ys spare) xs = some (done, ys)
  step assign_itself xs = some (done, [])
  step (at i) xs = do x ← get_elem? xs i; some (object x, xs)
  step size xs = some (count (length xs), xs)

  unfoldable pub run : List (Op A) → List A → Option (List (Reply A))
  run [] xs = some []
  run (op ∷ ops) xs = do r ← step op xs; rest ← run ops r.1; some (r.0 ∷ rest)

  -- an allocation of m has room for the call
  abbrev pub Fits : ℕ → Op A → List A → Type 0
  Fits m (push_back x) xs = length xs * 2 + 32 ≤ m
  Fits m (reserve n) xs = n ≤ m
  Fits m (resize n) xs = n * 2 ≤ m
  Fits m (assign ys spare) xs = length ys ≤ m
  Fits m (erase i) xs = Unit {0}
  Fits m clear xs = Unit {0}
  Fits m assign_itself xs = Unit {0}
  Fits m (at i) xs = Unit {0}
  Fits m size xs = Unit {0}

  -- and for each call of a run; behind one that ends the program there is none
  abbrev pub RunFits : ℕ → List (Op A) → List A → Type 0
  RunFits m [] xs = Unit {0}
  RunFits m (op ∷ ops) xs = Fits m op xs × IfSome (λ r. RunFits m ops r.1) (step op xs)
