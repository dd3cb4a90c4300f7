-- ===== src/Vector/Contract.antt =====
-- Runs of the calls of include/jh_vector.h answer as runs on a sequence do.
use jhcommon.Prelude.{
  ℕ, zero, suc, ◌+◌, ◌*◌, ◌^◌, ◌<◌, ◌≤◌, ◌≡◌, refl, ap, Option, none, some, List, [], ◌∷◌, ◌++◌,
  length, take, drop, get_elem?, ltb, ltb→lt, Bool-cases, inl, inr, false, arith, IfSome, ◌>>=◌,
  length-append, take-append_length,
}
use jhcommon.Vector.Sequence
use jhcommon.Vector.Sequence.{Op, Reply, done, object, count, Fits, RunFits}
use jhcommon.Vector.{Vector, push_back, erase, reserve, resize, clear, assign, at}
use jhcommon.Vector.Grow.{Holds, Fitted, filled}
use jhcommon.Vector.Refine.{push_back-filled, erase-filled, reserve-filled, clear-filled, at_lem}
use jhcommon.Vector.Resize.{resize-filled}
use jhcommon.Vector.Assign.{assign-filled, assign_self}

module _ {ℓ} {A : Type ℓ} (fresh : A) where
  -- a call on the vector
  unfoldable pub step : Op A → Vector A → Option (Reply A × Vector A)
  step (Op.push_back x) v = do v' ← push_back x v; some (done, v')
  step (Op.erase i) v = do v' ← erase i v; some (done, v')
  step (Op.reserve n) v = do v' ← reserve n v; some (done, v')
  step (Op.resize n) v = do v' ← resize fresh n v; some (done, v')
  step Op.clear v = do v' ← clear v; some (done, v')
  step (Op.assign ys spare) v = do v' ← assign (some (filled ys spare)) v; some (done, v')
  step Op.assign_itself v = do v' ← assign none v; some (done, v')
  step (Op.at i) v = do x ← at i v; some (object x, v)
  step Op.size v = some (count v.size, v)

  unfoldable pub run : List (Op A) → Vector A → Option (List (Reply A))
  run [] v = some []
  run (op ∷ ops) v = do r ← step op v; rest ← run ops r.1; some (r.0 ∷ rest)

-- What the two steps have in common: both end the program, or they give the same reply, and the
-- vector holds the sequence within an allocation of m.
abbrev pub Agrees {ℓ} :
    {A : Type ℓ} → ℕ → Option (Reply A × Vector A) → Option (Reply A × List A) → Type ℓ
Agrees {A = A} m o none = o ≡ none
Agrees {A = A} m o (some (r, xs)) = (s : ℕ) × (o ≡ some (r, filled xs s)) × (length xs + s ≤ m)

module _ {ℓ} {A : Type ℓ} where
  agrees :
      (m : ℕ) (o : Option (Vector A)) (xs : List A)
      → Fitted m o xs
      → Agrees m (o >>= λ v. some (done, v)) (some (done, xs))
  agrees m o xs (s, e, within) = (s, rw e refl, within)

  split_at :
      (xs : List A) (i : ℕ)
      → i < length xs
      → (pre : List A) × (x : A) × (ys : List A) × (xs ≡ pre ++ x ∷ ys) × (i ≡ length pre)
  split_at [] i h = absurd (omega arith)
  split_at (x ∷ xs) zero h = ([], x, xs, refl, refl)
  split_at (x ∷ xs) (suc i) h =
      let (pre, y, ys, e, n) = split_at xs i (omega arith) in
      (x ∷ pre, y, ys, ap (◌∷◌ x) e, ap suc n)

  drop-suc-length :
      (pre : List A) (x : A) (ys : List A) → drop (suc (length pre)) (pre ++ x ∷ ys) ≡ ys
  drop-suc-length [] x ys = refl
  drop-suc-length (p ∷ pre) x ys = drop-suc-length pre x ys

  get_elem?-length :
      (pre : List A) (x : A) (ys : List A) → get_elem? (pre ++ x ∷ ys) (length pre) ≡ some x
  get_elem?-length [] x ys = refl
  get_elem?-length (p ∷ pre) x ys = get_elem?-length pre x ys

  get_elem?-out : (xs : List A) (i : ℕ) → length xs ≤ i → get_elem? xs i ≡ none
  get_elem?-out [] i h = refl
  get_elem?-out (x ∷ xs) zero h = absurd (omega arith)
  get_elem?-out (x ∷ xs) (suc i) h = get_elem?-out xs i (omega arith)

  erase-Agrees :
      (m : ℕ) (pre : List A) (x : A) (ys : List A) (xs : List A) (i k : ℕ)
      → xs ≡ pre ++ x ∷ ys
      → i ≡ length pre
      → length (pre ++ x ∷ ys) + k ≤ m
      → Fitted m (erase i (filled xs k)) (take i xs ++ drop (suc i) xs)
  erase-Agrees m pre x ys xs i k e n old =
      let kept : length (pre ++ ys) + suc k ≡ length (pre ++ x ∷ ys) + k =
        omega (arith, length-append pre ys, length-append pre (x ∷ ys)) in
      rw (e, n, take-append_length pre (x ∷ ys), drop-suc-length pre x ys)
        (suc k, erase-filled pre x ys k, omega (arith, kept))

  at-object :
      (pre : List A) (x : A) (ys : List A) (xs : List A) (i k : ℕ)
      → xs ≡ pre ++ x ∷ ys
      → i ≡ length pre
      → (at i (filled xs k) ≡ some x) × (get_elem? xs i ≡ some x)
  at-object pre x ys xs i k e n =
      rw (e, n)
        (
          (at_lem (filled (pre ++ x ∷ ys) k) pre x ys (record { spare = k; is_filled = refl })).0,
          get_elem?-length pre x ys,
        )

  erase-out : (xs : List A) (i k : ℕ) → ltb i (length xs) ≡ false → erase i (filled xs k) ≡ none
  unfolding erase
  erase-out xs i k h = rw h refl

  at-out : (xs : List A) (i k : ℕ) → ltb i (length xs) ≡ false → at i (filled xs k) ≡ none
  unfolding at
  at-out xs i k h = rw h refl

  -- Each call on a vector that holds a sequence is the call on the sequence, where an allocation of m
  -- has room for it and is at most half of what 32 bits count.
  pub step_agrees :
      (fresh : A) (op : Op A) (m : ℕ) (xs : List A) (k : ℕ)
      → m * 2 < 2 ^ 32
      → length xs + k ≤ m
      → Fits fresh m op xs
      → Agrees m (step fresh op (filled xs k)) (Sequence.step fresh op xs)
  unfolding step Sequence.step
  step_agrees fresh (Op.push_back x) m xs k bound old fits =
      agrees m _ (xs ++ x ∷ []) (push_back-filled m xs x k (omega arith) old fits)
  step_agrees fresh (Op.erase i) m xs k bound old fits = elim (Bool-cases (ltb i (length xs))) [
    | inl h ↦
        let (pre, x, ys, e, n) = split_at xs i (ltb→lt i (length xs) h) in
        rw h (
          agrees m _ (take i xs ++ drop (suc i) xs)
            (erase-Agrees m pre x ys xs i k e n (rw e at old)))
    | inr h ↦ rw (h, erase-out xs i k h) refl
  ]
  step_agrees fresh (Op.reserve n) m xs k bound old fits =
      let (s, e, within, _) = reserve-filled m xs k n old fits in agrees m _ xs (s, e, within)
  step_agrees fresh (Op.resize n) m xs k bound old fits =
      agrees m _ _ (resize-filled m fresh n xs k old fits)
  step_agrees fresh Op.clear m xs k bound old fits =
      agrees m _ [] (length xs + k, clear-filled xs k, omega arith)
  step_agrees fresh (Op.assign ys spare) m xs k bound old fits =
      agrees m _ ys (assign-filled m xs ys k spare old fits)
  step_agrees fresh Op.assign_itself m xs k bound old fits = agrees m _ [] (assign_self m xs k old)
  step_agrees fresh (Op.at i) m xs k bound old fits = elim (Bool-cases (ltb i (length xs))) [
    | inl h ↦
        let (pre, x, ys, e, n) = split_at xs i (ltb→lt i (length xs) h) in
        let (here, there) = at-object pre x ys xs i k e n in rw (here, there) (k, refl, old)
    | inr h ↦ rw (at-out xs i k h, get_elem?-out xs i (ground arith)) refl
  ]
  step_agrees fresh Op.size m xs k bound old fits = (k, refl, old)

  run_from :
      (fresh : A) (ops : List (Op A)) (m : ℕ) (o : Option (Reply A × Vector A))
      (next : Option (Reply A × List A))
      → Agrees m o next
      → IfSome (λ r. RunFits fresh m ops r.1) next
      → ((ys : List A) (s : ℕ)
          → length ys + s ≤ m
          → RunFits fresh m ops ys
          → run fresh ops (filled ys s) ≡ Sequence.run fresh ops ys)
      → (o >>= λ r. run fresh ops r.1 >>= λ rest. some (r.0 ∷ rest))
        ≡ (next >>= λ r. Sequence.run fresh ops r.1 >>= λ rest. some (r.0 ∷ rest))
  run_from fresh ops m o none e fits rest = rw e refl
  run_from fresh ops m o (some (r, ys)) (s, e, within) fits rest =
      rw (e, rest ys s within fits) refl

  run-filled :
      (fresh : A) (ops : List (Op A)) (m : ℕ) (xs : List A) (k : ℕ)
      → m * 2 < 2 ^ 32
      → length xs + k ≤ m
      → RunFits fresh m ops xs
      → run fresh ops (filled xs k) ≡ Sequence.run fresh ops xs
  unfolding run Sequence.run
  run-filled fresh [] m xs k bound old fits = refl
  run-filled fresh (op ∷ ops) m xs k bound old fits =
      run_from fresh ops m _ _ (step_agrees fresh op m xs k bound old fits.0) fits.1
        (λ ys s within rest. run-filled fresh ops m ys s bound within rest)

  -- A whole run of calls on a vector that holds a sequence gives the replies of the run on the
  -- sequence, or ends the program as that one does, where an allocation of at most half of what 32
  -- bits count has room for each call. An assignment of the vector to itself leaves it empty.
  pub run_replies :
      (fresh : A) (ops : List (Op A)) (m : ℕ) (v : Vector A) (xs : List A)
      → Holds v xs
      → v.allocated ≤ m
      → m * 2 < 2 ^ 32
      → RunFits fresh m ops xs
      → run fresh ops v ≡ Sequence.run fresh ops xs
  run_replies fresh ops m v xs h old bound fits =
      rw h.is_filled (run-filled fresh ops m xs h.spare bound (rw h.is_filled at old) fits)
