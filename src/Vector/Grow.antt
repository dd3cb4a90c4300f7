-- ===== src/Vector/Grow.antt =====
-- The vector of include/jh_vector.h holds a list.
use jhcommon.Prelude.{
  ℕ, suc, ◌+◌, ◌≤◌, ◌≡◌, refl, sym, ap, Option, none, some, List, [], ◌∷◌, ◌++◌, length, set,
  get_or, replicate, map, lt→ltb, true, false, ◌==◌, arith, append_assoc, length-append, length-map,
}
use jhcommon.Vector.{
  Slots, Vector, store, destroy, move_from, grown, sizeup, push_back, shift_down, destroy_from,
}

-- the vector with the objects of the list, and empty slots behind them
abbrev pub filled {ℓ} : {A : Type ℓ} → List A → ℕ → Vector A
filled xs spare = record {
  allocated = length xs + spare;
  slots = map some xs ++ replicate spare none;
  size = length xs;
}

pub record Holds {ℓ} {A : Type ℓ} (v : Vector A) (xs : List A) : Type ℓ where
  pub spare : ℕ
  pub is_filled : v ≡ filled xs spare

-- the result holds the list, within an allocation of m
abbrev pub Fitted {ℓ} : {A : Type ℓ} → ℕ → Option (Vector A) → List A → Type ℓ
Fitted m o xs = (s : ℕ) × (o ≡ some (filled xs s)) × (length xs + s ≤ m)

module _ {ℓ} {A : Type ℓ} where
  pub get_or-at : (p r : Slots A) (x d : Option A) → get_or (p ++ x ∷ r) (length p) d ≡ x
  get_or-at [] r x d = refl
  get_or-at (q ∷ p) r x d = get_or-at p r x d

  set-at : (p r : Slots A) (x y : Option A) → set (p ++ x ∷ r) (length p) y ≡ p ++ y ∷ r
  set-at [] r x y = refl
  set-at (q ∷ p) r x y = ap (◌∷◌ q) (set-at p r x y)

  pub store-at :
      (p r : Slots A) (x : Option A) (y : A)
      → store (length p) y (p ++ x ∷ r) ≡ some (p ++ some y ∷ r)
  unfolding store
  store-at p r x y =
      let inside =
        lt→ltb (length p) (length (p ++ x ∷ r)) (omega (arith, length-append p (x ∷ r))) in
      rw (inside, set-at p r x (some y)) refl

  pub destroy-at :
      (p r : Slots A) (x : A) → destroy (length p) (p ++ some x ∷ r) ≡ some (p ++ none ∷ r)
  unfolding destroy
  destroy-at p r x = rw (get_or-at p r (some x) none, set-at p r (some x) none) refl

  pub length-snoc : (p : Slots A) (x : Option A) → length (p ++ x ∷ []) ≡ length p + 1
  length-snoc p x = omega (arith, length-append p (x ∷ []))

  pub move_from-map :
      (p r : Slots A) (xs : List A) (k : ℕ)
      → move_from
          (length p)
          (length xs)
          (p ++ (map some xs ++ r))
          (p ++ replicate (length xs + k) none)
        ≡ some (p ++ (map some xs ++ replicate k none))
  unfolding move_from
  move_from-map p r [] k = let n : 0 + k ≡ k = omega arith in rw n refl
  move_from-map p r (x ∷ xs) k =
      let n : suc (length xs) + k ≡ suc (length xs + k) = omega arith in
      let next =
        rw
          (
            length-snoc p (some x),
            append_assoc p (some x ∷ []) (map some xs ++ r),
            append_assoc p (some x ∷ []) (replicate (length xs + k) none),
            append_assoc p (some x ∷ []) (map some xs ++ replicate k none),
          )
          at (move_from-map (p ++ some x ∷ []) r xs k) in
      rw
        (
          get_or-at p (map some xs ++ r) (some x) none,
          n,
          store-at p (replicate (length xs + k) none) none x,
        )
        next

  -- The loop of `erase` moves the objects ys down over x.
  pub shift_down-map :
      (p r : Slots A) (x : A) (ys : List A)
      → (z : A) × (shift_down (length p) (length ys) (p ++ some x ∷ (map some ys ++ r))
          ≡ some (p ++ (map some ys ++ some z ∷ r)))
  unfolding shift_down
  shift_down-map p r x [] = (x, refl)
  shift_down-map p r x (y ∷ ys) =
      let (z, e) = shift_down-map (p ++ some y ∷ []) r y ys in
      let here = get_or-at (p ++ some x ∷ []) (map some ys ++ r) (some y) none in
      let here' =
        rw (length-snoc p (some x), append_assoc p (some x ∷ []) (some y ∷ (map some ys ++ r))) at
          here in
      let next =
        rw
          (
            length-snoc p (some y),
            append_assoc p (some y ∷ []) (some y ∷ (map some ys ++ r)),
            append_assoc p (some y ∷ []) (map some ys ++ some z ∷ r),
          )
          at e in
      (z, rw (here', store-at p (some y ∷ (map some ys ++ r)) (some x) y) next)

  pub destroy_from-map :
      (p r : Slots A) (xs : List A)
      → destroy_from (length p) (length xs) (p ++ (map some xs ++ r))
        ≡ some (p ++ (replicate (length xs) none ++ r))
  unfolding destroy_from
  destroy_from-map p r [] = refl
  destroy_from-map p r (x ∷ xs) =
      let next =
        rw
          (
            length-snoc p none,
            append_assoc p (none ∷ []) (map some xs ++ r),
            append_assoc p (none ∷ []) (replicate (length xs) none ++ r),
          )
          at (destroy_from-map (p ++ none ∷ []) r xs) in
      rw (destroy-at p (map some xs ++ r) x) next

  -- `sizeup` keeps the objects, when the new size has room for them.
  pub sizeup-filled :
      (xs : List A) (new_size spare k : ℕ)
      → grown new_size (filled xs spare) ≡ length xs + k
      → sizeup new_size (filled xs spare) ≡ some (filled xs k)
  unfolding sizeup
  sizeup-filled xs new_size spare k e = rw (e, move_from-map [] (replicate spare none) xs k) refl

  map-snoc :
      (xs : List A) (x : A) (r : Slots A) → map some (xs ++ x ∷ []) ++ r ≡ map some xs ++ some x ∷ r
  map-snoc [] x r = refl
  map-snoc (y ∷ xs) x r = ap (◌∷◌ (some y)) (map-snoc xs x r)

  store-filled :
      (xs : List A) (x : A) (k : ℕ)
      → store (length xs) x (map some xs ++ replicate (suc k) none)
        ≡ some (map some (xs ++ x ∷ []) ++ replicate k none)
  store-filled xs x k =
      rw (sym (length-map xs some), map-snoc xs x (replicate k none))
        (store-at (map some xs) (replicate k none) none x)

  pub push_back-room :
      (xs : List A) (x : A) (k : ℕ)
      → push_back x (filled xs (suc k)) ≡ some (filled (xs ++ x ∷ []) k)
  unfolding push_back
  push_back-room xs x k =
      let room : (length xs == length xs + suc k) ≡ false = ground arith in
      let n : length (xs ++ x ∷ []) ≡ length xs + 1 = omega (arith, length-append xs (x ∷ [])) in
      let m : length xs + suc k ≡ length xs + 1 + k = omega arith in
      rw (room, store-filled xs x k, n, m) refl

  pub push_back-full :
      (xs : List A) (x : A) (k : ℕ)
      → grown 0 (filled xs 0) ≡ length xs + suc k
      → push_back x (filled xs 0) ≡ some (filled (xs ++ x ∷ []) k)
  unfolding push_back
  push_back-full xs x k e =
      let full : (length xs == length xs + 0) ≡ true = ground arith in
      let n : length (xs ++ x ∷ []) ≡ length xs + 1 = omega (arith, length-append xs (x ∷ [])) in
      let m : length xs + suc k ≡ length xs + 1 + k = omega arith in
      rw (full, sizeup-filled xs 0 0 (suc k) e, store-filled xs x k, n, m) refl
