-- ===== src/Vector/Refine.antt =====
-- The operations of include/jh_vector.h are those of the list that the vector holds.
use jhcommon.Prelude.{
  ℕ, zero, suc, ◌+◌, ◌-◌, ◌*◌, ◌%◌, ◌^◌, ◌<◌, ◌≤◌, ◌≡◌, refl, sym, ap, ◌∙◌, Option, none, some,
  List, [], ◌∷◌, ◌++◌, length, replicate, map, ltb, lt→ltb, ltb→lt, false, Bool-cases, inl, inr,
  ==_iff, ◌==◌, arith, append_assoc, length-append, length-map, mod-eq_of_lt,
}
use jhcommon.Vector.{Slots, Vector, default_allocation, push_back, reserve, at, erase, clear}
use jhcommon.Vector.Grow.{
  Holds, Fitted, filled, get_or-at, destroy-at, shift_down-map, destroy_from-map, sizeup-filled,
  push_back-room, push_back-full,
}

module _ {ℓ} {A : Type ℓ} where
  pub map-append :
      (xs ys : List A) (r : Slots A) → map some (xs ++ ys) ++ r ≡ map some xs ++ (map some ys ++ r)
  map-append [] ys r = refl
  map-append (x ∷ xs) ys r = ap (◌∷◌ (some x)) (map-append xs ys r)

  pub replicate-add :
      (m n : ℕ) (x : Option A) → replicate m x ++ replicate n x ≡ replicate (m + n) x
  replicate-add zero n x = let e : 0 + n ≡ n = omega arith in rw e refl
  replicate-add (suc m) n x =
      let e : suc m + n ≡ suc (m + n) = omega arith in rw e (ap (◌∷◌ x) (replicate-add m n x))

  pub push_back-filled :
      (m : ℕ) (xs : List A) (x : A) (k : ℕ)
      → (length xs + k) * 2 < 2 ^ 32
      → length xs + k ≤ m
      → length xs * 2 + 32 ≤ m
      → Fitted m (push_back x (filled xs k)) (xs ++ x ∷ [])
  push_back-filled m xs x (suc k) bound old room =
      let n : length (xs ++ x ∷ []) ≡ length xs + 1 = omega (arith, length-append xs (x ∷ [])) in
      (k, push_back-room xs x k, omega (arith, n))
  push_back-filled m xs x zero bound old room = elim (Bool-cases (length xs + 0 == 0)) [
    | inl e ↦
        let none_yet = (==_iff (length xs + 0) 0).0 e in
        let size : default_allocation ≡ length xs + suc 31 = omega arith in
        let n : length (xs ++ x ∷ []) ≡ length xs + 1 = omega (arith, length-append xs (x ∷ [])) in
        (31, push_back-full xs x 31 (rw e size), omega (arith, n))
    | inr e ↦
        let j = length xs - 1 in
        let filled_up : 0 < length xs = ground arith in
        let doubled : (length xs + 0) * 2 % 2 ^ 32 ≡ length xs + suc j =
          mod-eq_of_lt bound ∙ (omega arith) in
        let n : length (xs ++ x ∷ []) ≡ length xs + 1 = omega (arith, length-append xs (x ∷ [])) in
        (j, push_back-full xs x j (rw e doubled), omega (arith, n))
  ]

  -- `push_back` on a vector that holds a list, of which twice the allocation fits into 32 bits,
  -- does not fault, and the vector then holds the list with the object at its end.
  pub push_back_lem :
      (v : Vector A) (xs : List A) (x : A)
      → Holds v xs
      → v.allocated * 2 < 2 ^ 32
      → (v' : Vector A) × (push_back x v ≡ some v') × Holds v' (xs ++ x ∷ [])
  push_back_lem v xs x h bound =
      let m = length xs * 2 + 32 + h.spare in
      let (s, e, _) =
        push_back-filled m xs x h.spare (rw h.is_filled at bound) (omega arith) (omega arith) in
      (filled (xs ++ x ∷ []) s, rw h.is_filled e, record { spare = s; is_filled = refl })

  pub erase-filled :
      (pre : List A) (x : A) (ys : List A) (k : ℕ)
      → erase (length pre) (filled (pre ++ x ∷ ys) k) ≡ some (filled (pre ++ ys) (suc k))
  unfolding erase
  erase-filled pre x ys k =
      let r : Slots A = replicate k none in
      let n : length (pre ++ x ∷ ys) ≡ length pre + length ys + 1 =
        omega (arith, length-append pre (x ∷ ys)) in
      let inside = lt→ltb (length pre) (length pre + length ys + 1) (omega arith) in
      let last : length pre + length ys + 1 - 1 ≡ length (map some pre ++ map some ys) = omega (
        arith,
        length-append (map some pre) (map some ys),
        length-map pre some,
        length-map ys some,
      ) in
      let count : length pre + length ys + 1 - 1 - length pre ≡ length ys = omega arith in
      let (z, shifted) = shift_down-map (map some pre) r x ys in
      let shifted' = rw (length-map pre some) at shifted in
      let destroyed =
        rw
          (
            sym last,
            append_assoc (map some pre) (map some ys) (some z ∷ r),
            append_assoc (map some pre) (map some ys) (none ∷ r),
          )
          at (destroy-at (map some pre ++ map some ys) r z) in
      let m : length (pre ++ ys) ≡ length pre + length ys = omega (arith, length-append pre ys) in
      let size : length pre + length ys + 1 - 1 ≡ length pre + length ys = omega arith in
      let allocated : length pre + length ys + 1 + k ≡ length pre + length ys + suc k =
        omega arith in
      rw
        (
          n,
          inside,
          count,
          map-append pre (x ∷ ys) r,
          shifted',
          destroyed,
          m,
          size,
          allocated,
          map-append pre ys (none ∷ r),
        )
        refl

  -- `erase` at an index of the list takes the object out and keeps the order of the others; at the
  -- index of the size it aborts.
  pub erase_lem :
      (v : Vector A) (pre : List A) (x : A) (ys : List A)
      → Holds v (pre ++ x ∷ ys)
      → ((v' : Vector A) × (erase (length pre) v ≡ some v') × Holds v' (pre ++ ys))
        × (erase v.size v ≡ none)
  unfolding erase
  erase_lem v pre x ys h =
      let same : ltb v.size v.size ≡ false = ground arith in
      (
        (
          filled (pre ++ ys) (suc h.spare),
          rw h.is_filled (erase-filled pre x ys h.spare),
          record { spare = suc h.spare; is_filled = refl },
        ),
        rw same refl,
      )

  -- `operator[]` at an index of the list is the object, and at the index of the size it reads
  -- through NULL.
  pub at_lem :
      (v : Vector A) (pre : List A) (x : A) (ys : List A)
      → Holds v (pre ++ x ∷ ys)
      → (at (length pre) v ≡ some x) × (at (v.size) v ≡ none)
  unfolding at
  at_lem v pre x ys h =
      let same : ltb v.size v.size ≡ false = ground arith in
      let r : Slots A = replicate h.spare none in
      let n : length (pre ++ x ∷ ys) ≡ length pre + length ys + 1 =
        omega (arith, length-append pre (x ∷ ys)) in
      let inside = lt→ltb (length pre) (length pre + length ys + 1) (omega arith) in
      let read =
        rw (length-map pre some) at (get_or-at (map some pre) (map some ys ++ r) (some x) none) in
      (rw (h.is_filled, n, inside, map-append pre (x ∷ ys) r, read) refl, rw same refl)

  pub clear-filled : (xs : List A) (k : ℕ) → clear (filled xs k) ≡ some (filled [] (length xs + k))
  unfolding clear
  clear-filled xs k =
      let zero_add : length xs + k ≡ 0 + (length xs + k) = omega arith in
      let r : Slots A = replicate k none in
      rw (destroy_from-map [] r xs, replicate-add (length xs) k none)
        (ap (λ n. some (record { allocated = n; slots = replicate (length xs + k) none; size = 0 }))
          zero_add)

  -- `clear` leaves no object, and keeps the allocation.
  pub clear_lem :
      (v : Vector A) (xs : List A)
      → Holds v xs
      → (v' : Vector A) × (clear v ≡ some v') × Holds v' [] × (v'.allocated ≡ v.allocated)
  clear_lem v xs h =
      let zero_add : length xs + h.spare ≡ 0 + (length xs + h.spare) = omega arith in
      (
        filled [] (length xs + h.spare),
        rw h.is_filled (clear-filled xs h.spare),
        record { spare = length xs + h.spare; is_filled = refl },
        rw h.is_filled (sym zero_add),
      )

  pub reserve-filled :
      (m : ℕ) (xs : List A) (k size : ℕ)
      → length xs + k ≤ m
      → size ≤ m
      → (s : ℕ) × (reserve size (filled xs k) ≡ some (filled xs s))
        × (length xs + s ≤ m)
        × (size ≤ length xs + s)
  unfolding reserve
  reserve-filled m xs k size old room = elim (Bool-cases (ltb (length xs + k) size)) [
    | inl e ↦
        let more = ltb→lt (length xs + k) size e in
        let j = size - length xs in
        let given : (size == 0) ≡ false = ground arith in
        let new : size ≡ length xs + j = omega arith in
        (j, rw e (sizeup-filled xs size k j (rw given new)), omega arith, omega arith)
    | inr e ↦ (k, rw e refl, old, ground arith)
  ]

  -- `reserve` keeps the list, and has room for as many objects as were asked for.
  pub reserve_lem :
      (v : Vector A) (xs : List A) (size : ℕ)
      → Holds v xs
      → (v' : Vector A) × (reserve size v ≡ some v') × Holds v' xs × (size ≤ v'.allocated)
  reserve_lem v xs size h =
      let (s, e, _, room) =
        reserve-filled (length xs + h.spare + size) xs h.spare size (omega arith) (omega arith) in
      (filled xs s, rw h.is_filled e, record { spare = s; is_filled = refl }, room)
