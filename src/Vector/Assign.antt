-- ===== src/Vector/Assign.antt =====
-- The assignment, the copy and the destructor of include/jh_vector.h on vectors that hold lists.
use jhcommon.Prelude.{
  ℕ, ◌+◌, ◌-◌, ◌≤◌, ◌≡◌, refl, ap, ◌∙◌, none, some, List, [], length, replicate, ltb, ltb→lt,
  Bool-cases, inl, inr, false, ◌==◌, arith,
}
use jhcommon.Vector.{copy_objects, assign, copied, destruct, Vector}
use jhcommon.Vector.Grow.{Holds, Fitted, filled, move_from-map, sizeup-filled}
use jhcommon.Vector.Refine.{clear-filled}

module _ {ℓ} {A : Type ℓ} where
  copy_objects-room :
      (ys : List A) (l s : ℕ)
      → copy_objects (filled ys l) (filled [] (length ys + s)) ≡ some (filled ys s)
  unfolding copy_objects
  copy_objects-room ys l s =
      let enough : ltb (0 + (length ys + s)) (length ys) ≡ false = ground arith in
      let none_yet : 0 + (length ys + s) ≡ length ys + s = omega arith in
      rw (enough, move_from-map [] (replicate l none) ys s, none_yet) refl

  copy_objects-filled :
      (m : ℕ) (ys : List A) (l k : ℕ)
      → k ≤ m
      → length ys ≤ m
      → Fitted m (copy_objects (filled ys l) (filled [] k)) ys
  unfolding copy_objects
  copy_objects-filled m ys l k old fits = elim (Bool-cases (ltb (0 + k) (length ys))) [
    | inl e ↦
        let more = ltb→lt (0 + k) (length ys) e in
        let given : (length ys == 0) ≡ false = ground arith in
        let size : length ys ≡ 0 + (length ys + 0) = omega arith in
        let none_yet : 0 + (length ys + 0) ≡ length ys + 0 = omega arith in
        let enlarged = sizeup-filled {A = A} [] (length ys) k (length ys + 0) (rw given size) in
        let moved = move_from-map [] (replicate l none) ys 0 in
        (0, rw (e, enlarged, moved, none_yet) refl, omega arith)
    | inr e ↦
        let s = k - length ys in
        let room : k ≡ length ys + s = ground arith in
        (
          s,
          ap (λ n. copy_objects (filled ys l) (filled [] n)) room ∙ copy_objects-room ys l s,
          omega arith,
        )
  ]

  -- `operator=` leaves the list of the other vector.
  pub assign-filled :
      (m : ℕ) (xs ys : List A) (k l : ℕ)
      → length xs + k ≤ m
      → length ys ≤ m
      → Fitted m (assign (some (filled ys l)) (filled xs k)) ys
  unfolding assign
  assign-filled m xs ys k l old fits =
      let (s, e, within) = copy_objects-filled m ys l (length xs + k) old fits in
      (s, rw (clear-filled xs k, e) refl, within)

  -- An assignment of a vector to itself empties it.
  pub assign_self :
      (m : ℕ) (xs : List A) (k : ℕ) → length xs + k ≤ m → Fitted m (assign none (filled xs k)) []
  unfolding assign
  assign_self m xs k old =
      let (s, e, within) =
        copy_objects-filled m [] (length xs + k) (length xs + k) old (omega arith) in
      (s, rw (clear-filled xs k, e) refl, within)

  -- A copy holds the list of the original.
  pub copied_lem :
      (w : Vector A) (ys : List A) → Holds w ys → (v : Vector A) × (copied w ≡ some v) × Holds v ys
  unfolding copied
  copied_lem w ys h =
      let (s, e, _) = assign-filled (length ys) [] ys 0 h.spare (omega arith) (omega arith) in
      (filled ys s, rw h.is_filled e, record { spare = s; is_filled = refl })

  -- The destructor of a vector that holds a list destroys each of its objects.
  pub destruct_lem :
      (v : Vector A) (xs : List A)
      → Holds v xs
      → destruct v ≡ some (record { allocated = v.allocated; slots = []; size = 0 })
  unfolding destruct
  destruct_lem v xs h =
      let none_left : 0 + (length xs + h.spare) ≡ length xs + h.spare = omega arith in
      rw (h.is_filled, clear-filled xs h.spare, none_left) refl
