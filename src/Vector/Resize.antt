-- ===== src/Vector/Resize.antt =====
-- `resize` of include/jh_vector.h on the vector that holds a list.
use jhcommon.Prelude.{
  ℕ, zero, suc, ◌+◌, ◌-◌, ◌*◌, ◌%◌, ◌^◌, ◌≤◌, ◌≡◌, refl, sym, ap, ◌∙◌, Option, none, some, List, [],
  ◌∷◌, ◌++◌, length, replicate, map, take, ltb, ltb→lt, Bool-cases, inl, inr, false, ◌==◌, arith,
  append-nil, append_assoc, length-append, length-map, length-replicate, length-take, drop,
  take-append-drop, take-all,
}
use jhcommon.Vector.{Slots, construct_from, enlarge, resize, destroy_from}
use jhcommon.Vector.Grow.{Fitted, filled, store-at, length-snoc, destroy_from-map, sizeup-filled}
use jhcommon.Vector.Refine.{map-append, replicate-add}

module _ {ℓ} {A : Type ℓ} where
  construct_from-map :
      (fresh : A) (p r : Slots A) (n : ℕ)
      → construct_from fresh (length p) n (p ++ (replicate n none ++ r))
        ≡ some (p ++ (replicate n (some fresh) ++ r))
  unfolding construct_from
  construct_from-map fresh p r zero = refl
  construct_from-map fresh p r (suc n) =
      let next =
        rw
          (
            length-snoc p (some fresh),
            append_assoc p (some fresh ∷ []) (replicate n none ++ r),
            append_assoc p (some fresh ∷ []) (replicate n (some fresh) ++ r),
          )
          at (construct_from-map fresh (p ++ some fresh ∷ []) r n) in
      rw (store-at p (replicate n none ++ r) none fresh) next

  -- The growth of `resize` makes room for the new size, also where the doubled size wraps.
  pub enlarge-filled :
      (m : ℕ) (xs : List A) (k n : ℕ)
      → length xs + k ≤ m
      → n * 2 ≤ m
      → (j : ℕ) × (enlarge n (filled xs k) ≡ some (filled xs j))
        × (length xs + j ≤ m)
        × (n ≤ length xs + j)
  unfolding enlarge
  enlarge-filled m xs k n old fits = elim (Bool-cases (ltb (length xs + k) n)) [
    | inl e ↦
        let more = ltb→lt (length xs + k) n e in
        elim (Bool-cases (ltb n ((length xs + k) * 2 % 2 ^ 32))) [
          | inl f ↦
              let doubled = ltb→lt n ((length xs + k) * 2 % 2 ^ 32) f in
              let j = (length xs + k) * 2 % 2 ^ 32 - length xs in
              let given : (length xs + k == 0) ≡ false = ground arith in
              let room : (length xs + k) * 2 % 2 ^ 32 ≡ length xs + j = omega arith in
              (j, rw (e, f) (sizeup-filled xs 0 k j (rw given room)), omega arith, omega arith)
          | inr f ↦
              let j = n - length xs in
              let given : (n == 0) ≡ false = ground arith in
              let room : n ≡ length xs + j = omega arith in
              (j, rw (e, f) (sizeup-filled xs n k j (rw given room)), omega arith, omega arith)
        ]
    | inr e ↦ (k, rw e refl, old, ground arith)
  ]

  shrinks :
      (m : ℕ) (fresh : A) (ys zs : List A) (k : ℕ)
      → length (ys ++ zs) + k ≤ m
      → length ys * 2 ≤ m
      → Fitted m (resize fresh (length ys) (filled (ys ++ zs) k)) ys
  unfolding resize construct_from
  shrinks m fresh ys zs k old fits =
      let (j, e, within, room) = enlarge-filled m (ys ++ zs) k (length ys) old fits in
      let r : Slots A = replicate j none in
      let n = length-append ys zs in
      let gone : length (ys ++ zs) - length ys ≡ length zs = omega (arith, n) in
      let none_new : length ys - length (ys ++ zs) ≡ 0 = omega (arith, n) in
      let allocated : length (ys ++ zs) + j ≡ length ys + (length zs + j) = omega (arith, n) in
      let destroyed = rw (length-map ys some) at (destroy_from-map (map some ys) r zs) in
      (
        length zs + j,
        rw
            (
              e,
              gone,
              none_new,
              map-append ys zs r,
              destroyed,
              allocated,
              replicate-add {A = A} (length zs) j none,
            )
            refl,
        omega (arith, allocated),
      )

  shrinks_to :
      (m : ℕ) (fresh : A) (xs ys zs : List A) (k n : ℕ)
      → xs ≡ ys ++ zs
      → n ≡ length ys
      → length (ys ++ zs) + k ≤ m
      → length ys * 2 ≤ m
      → Fitted m (resize fresh n (filled xs k)) ys
  shrinks_to m fresh xs ys zs k n parts size old fits =
      rw (parts, size) (shrinks m fresh ys zs k old fits)

  map-replicate : (n : ℕ) (x : A) → map some (replicate n x) ≡ replicate n (some x)
  map-replicate zero x = refl
  map-replicate (suc n) x = ap (◌∷◌ (some x)) (map-replicate n x)

  grows :
      (b : ℕ) (fresh : A) (xs : List A) (k m : ℕ)
      → length xs + k ≤ b
      → (length xs + m) * 2 ≤ b
      → Fitted b (resize fresh (length xs + m) (filled xs k)) (xs ++ replicate m fresh)
  unfolding resize destroy_from
  grows b fresh xs k m old fits =
      let (j, e, within, room) = enlarge-filled b xs k (length xs + m) old fits in
      let s = j - m in
      let r : Slots A = replicate s none in
      let spare : j ≡ m + s = omega arith in
      let split = ap (λ n. replicate {A = Option A} n none) spare ∙ sym (replicate-add m s none) in
      let none_gone : length xs - (length xs + m) ≡ 0 = omega arith in
      let new : length xs + m - length xs ≡ m = omega arith in
      let built = rw (length-map xs some) at (construct_from-map fresh (map some xs) r m) in
      let size : length (xs ++ replicate m fresh) ≡ length xs + m =
        omega (arith, length-append xs (replicate m fresh), length-replicate m fresh) in
      let allocated : length xs + j ≡ length xs + m + s = omega arith in
      (
        s,
        rw
            (
              e,
              none_gone,
              new,
              split,
              built,
              size,
              allocated,
              map-append xs (replicate m fresh) r,
              map-replicate m fresh,
            )
            refl,
        omega (arith, size),
      )

  -- `resize` keeps the first objects, as many as fit, and fills up with new ones.
  pub resize-filled :
      (m : ℕ) (fresh : A) (n : ℕ) (xs : List A) (k : ℕ)
      → length xs + k ≤ m
      → n * 2 ≤ m
      → Fitted m (resize fresh n (filled xs k)) (take n xs ++ replicate (n - length xs) fresh)
  resize-filled m fresh n xs k old fits = elim (Bool-cases (ltb (length xs) n)) [
    | inl e ↦
        let more = ltb→lt (length xs) n e in
        let sum : length xs + (n - length xs) ≡ n = omega arith in
        let all = take-all n xs (omega arith) in
        rw all (rw sum at (grows m fresh xs k (n - length xs) old (omega (arith, sum))))
    | inr e ↦
        let fewer : n ≤ length xs = ground arith in
        let size : length (take n xs) ≡ n = omega (arith, length-take n xs) in
        let no_new : n - length xs ≡ 0 = omega arith in
        let parts = take-append-drop n xs in
        let kept = append-nil (take n xs) in
        rw (no_new, kept)
          (shrinks_to m fresh xs (take n xs) (drop n xs) k n (sym parts) (sym size) (rw parts old)
            (omega (arith, size)))
  ]
