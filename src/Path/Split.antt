-- ===== src/Path/Split.antt =====
-- `split` of include/jh_string.h ends.
use jhcommon.Prelude.{
  ℕ, zero, suc, ◌+◌, ◌==◌, ◌<◌, ◌≤◌, true, false, ◌⊎◌, Bool-cases, Option-cases, inl, inr, Option,
  none, some, List, [], ◌∷◌, ◌++◌, length, ◌≡◌, refl, arith,
}
use jhcommon.Prelude.Text.{Text, find, find-bounds, slice_to}
use jhcommon.Path.{separator, as_unsigned, behind_pos, skip, split_from, split}

-- The result of the inner loop: a start not before the old one, and the separator found from it.
record Skipped (fuel start : ℕ) (s : Text) (pos : Option ℕ) : Type 0 where
  start' : ℕ
  result : skip false fuel s start pos ≡ some (start', find separator start' s)
  after_start : start ≤ start'
  inside : start' ≤ length s

skip_ends :
    (fuel start : ℕ) (s : Text)
    → start ≤ length s
    → length s < start + fuel
    → Skipped fuel start s (find separator start s)
unfolding skip
skip_ends zero start s le h = absurd (omega arith)
skip_ends (suc fuel) start s le h = elim (Option-cases (find separator start s)) [
  | inl e ↦ record { start' = start; result = rw e refl; after_start = omega arith; inside = le }
  | inr (pos, e) ↦
      let bounds = find-bounds separator start s e in
      elim (Bool-cases (pos == start)) [
        | inl same ↦
            let r = skip_ends fuel (pos + 1) s (omega arith) (omega arith) in
            record {
              start' = r.start';
              result = rw (e, same) r.result;
              after_start = omega (arith, r.after_start);
              inside = r.inside;
            }
        | inr other ↦ record {
          start' = start;
          result = rw (e, other) refl;
          after_start = omega arith;
          inside = le;
        }
      ]
]

split_from_ends :
    (fuel start : ℕ) (s : Text) (parts : List Text)
    → start ≤ length s
    → length s < start + fuel
    → (r : List Text) × (split_from false fuel s start (find separator start s) parts ≡ some r)
unfolding split_from
split_from_ends zero start s parts le h = absurd (omega arith)
split_from_ends (suc fuel) start s parts le h = elim (Option-cases (find separator start s)) [
  | inl e ↦ (parts ++ slice_to s start none ∷ [], rw e refl)
  | inr (pos, e) ↦
      let bounds = find-bounds separator start s e in
      let next = skip_ends (suc fuel) (pos + 1) s (omega arith) (omega arith) in
      let r =
        split_from_ends fuel next.start' s (parts ++ slice_to s start (some pos) ∷ []) next.inside
          (omega (arith, next.after_start)) in
      (r.0, rw (e, next.result) r.1)
]

-- Where `size_t` is no wider than `unsigned`, `split` ends on every string.
pub split_ends : (s : Text) → (parts : List Text) × (split false s ≡ some parts)
unfolding split
split_ends s = split_from_ends (suc (length s)) 0 s [] (omega arith) (omega arith)

cut_position : (o : Option ℕ) → (p : ℕ) × (as_unsigned true o ≡ some p)
cut_position none = (_, refl)
cut_position (some pos) = (_, refl)

-- The inner loop stays where it is, or goes on from a position that is not `npos`.
skip_wide :
    (fuel start pos : ℕ) (s : Text)
    → (skip true fuel s start (some pos) ≡ none)
      ⊎ ((start' : ℕ) × (pos' : ℕ) × (skip true fuel s start (some pos) ≡ some (start', some pos')))
unfolding skip
skip_wide zero start pos s = inl refl
skip_wide (suc fuel) start pos s = elim (Bool-cases (pos == start)) [
  | inl same ↦
      let (p, e) = cut_position (find separator (behind_pos true pos) s) in
      rw (same, e) (skip_wide fuel (behind_pos true pos) p s)
  | inr other ↦ inr (start, pos, rw other refl)
]

split_from_wide :
    (fuel start pos : ℕ) (s : Text) (parts : List Text)
    → split_from true fuel s start (some pos) parts ≡ none
unfolding split_from
split_from_wide zero start pos s parts = refl
split_from_wide (suc fuel) start pos s parts =
    let (p, e) = cut_position (find separator (behind_pos true pos) s) in
    elim (skip_wide (suc fuel) (behind_pos true pos) p s) [
      | inl stuck ↦ rw (e, stuck) refl
      | inr (start', pos', g) ↦
          rw (e, g) (split_from_wide fuel start' pos' s (parts ++ slice_to s start (some pos) ∷ []))
    ]

-- Where `size_t` is wider than `unsigned`, as with 64 bits, the loop of `split` ends on no string,
-- whatever number of rounds it is given.
pub split_wide :
    (fuel : ℕ) (s : Text)
    → split_from true fuel s 0 (as_unsigned true (find separator 0 s)) [] ≡ none
split_wide fuel s =
    let (p, e) = cut_position (find separator 0 s) in rw e (split_from_wide fuel 0 p s [])
