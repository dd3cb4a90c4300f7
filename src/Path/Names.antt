-- ===== src/Path/Names.antt =====
-- src/Path.cpp: the parent and the names of a file.
use jhcommon.Prelude.{
  false, ℕ, suc, ◌+◌, ◌≡◌, refl, ap, ◌==◌, ==_iff, none, some, [], ◌∷◌, ◌++◌, length, take, drop,
  arith, Bool-cases, ◌⊎◌, inl, inr, append_assoc, take-append_length,
}
use jhcommon.Prelude.Text.{Text, rfind, Lacks, Lacks-join}
use jhcommon.Path.{
  separator, one_dot, dot, last_byte, append, normalize, parent, filename, file_basename,
  filename_extention,
}

-- The last c, with what stands before and behind it.
rfind-parts :
    (c : ℕ) (s : Text)
    → ((rfind c s ≡ none) × Lacks c s)
      ⊎ ((a : Text) × (b : Text) × (s ≡ a ++ c ∷ b) × (rfind c s ≡ some (length a)) × Lacks c b)
rfind-parts c [] = inl (refl, refl)
rfind-parts c (x ∷ s) = elim (rfind-parts c s) [
  | inl (e, l) ↦ elim (Bool-cases (x == c)) [
    | inl hit ↦
        let same : x ≡ c = (==_iff x c).0 hit in
        inr ([], s, ap (λ y. y ∷ s) same, rw (e, hit) refl, l)
    | inr miss ↦ inl (rw (e, miss) refl, Lacks-join c x s miss l)
  ]
  | inr (a, b, e, r, l) ↦ inr (x ∷ a, b, ap (◌∷◌ x) e, rw r refl, l)
]

drop-past_length : (a b : Text) (c : ℕ) → drop (length a + 1) (a ++ c ∷ b) ≡ b
drop-past_length [] b c = refl
drop-past_length (x ∷ a) b c =
    let n : suc (length a) + 1 ≡ suc (length a + 1) = omega arith in rw n (drop-past_length a b c)

take-past_length : (a b : Text) (c : ℕ) → take (length a + 1) (a ++ c ∷ b) ≡ a ++ c ∷ []
take-past_length [] b c = refl
take-past_length (x ∷ a) b c =
    let n : suc (length a) + 1 ≡ suc (length a + 1) = omega arith in
    rw n (ap (◌∷◌ x) (take-past_length a b c))

last_byte-snoc : (a : Text) (c : ℕ) → last_byte (a ++ c ∷ []) ≡ some c
last_byte-snoc [] c = refl
last_byte-snoc (x ∷ []) c = refl
last_byte-snoc (x ∷ y ∷ a) c = last_byte-snoc (y ∷ a) c

-- Behind a '/' the name follows, with no other in between.
append-root : (a b : Text) → append (a ++ separator ∷ []) b ≡ some (a ++ separator ∷ b)
unfolding append
append-root a b = rw (last_byte-snoc a separator, append_assoc a (separator ∷ []) b) refl

-- Of a path that `normalize` leaves as p: the file name has no '/'. A p without '/' is the file name,
-- and the parent is "."; otherwise the parent with the file name appended is p.
pub append-parent_filename :
    (path p : Text)
    → normalize false path ≡ some p
    → (d : Text) × (f : Text) × (parent false path ≡ some d)
      × (filename false path ≡ some f)
      × Lacks separator f
      × (((d ≡ one_dot) × (f ≡ p)) ⊎ (append d f ≡ some p))
unfolding parent filename
append-parent_filename path p e = elim (rfind-parts separator p) [
  | inl (r, l) ↦ (one_dot, p, rw (e, r) refl, rw (e, r) refl, l, inl (refl, refl))
  | inr (a, b, q, r, l) ↦
      let named = drop-past_length a b separator in
      let above = take-past_length a b separator in
      (
        a ++ separator ∷ [],
        b,
        rw (e, r, q, above) refl,
        rw (e, r, q, named) refl,
        l,
        inr (rw q (append-root a b)),
      )
]

-- Where `size_t` is no wider than `unsigned`: of a file name without '.', the base is the name and the extention is empty; otherwise the two are
-- what stands before and behind its last '.'.
pub file_basename_extention :
    (path f : Text)
    → filename false path ≡ some f
    → (b : Text) × (e : Text) × (file_basename false path ≡ some b)
      × (filename_extention false path ≡ some e)
      × Lacks dot e
      × ((Lacks dot f × (b ≡ f) × (e ≡ [])) ⊎ (f ≡ b ++ dot ∷ e))
unfolding file_basename filename_extention
file_basename_extention path f named = elim (rfind-parts dot f) [
  | inl (r, l) ↦ (f, [], rw (named, r) refl, rw (named, r) refl, refl, inl (l, refl, refl))
  | inr (a, b, q, r, l) ↦
      let base = take-append_length a (dot ∷ b) in
      let behind_dot = drop-past_length a b dot in
      (a, b, rw (named, r, q, base) refl, rw (named, r, q, behind_dot) refl, l, inr q)
]
