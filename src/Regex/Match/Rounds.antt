-- ===== src/Regex/Match/Rounds.antt =====
-- src/Regex.cpp: how much of a run an element takes, and that the way back does not use up the fuel.
use jhcommon.Prelude.{
  ℕ, zero, suc, ◌-◌, ◌≤◌, min, ◌≡◌, ◌∙◌, Bool, true, false, Option, none, some, List, [], ◌∷◌,
  length, drop, arith, ltb, if◌then◌else◌, Bool-cases, inl, inr,
}
use jhcommon.Prelude.Text.{Text}
use jhcommon.Regex.{Run, ok, undefined, out_of_fuel, ◌>>=◌}
use jhcommon.Regex.Groups.{GroupData, backtrack_groups}
use jhcommon.Regex.Match.Greedy.{first_char, run_length, taken}

-- What an element takes of a run of characters that it accepts: all of it without a bound, and up
-- to one more than the bound with one.
abbrev pub consumed : Option ℕ → ℕ → ℕ
consumed none r = r
consumed (some m) r = min (suc m) r

pub run_length-more :
    (p : ℕ → Bool) (rest : Text) (n : ℕ)
    → p 0 ≡ false
    → n ≤ run_length p rest
    → p (first_char (drop n rest)) ≡ ltb n (run_length p rest)
run_length-more p [] zero z h = z ∙ ground arith
run_length-more p [] (suc n) z h = absurd (omega arith)
run_length-more p (c ∷ cs) zero z h = ground arith
run_length-more p (c ∷ cs) (suc n) z h = elim (Bool-cases (p c)) [
  | inl k ↦ let ih = run_length-more p cs n z in ground (arith, k, ih)
  | inr k ↦ ground (arith, k)
]

pub if_true : {x u : ℕ} (w : ℕ) (b : Bool) → b ≡ true → x ≡ u → x ≡ (if b then u else w)
if_true w b e q = rw e q

pub if_false : {x w : ℕ} (u : ℕ) (b : Bool) → b ≡ false → x ≡ w → x ≡ (if b then u else w)
if_false u b e q = rw e q

pub taken-le : (m : Option ℕ) (r : ℕ) → taken m 0 r ≤ r
taken-le none r = omega arith
taken-le (some m) r = omega arith

pub consumed-more :
    (m : Option ℕ) (r : ℕ) → ltb (taken m 0 r) r ≡ true → consumed m r ≡ suc (taken m 0 r)
consumed-more none r h = ground arith
consumed-more (some m) r h = ground arith

pub consumed-all : (m : Option ℕ) (r : ℕ) → ltb (taken m 0 r) r ≡ false → consumed m r ≡ taken m 0 r
consumed-all none r h = ground arith
consumed-all (some m) r h = ground arith

-- the fuel is not used up
abbrev pub Ends : {A : Type 0} → Run A → Type 0
Ends (ok a) = Unit
Ends undefined = Unit
Ends out_of_fuel = ⊥

pub bind-Ends :
    {A B : Type 0} (r : Run A) (f : A → Run B) → Ends r → ((a : A) → Ends (f a)) → Ends (r >>= f)
bind-Ends (ok a) f e k = k a
bind-Ends undefined f e k = tt
bind-Ends out_of_fuel f e k = absurd e

pub backtrack_groups-Ends : (gs : List GroupData) (cur : ℕ) → Ends (backtrack_groups gs cur)
unfolding backtrack_groups
backtrack_groups-Ends [] cur = tt
backtrack_groups-Ends (g ∷ gs) cur = elim (Bool-cases (ltb cur g.end_pos)) [
  | inr b ↦ rw b (bind-Ends _ _ (backtrack_groups-Ends gs cur) (λ _. tt))
  | inl b ↦ elim (Bool-cases (ltb (length g.string) (g.end_pos - cur))) [
    | inl k ↦ rw (b, k) tt
    | inr k ↦ rw (b, k) (bind-Ends _ _ (backtrack_groups-Ends gs cur) (λ _. tt))
  ]
]
