-- ===== src/Regex/Range.antt =====
-- src/Regex.cpp: the errors of `prepare`, and the loop over the range of a repetition.
use jhcommon.Prelude.{
  ℕ, zero, suc, ◌+◌, ◌-◌, ◌*◌, Bool, true, false, ◌&&◌, Option, none, some, leb, ltb, ◌^◌, ◌==◌,
  if◌then◌else◌,
}
use jhcommon.Prelude.Text.{Text}
use jhcommon.Regex.{
  Run, ok, undefined, out_of_fuel, ◌>>=◌, Element, Elements, elem_at, update, char_at,
}

pub data PrepareError : Type 0 where
  invalid_range : PrepareError
  bare_star : PrepareError
  bare_plus : PrepareError
  bare_question : PrepareError
  bare_brace : PrepareError
  bare_bracket : PrepareError
  many_commas : PrepareError
  non_numeric : PrepareError
  bracket_in_range : PrepareError
  bad_range_start : PrepareError

abbrev pub times_ten : Option ℕ → ℕ → Option ℕ
times_ten none d = none
times_ten (some n) d = some (n * 10 + d)

-- how the loop of a range ends: at the index of the brace, in the maximum or not, or with an error
pub data Range : Type 0 where
  closed : ℕ → Bool → Range
  broken : PrepareError → Range

abbrev pub add_digit : Bool → ℕ → Element → Element
add_digit true d e = record e { repeat_max = times_ten e.repeat_max d }
add_digit false d e = record e { repeat_min = e.repeat_min * 10 + d }

-- Both bounds are an `int`, whose overflow is undefined.
abbrev pub in_int : Element → Bool
in_int e = ltb e.repeat_min (2 ^ 31) && elim e.repeat_max [ none ↦ true | some n ↦ ltb n (2 ^ 31) ]

unfoldable pub no_overflow : ℕ → Elements → Run Elements
no_overflow l t = elem_at t l >>= λ e. if in_int e then ok t else undefined

-- The loop of a range from the index i, `in_max` for IN_RANGE_MAX, with what it writes to the
-- element's bounds.
unfoldable pub range_from : ℕ → Text → ℕ → Bool → ℕ → Elements → Run (Range × Elements)
range_from zero s i in_max l t = out_of_fuel
range_from (suc fuel) s i in_max l t = do
  c ← char_at s i
  (if c == 125
      then ok (closed i in_max, t)
      else if c == 44
      then (if in_max then ok (broken many_commas, t) else range_from fuel s (suc i) true l t)
      else if leb 48 c && leb c 57
      then (do
        t ← update t l (add_digit in_max (c - 48))
        t ← no_overflow l t
        range_from fuel s (suc i) in_max l t)
      else ok (broken non_numeric, t))
