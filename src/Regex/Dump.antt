-- ===== src/Regex/Dump.antt =====
-- src/Regex.cpp: `dumpTree` and `dumpElement`.
use jhcommon.Prelude.{
  ℕ, zero, suc, ◌+◌, ◌/◌, ◌%◌, Bool, true, ◌&&◌, ◌||◌, not, Option, none, some, [], ◌∷◌, ◌++◌,
  length, ltb, leb, ◌==◌, if◌then◌else◌,
}
use jhcommon.Prelude.Text.{Text, codes}
use jhcommon.Regex.{
  Run, ok, undefined, out_of_fuel, ◌>>=◌, type_unknown, type_sequence, type_or, type_terminal,
  type_class, Element, Elements, elem_at,
}

-- the digits of a number to a base, with the fuel n + 1
unfoldable pub digits : ℕ → ℕ → ℕ → Text
digits zero base n = []
digits (suc fuel) base n =
    let d = n % base in
    let c = if ltb d 10 then 48 + d else 87 + d in
    let rest = digits fuel base (n / base) in if ltb n base then c ∷ [] else rest ++ (c ∷ [])

-- `strm <<` of an `int`, -1 for a bound that there is not
abbrev pub decimal : ℕ → Text
decimal n = digits (suc n) 10 n

abbrev pub bound : Option ℕ → Text
bound none = codes "-1"
bound (some n) = decimal n

-- `std::hex` of a `char` turned to `int`
abbrev pub hex : ℕ → Text
hex c = if ltb c 128 then digits (suc c) 16 c else codes "ffffff" ++ digits (suc c) 16 c

abbrev pub differs : ℕ → Option ℕ → Bool
differs n none = true
differs n (some m) = not (n == m)

abbrev pub bounds : Element → Text
bounds e = codes "{" ++ decimal e.repeat_min ++ codes "," ++ bound e.repeat_max ++ codes "}"

abbrev pub dump_bounds : Element → Text
dump_bounds e = if differs e.repeat_min e.repeat_max then bounds e else []

-- `mTermStartChar < ' '` on signed characters
abbrev pub is_control : ℕ → Bool
is_control c = ltb c 32 || leb 128 c

unfoldable pub dump_terminal : Element → Text
dump_terminal e =
    let start = e.term_start_char in
    let end = e.term_end_char in
    if start == 0 && end == 127
    then codes "."
    else if start == end
    then (if is_control start then codes "0x" ++ hex start else start ∷ [])
    else start ∷ (codes "-" ++ (end ∷ []))

-- `dumpElement`; an unknown type is a fatal error of the log
unfoldable pub dump_element : Element → Run Text
dump_element e = elim e.kind [
  | type_sequence ↦ ok (codes "[S]")
  | type_or ↦ ok (codes "[O]" ++ dump_bounds e)
  | type_terminal ↦ ok (codes "[T:" ++ dump_terminal e ++ codes "]" ++ dump_bounds e)
  | type_class ↦ ok (
      codes (if e.class_invert then "[C^]" else "[C]")
      ++ (if differs 1 (some e.repeat_min) || differs 1 e.repeat_max then bounds e else []))
  | type_unknown ↦ undefined
]

-- the way up, `none` for NULL
unfoldable pub climb_all : ℕ → Elements → ℕ → Run (Option ℕ)
climb_all zero t cur = out_of_fuel
climb_all (suc fuel) t cur = do
  x ← elem_at t cur
  elim x.parent [
    | none ↦ ok none
    | some up ↦ do
      y ← elem_at t up
      elim y.next [ some n ↦ ok (some n) | none ↦ climb_all fuel t up ]
  ]

unfoldable pub dump_next : Elements → ℕ → Run (Option ℕ)
dump_next t cur = do
  x ← elem_at t cur
  elim x.child [
    | some k ↦ ok (some k)
    | none ↦ elim x.next [ some n ↦ ok (some n) | none ↦ climb_all (suc (length t)) t cur ]
  ]

unfoldable pub dump_from : ℕ → Elements → ℕ → Run Text
dump_from zero t cur = out_of_fuel
dump_from (suc fuel) t cur = do
  e ← elem_at t cur
  text ← dump_element e
  n ← dump_next t cur
  elim n [ none ↦ ok text | some c ↦ dump_from fuel t c >>= λ rest. ok (text ++ rest) ]

-- `dumpTree` of the tree behind the test of the state
unfoldable pub dump_tree : Elements → Run Text
dump_tree t = dump_from (length t) t 0
