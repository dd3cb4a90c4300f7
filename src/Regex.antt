-- ===== src/Regex.antt =====
-- src/Regex.cpp and include/Regex.h: the tree of an expression. The elements stand in a list and a
-- pointer is an index of it, the root at 0; an element is put at the end by `new`, and is never
-- deleted while the tree is in use. `undefined` is a dereference of NULL, an index out of range, a
-- failed `assert`, an exception of the string or an overflow of an `int`; loops run on fuel.
mod Siblings
mod Growth
mod Tree
mod Range
mod Groups
pub mod Prep
pub mod Prepare
pub mod Match
pub mod Dump
mod Tests
use mathlib.Core.Option
use jhcommon.Prelude.{
  ℕ, zero, suc, ◌+◌, Bool, true, false, ◌&&◌, ◌||◌, Option, none, some, List, [], ◌∷◌, ◌++◌, length,
  get_elem?, set, leb, ◌==◌, ◌%◌, if◌then◌else◌,
}
use jhcommon.Prelude.Text.{Text}

pub data Run (A : Type 0) : Type 0 where
  ok : A → Run A
  undefined : Run A
  out_of_fuel : Run A

infixl 5 ◌>>=◌
abbrev pub ◌>>=◌ : {A B : Type 0} → Run A → (A → Run B) → Run B
ok a >>= f = f a
undefined >>= f = undefined
out_of_fuel >>= f = out_of_fuel

abbrev pub defined : {A : Type 0} → Option A → Run A
defined none = undefined
defined (some a) = ok a

pub data ElementType : Type 0 where
  type_unknown : ElementType
  type_sequence : ElementType
  type_or : ElementType
  type_terminal : ElementType
  type_class : ElementType

abbrev pub is_class : ElementType → Bool
is_class type_class = true
is_class _ = false

abbrev pub is_or : ElementType → Bool
is_or type_or = true
is_or _ = false

abbrev pub is_terminal : ElementType → Bool
is_terminal type_terminal = true
is_terminal _ = false

-- A repetition without a bound, -1 in the source, is `none`, as is the group number -1.
pub record Element : Type 0 where
  pub parent : Option ℕ
  pub next : Option ℕ
  pub child : Option ℕ
  pub kind : ElementType
  pub term_start_char : ℕ
  pub term_end_char : ℕ
  pub repeat_min : ℕ
  pub repeat_max : Option ℕ
  pub class_invert : Bool
  pub group_num : Option ℕ

abbrev pub element : ElementType → Element
element t = record {
  parent = none;
  next = none;
  child = none;
  kind = t;
  term_start_char = 0;
  term_end_char = 0;
  repeat_min = 1;
  repeat_max = some 1;
  class_invert = false;
  group_num = none;
}

abbrev pub Elements : Type 0
Elements = List Element

abbrev pub elem_at : Elements → ℕ → Run Element
elem_at t i = defined (get_elem? t i)

-- a write to the element at an index
abbrev pub update : Elements → ℕ → (Element → Element) → Run Elements
update t i f = elem_at t i >>= λ e. ok (set t i (f e))

abbrev pub from_null : {A : Type 0} → Option A → Run A
from_null = defined

-- the walk along `mNext` to the last sibling
unfoldable pub last_sibling : ℕ → Elements → ℕ → Run ℕ
last_sibling zero t c = out_of_fuel
last_sibling (suc fuel) t c = do
  e ← elem_at t c
  elim e.next [ none ↦ ok c | some n ↦ last_sibling fuel t n ]

-- `insertChild` of the element at `e` into the one at `this`
unfoldable pub insert_child : Elements → ℕ → ℕ → Run Elements
insert_child t this e = do
  t ← update t e (λ x. record x { parent = some this; next = none })
  x ← elem_at t this
  elim x.child [
    | none ↦ update t this (λ x. record x { child = some e })
    | some c ↦ last_sibling (length t) t c >>= λ l. update t l (λ x. record x { next = some e })
  ]

unfoldable pub get_last_child : Elements → ℕ → Run (Option ℕ)
get_last_child t this = do
  x ← elem_at t this
  elim x.child [ none ↦ ok none | some c ↦ last_sibling (length t) t c >>= λ l. ok (some l) ]

-- `new Element` with these fields, and `insertChild` of it; its index is the length before
unfoldable pub add_child : Elements → ℕ → Element → Run Elements
add_child t this e = insert_child (t ++ (e ∷ [])) this (length t)

-- The order of `char`, which is signed.
unfoldable pub char_le : ℕ → ℕ → Bool
char_le a b = leb ((a + 128) % 256) ((b + 128) % 256)

unfoldable pub in_range : Element → ℕ → Bool
in_range e c = char_le e.term_start_char c && char_le c e.term_end_char

-- `regex[ i ]`: the terminating NUL can be read, what is behind it cannot
abbrev pub char_at : Text → ℕ → Run ℕ
char_at [] zero = ok 0
char_at [] (suc i) = undefined
char_at (c ∷ s) zero = ok c
char_at (c ∷ s) (suc i) = char_at s i
