-- ===== src/Vector.antt =====
-- include/jh_vector.h: a growing array on a buffer of bytes, in which a slot has an object from its
-- placement new to its destructor. A slot without an object is `none`. An operation is none where
-- the code aborts, reads through NULL, or touches a slot that is outside the buffer or empty. Sizes
-- are `unsigned`, so a doubled size is taken modulo 2^32.
pub mod Grow
pub mod Refine
pub mod Resize
pub mod Assign
pub mod Sequence
pub mod Contract
mod Tests
use jhcommon.Prelude.{
  ℕ, zero, suc, ◌+◌, ◌-◌, ◌*◌, ◌%◌, ◌^◌, Option, none, some, List, [], ◌∷◌, length, set, get_or,
  replicate, ltb, ◌==◌, if◌then◌else◌, ◌>>=◌,
}

abbrev pub Slots {ℓ} : Type ℓ → Type ℓ
Slots A = List (Option A)

pub record Vector {ℓ} (A : Type ℓ) : Type ℓ where
  pub allocated : ℕ
  pub slots : List (Option A)
  pub size : ℕ

abbrev pub default_allocation : ℕ
default_allocation = 32

abbrev pub init {ℓ} : {A : Type ℓ} → ℕ → Vector A
init allocated = record { allocated = allocated; slots = replicate allocated none; size = 0 }

-- `new( data + i ) T( x )`, and `data[ i ] = x`
unfoldable pub store {ℓ} : {A : Type ℓ} → ℕ → A → Slots A → Option (Slots A)
store i x slots = if ltb i (length slots) then some (set slots i (some x)) else none

-- `data[ i ].~T()`
unfoldable pub destroy {ℓ} : {A : Type ℓ} → ℕ → Slots A → Option (Slots A)
destroy i slots = do x ← get_or slots i none; some (set slots i none)

-- the loop of `sizeup`: n objects from the index i on
unfoldable pub move_from {ℓ} : {A : Type ℓ} → ℕ → ℕ → Slots A → Slots A → Option (Slots A)
move_from i zero slots temp = some temp
move_from i (suc n) slots temp = do
  x ← get_or slots i none
  temp' ← store i x temp
  move_from (i + 1) n slots temp'

-- the size that `sizeup` allocates
abbrev pub grown {ℓ} : {A : Type ℓ} → ℕ → Vector A → ℕ
grown new_size v =
    if new_size == 0
    then (if v.allocated == 0 then default_allocation else v.allocated * 2 % 2 ^ 32)
    else new_size

unfoldable pub sizeup {ℓ} : {A : Type ℓ} → ℕ → Vector A → Option (Vector A)
sizeup new_size v = do
  temp ← move_from 0 v.size v.slots (replicate (grown new_size v) none)
  some (record { allocated = grown new_size v; slots = temp; size = v.size })

unfoldable pub push_back {ℓ} : {A : Type ℓ} → A → Vector A → Option (Vector A)
push_back x v = do
  v1 ← if v.size == v.allocated then sizeup 0 v else some v
  slots ← store v1.size x v1.slots
  some (record v1 { slots = slots; size = v1.size + 1 })

unfoldable pub reserve {ℓ} : {A : Type ℓ} → ℕ → Vector A → Option (Vector A)
reserve size v = if ltb v.allocated size then sizeup size v else some v

-- `operator[]`
unfoldable pub at {ℓ} : {A : Type ℓ} → ℕ → Vector A → Option A
at ind v = if ltb ind v.size then get_or v.slots ind none else none

-- the loop of `erase`: n objects, each a place down
unfoldable pub shift_down {ℓ} : {A : Type ℓ} → ℕ → ℕ → Slots A → Option (Slots A)
shift_down i zero slots = some slots
shift_down i (suc n) slots = do
  x ← get_or slots (i + 1) none
  slots' ← store i x slots
  shift_down (i + 1) n slots'

unfoldable pub erase {ℓ} : {A : Type ℓ} → ℕ → Vector A → Option (Vector A)
erase ind v =
    if ltb ind v.size
    then (do
      slots ← shift_down ind (v.size - 1 - ind) v.slots
      slots' ← destroy (v.size - 1) slots
      some (record v { slots = slots'; size = v.size - 1 }))
    else none

-- the loop of `clear`, and that of `resize` which shrinks
unfoldable pub destroy_from {ℓ} : {A : Type ℓ} → ℕ → ℕ → Slots A → Option (Slots A)
destroy_from i zero slots = some slots
destroy_from i (suc n) slots = do slots' ← destroy i slots; destroy_from (i + 1) n slots'

unfoldable pub clear {ℓ} : {A : Type ℓ} → Vector A → Option (Vector A)
clear v = do slots ← destroy_from 0 v.size v.slots; some (record v { slots = slots; size = 0 })

-- the growth of `resize`
unfoldable pub enlarge {ℓ} : {A : Type ℓ} → ℕ → Vector A → Option (Vector A)
enlarge new_size v =
    if ltb v.allocated new_size
    then (if ltb new_size (v.allocated * 2 % 2 ^ 32) then sizeup 0 v else sizeup new_size v)
    else some v

-- the loop of `resize` that grows: n objects `T()` from the index i on
unfoldable pub construct_from {ℓ} : {A : Type ℓ} → A → ℕ → ℕ → Slots A → Option (Slots A)
construct_from fresh i zero slots = some slots
construct_from fresh i (suc n) slots = do
  slots' ← store i fresh slots
  construct_from fresh (i + 1) n slots'

-- `T()` is an argument
unfoldable pub resize {ℓ} : {A : Type ℓ} → A → ℕ → Vector A → Option (Vector A)
resize fresh new_size v = do
  v1 ← enlarge new_size v
  slots1 ← destroy_from new_size (v1.size - new_size) v1.slots
  slots2 ← construct_from fresh v1.size (new_size - v1.size) slots1
  some (record v1 { slots = slots2; size = new_size })

-- `*this = rhs` when the vector is now v: none is the vector itself
abbrev pub source {ℓ} : {A : Type ℓ} → Option (Vector A) → Vector A → Vector A
source none v = v
source (some rhs) v = rhs

-- the copies of `operator=`, behind the `clear`
unfoldable pub copy_objects {ℓ} : {A : Type ℓ} → Vector A → Vector A → Option (Vector A)
copy_objects rhs v = do
  v1 ← if ltb v.allocated rhs.size then sizeup rhs.size v else some v
  slots ← move_from 0 rhs.size rhs.slots v1.slots
  some (record v1 { slots = slots; size = rhs.size })

-- `operator=`
unfoldable pub assign {ℓ} : {A : Type ℓ} → Option (Vector A) → Vector A → Option (Vector A)
assign rhs v = do v1 ← clear v; copy_objects (source rhs v1) v1

-- the copy constructor
unfoldable pub copied {ℓ} : {A : Type ℓ} → Vector A → Option (Vector A)
copied rhs = assign (some rhs) (init 0)

-- the destructor, which takes the buffer away with the objects
unfoldable pub destruct {ℓ} : {A : Type ℓ} → Vector A → Option (Vector A)
destruct v = do v1 ← clear v; some (record v1 { slots = [] })
