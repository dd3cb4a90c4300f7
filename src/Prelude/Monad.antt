-- ===== src/Prelude/Monad.antt =====
-- `Option` as the monad of the code that may abort: `none` is the abort.
use mathlib.Core.Option.{Option, none, some}

infixl 5 ◌>>=◌
abbrev pub ◌>>=◌ {ℓ κ} : {A : Type ℓ} {B : Type κ} → Option A → (A → Option B) → Option B
none >>= f = none
some a >>= f = f a

-- a property of a result, if there is one
abbrev pub IfSome {ℓ} : {A : Type ℓ} → (A → Type 0) → Option A → Type 0
IfSome P none = Unit {0}
IfSome P (some a) = P a

pub IfSome-bind :
    {A B : Type 0} (P : A → Type 0) (Q : B → Type 0) (o : Option A) (f : A → Option B)
    → IfSome P o
    → ((a : A) → P a → IfSome Q (f a))
    → IfSome Q (o >>= f)
IfSome-bind P Q none f p step = tt
IfSome-bind P Q (some a) f p step = step a p

pub IfSome-map :
    {A : Type 0} (P Q : A → Type 0) (o : Option A) → IfSome P o → ((a : A) → P a → Q a) → IfSome Q o
IfSome-map P Q none p step = tt
IfSome-map P Q (some a) p step = step a p

pub any_some : {A : Type 0} (o : Option A) → IfSome (λ a. Unit {0}) o
any_some none = tt
any_some (some a) = tt
