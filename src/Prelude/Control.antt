-- ===== src/Prelude/Control.antt =====
-- What the code takes from Rust's core library: `Result`, `ControlFlow`, and `.await` chains.
use mathlib.Core.Path.{◌≡◌, refl}
use mathlib.Core.Logic.{◌⊎◌, inl, inr}
use mathlib.Core.Bool.{Bool, true, false}
use mathlib.Core.Option.{Option, none, some}

pub data Result (A E : Type 0) : Type 0 where
  ok : A → Result A E
  err : E → Result A E

-- `Result::map_err`
abbrev pub map_err : {A E F : Type 0} → (E → F) → Result A E → Result A F
map_err f (ok a) = ok a
map_err f (err e) = err (f e)

-- `std::ops::ControlFlow<()>`
pub data ControlFlow : Type 0 where
  go_on : ControlFlow
  stop : ControlFlow

infix 1 if◌then◌else◌
abbrev pub if◌then◌else◌ {ℓ} : {A : Type ℓ} → Bool → A → A → A
if true then x else y = x
if false then x else y = y

-- An asynchronous call: it takes the world up to its end, and returns its value.
abbrev pub Async : Type 0 → Type 0 → Type 0
Async W A = W → A × W

abbrev pub pure : {W A : Type 0} → A → Async W A
pure a w = (a, w)

infixl 5 ◌>>=◌ ◌>>◌
abbrev pub ◌>>=◌ : {W A B : Type 0} → Async W A → (A → Async W B) → Async W B
◌>>=◌ m f w = let (a, w') = m w in f a w'

abbrev pub ◌>>◌ : {W A B : Type 0} → Async W A → Async W B → Async W B
◌>>◌ m k w = k (m w).1

-- To split on a computed value and keep the equation.
pub Bool-cases : (b : Bool) → (b ≡ true) ⊎ (b ≡ false)
Bool-cases true = inl refl
Bool-cases false = inr refl

pub Option-cases {ℓ} : {A : Type ℓ} (o : Option A) → (o ≡ none) ⊎ ((a : A) × (o ≡ some a))
Option-cases none = inl refl
Option-cases (some a) = inr (a, refl)

pub Result-cases :
    {A E : Type 0} (r : Result A E) → ((a : A) × (r ≡ ok a)) ⊎ ((e : E) × (r ≡ err e))
Result-cases (ok a) = inl (a, refl)
Result-cases (err e) = inr (e, refl)

pub ControlFlow-cases : (f : ControlFlow) → (f ≡ go_on) ⊎ (f ≡ stop)
ControlFlow-cases go_on = inl refl
ControlFlow-cases stop = inr refl
