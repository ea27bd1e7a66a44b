-- ===== src/Base/Results.antt =====
-- How a piece of kernel code ends: it returns, an ASSERT of lib/debug.h fails and aborts the
-- simulator, the machine is halted, C++ leaves the behaviour undefined (a NULL pointer followed, an
-- array left, an `int` that overflows, a function with a result that falls off its end), the
-- thread sleeps for good, since nothing is left that would wake it, or a loop never ends.
use Prim.Native.Nat.{ℕ, ◌^◌}
use mathlib.Core.Bool.{Bool, true, false}
use mathlib.Core.Option.{Option, none, some}
use mathlib.Core.Path.{◌≡◌, refl}
use mathlib.Core.Logic.{◌⊎◌, inl, inr}
use mathlib.Core.List.{List}
use nachos_assignment.Base.Lists.{get_elem?}
use nachos_assignment.Base.Tests.{ltb, if◌then◌else◌}

pub data Stop : Type 0 where
  aborted halted undefined waiting looping : Stop

pub data Outcome {ℓ} (A : Type ℓ) : Type ℓ where
  ok : A → Outcome A
  err : Stop → Outcome A

infixl 5 ◌>>=◌ ◌>>◌
abbrev pub ◌>>=◌ {ℓ κ} : {A : Type ℓ} {B : Type κ} → Outcome A → (A → Outcome B) → Outcome B
ok a >>= f = f a
err e >>= f = err e

abbrev pub ◌>>◌ {ℓ} : {B : Type ℓ} → Outcome (Unit {0}) → Outcome B → Outcome B
m >> k = m >>= λ _. k

-- ASSERT(condition)
abbrev pub assert : Bool → Outcome (Unit {0})
assert true = ok tt
assert false = err aborted

-- Follows a pointer, or reads a cell that may not be there.
abbrev pub deref {ℓ} : {A : Type ℓ} → Option A → Outcome A
deref none = err undefined
deref (some a) = ok a

-- a[i]
abbrev pub at {ℓ} : {A : Type ℓ} → List A → ℕ → Outcome A
at xs i = deref (get_elem? xs i)

-- The value of an `int` expression that is not negative; one that overflows is undefined.
abbrev pub check_int : ℕ → Outcome (Unit {0})
check_int n = if ltb n (2 ^ 31) then ok tt else err undefined

-- To split on the end of a piece of code and keep the equation.
pub Outcome-cases {ℓ} :
    {A : Type ℓ} (r : Outcome A) → ((a : A) × (r ≡ ok a)) ⊎ ((s : Stop) × (r ≡ err s))
Outcome-cases (ok a) = inl (a, refl)
Outcome-cases (err s) = inr (s, refl)
