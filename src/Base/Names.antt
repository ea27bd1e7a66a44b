-- ===== src/Base/Names.antt =====
-- C strings as lists of bytes, without the 0 that ends them, and strcmp's test for equality.
use Prim.Native.Nat.{ℕ}
use mathlib.Core.Path.{◌≡◌, refl}
use mathlib.Core.Bool.{Bool, true, false, ◌&&◌}
use mathlib.Core.List.{List, [], ◌∷◌}
use native.Mathlib.Omega.{arith}
use nachos_assignment.Base.Tests.{◌==◌}

abbrev pub Name : Type 0
Name = List ℕ

-- strcmp(a, b) == 0
unfoldable pub same_name : Name → Name → Bool
same_name [] [] = true
same_name [] (b ∷ bs) = false
same_name (a ∷ as') [] = false
same_name (a ∷ as') (b ∷ bs) = a == b && same_name as' bs

pub same_name_eq : (a b : Name) → same_name a b ≡ true → a ≡ b
unfolding same_name
same_name_eq [] [] h = refl
same_name_eq [] (b ∷ bs) h = ground arith
same_name_eq (a ∷ as') [] h = ground arith
same_name_eq (a ∷ as') (b ∷ bs) h = ground (arith, same_name_eq as' bs)

pub same_name_refl : (a : Name) → same_name a a ≡ true
unfolding same_name
same_name_refl [] = refl
same_name_refl (a ∷ as') = ground (arith, same_name_refl as')
