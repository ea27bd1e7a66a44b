-- ===== src/Cpu/Words.antt =====
-- The 32-bit arithmetic of the processor stays within the values of an `int`.
use nachos_assignment.Bitmap.Bits.{bit_and-le, bit_or-lt, bit_xor-lt}
use nachos_assignment.Cpu.{
  add_int, sub_int, and_int, or_int, xor_int, not_int, shift_left, shift_right,
}
use native.Mathlib.Nat.{div-le_self}
use nachos_assignment.Base.{
  ℕ, ◌+◌, ◌-◌, ◌*◌, ◌%◌, ◌^◌, ◌<◌, arith, ℤ, pos, negsuc, to_unsigned, to_int, IsInt,
}

pub to_unsigned-lt : (a : ℤ) → to_unsigned a < 2 ^ 32
to_unsigned-lt (pos a) = omega arith
to_unsigned-lt (negsuc a) = omega arith

pub to_int-IsInt : (w : ℕ) → w < 2 ^ 32 → IsInt (to_int w)
to_int-IsInt w h = ground arith

pub add_int-IsInt : (a b : ℤ) → IsInt (add_int a b)
unfolding add_int
add_int-IsInt a b = to_int-IsInt ((to_unsigned a + to_unsigned b) % 2 ^ 32) (omega arith)

pub sub_int-IsInt : (a b : ℤ) → IsInt (sub_int a b)
unfolding sub_int
sub_int-IsInt a b = to_int-IsInt ((to_unsigned a + (2 ^ 32 - to_unsigned b)) % 2 ^ 32) (omega arith)

pub and_int-IsInt : (a b : ℤ) → IsInt (and_int a b)
unfolding and_int
and_int-IsInt a b = to_int-IsInt _ (
    omega (
      arith,
      bit_and-le (to_unsigned a) (to_unsigned a) (to_unsigned b) (omega arith),
      to_unsigned-lt a,
    ))

pub or_int-IsInt : (a b : ℤ) → IsInt (or_int a b)
unfolding or_int
or_int-IsInt a b =
    to_int-IsInt _
      (bit_or-lt 32 (to_unsigned a) (to_unsigned b) (to_unsigned-lt a) (to_unsigned-lt b))

pub xor_int-IsInt : (a b : ℤ) → IsInt (xor_int a b)
unfolding xor_int
xor_int-IsInt a b =
    to_int-IsInt _
      (bit_xor-lt 32 (to_unsigned a) (to_unsigned b) (to_unsigned-lt a) (to_unsigned-lt b))

pub not_int-IsInt : (a : ℤ) → IsInt (not_int a)
unfolding not_int
not_int-IsInt a = to_int-IsInt (2 ^ 32 - 1 - to_unsigned a) (omega arith)

pub shift_left-IsInt : (a : ℤ) (n : ℕ) → IsInt (shift_left a n)
unfolding shift_left
shift_left-IsInt a n = to_int-IsInt (to_unsigned a * 2 ^ n % 2 ^ 32) (omega arith)

pub shift_right-IsInt : (a : ℤ) (n : ℕ) → IsInt a → IsInt (shift_right a n)
unfolding shift_right
shift_right-IsInt (pos a) n h = omega (arith, div-le_self a (2 ^ n))
shift_right-IsInt (negsuc a) n h = omega (arith, div-le_self a (2 ^ n))
