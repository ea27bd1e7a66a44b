-- ===== src/Cpu.antt =====
-- The processor of machine/mipssim.h and machine/mipssim.cc: the 32-bit arithmetic of its registers
-- and the delay of a branch. A register holds an `int`; arithmetic of two registers wraps on 32 bits,
-- as the host's does and as the overflow tests of the code rely on.
pub mod Words
pub mod OpCode
pub mod Decode
pub mod Mult
pub mod Effects
pub mod Execute
pub mod Bounds
pub mod Fields
pub mod Overflow
pub mod Masks
pub mod Halves
pub mod Unaligned
pub mod Shifts
pub mod Encode
pub mod Division
pub mod Tests
pub mod User
pub mod Registers
pub mod Access
pub mod Safe
pub mod Parts
pub mod Safety
pub mod Isolation
pub mod Held
pub mod PartWord
pub mod Ending
pub mod Straddle
use nachos_assignment.AddrSpace.Run.{pc_reg, next_pc_reg}
use nachos_assignment.Base.{
  ◌&&◌, ◌||◌, not, ℕ, zero, suc, ◌+◌, ◌-◌, ◌*◌, ◌/◌, ◌%◌, ◌^◌, ◌≤◌, ◌<◌, min, max, bit_and, bit_or,
  bit_xor, ◌≡◌, refl, sym, ap, ap₂, ◌∙◌, subst, fun_ext, ◌≢◌, ◌↔◌, ◌⊎◌, inl, inr, Bool, true, false,
  Option, none, some, List, [], ◌∷◌, ◌++◌, map, arith, ltb, leb, ◌==◌, if◌then◌else◌, ltb→lt,
  lt→ltb, leb→le, ==_iff, tests, Bool-cases, Option-cases, every, every-test, agree, agree_eq,
  length, get_elem?, set, get_or, take, drop, replicate, length-append, length-set,
  get_elem?-set_self, get_elem?-set_ne, take-append-drop, length-take, length-drop,
  length-replicate, length-map, get_elem?-eq-get_or, get_or-set_self, get_or-set_ne,
  get_or-replicate, get_elem?-none, get_elem?-some, get_elem?_beyond, get_elem?_inside, drop_all,
  drop_step, set-set_self, set-set_ne, set-get_elem?, among, IsDistinct, ℤ, pos, negsuc, pos_part,
  neg_part, sub_ℕ, neg_ℤ, ltb_ℤ, to_unsigned, to_int, IsInt, to_int-to_unsigned, ◌+ℤ◌, ◌-ℤ◌,
  same_int, minus_one, Name, same_name, same_name_eq, same_name_refl, Stop, aborted, halted,
  undefined, Outcome, ok, err, check_int, ◌>>=◌, ◌>>◌, assert, deref, at, Name, same_name,
  same_name_eq, same_name_refl,
}

abbrev pub hi_reg : ℕ
hi_reg = 32

abbrev pub lo_reg : ℕ
lo_reg = 33

abbrev pub prev_pc_reg : ℕ
prev_pc_reg = 36

abbrev pub r31 : ℕ
r31 = 31

abbrev pub sign_bit : ℕ
sign_bit = 2 ^ 31

-- a + b and a - b of two `int`s.
unfoldable pub add_int : ℤ → ℤ → ℤ
add_int a b = to_int ((to_unsigned a + to_unsigned b) % 2 ^ 32)

unfoldable pub sub_int : ℤ → ℤ → ℤ
sub_int a b = to_int ((to_unsigned a + (2 ^ 32 - to_unsigned b)) % 2 ^ 32)

-- a & b, a | b, a ^ b and ~a
unfoldable pub and_int : ℤ → ℤ → ℤ
and_int a b = to_int (bit_and (to_unsigned a) (to_unsigned b))

unfoldable pub or_int : ℤ → ℤ → ℤ
or_int a b = to_int (bit_or (to_unsigned a) (to_unsigned b))

unfoldable pub xor_int : ℤ → ℤ → ℤ
xor_int a b = to_int (bit_xor (to_unsigned a) (to_unsigned b))

unfoldable pub not_int : ℤ → ℤ
not_int a = to_int (2 ^ 32 - 1 - to_unsigned a)

-- a << n
unfoldable pub shift_left : ℤ → ℕ → ℤ
shift_left a n = to_int (to_unsigned a * 2 ^ n % 2 ^ 32)

-- a >> n of an `int`, which repeats the sign.
unfoldable pub shift_right : ℤ → ℕ → ℤ
shift_right (pos a) n = pos (a / 2 ^ n)
shift_right (negsuc a) n = negsuc (a / 2 ^ n)

-- a & SIGN_BIT
unfoldable pub has_sign : ℤ → Bool
has_sign a = not (bit_and (to_unsigned a) sign_bit == 0)

-- The size of a number without its sign.
abbrev pub magnitude : ℤ → ℕ
magnitude a = pos_part a + neg_part a

abbrev pub is_negative : ℤ → Bool
is_negative (pos a) = false
is_negative (negsuc a) = true

-- a / b, towards zero; the one quotient that is no `int` is undefined.
unfoldable pub div_int : ℤ → ℤ → Outcome ℤ
div_int a b =
    if agree (is_negative a) (is_negative b)
    then (check_int (magnitude a / magnitude b) >> ok (pos (magnitude a / magnitude b)))
    else ok (neg_ℤ (pos (magnitude a / magnitude b)))

-- a % b, with the sign of `a`.
unfoldable pub rem_int : ℤ → ℤ → ℤ
rem_int a b =
    if is_negative a
    then neg_ℤ (pos (magnitude a % magnitude b))
    else pos (magnitude a % magnitude b)

-- Machine::DelayedLoad and the advance of the program counters, at the end of OneInstruction.
unfoldable pub advance : List ℤ → ℤ → Outcome (List ℤ)
advance regs pc_after = do
  pc ← at regs pc_reg
  next ← at regs next_pc_reg
  ok (set (set (set regs prev_pc_reg pc) pc_reg next) next_pc_reg pc_after)
