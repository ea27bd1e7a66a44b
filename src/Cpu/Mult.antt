-- ===== src/Cpu/Mult.antt =====
-- The function Mult of machine/mipssim.cc: a product of two words, by shifts and additions.
use nachos_assignment.Cpu
pub mod Exact
pub mod Signed
use nachos_assignment.Base.{
  ◌&&◌, ◌||◌, not, ℕ, zero, suc, ◌+◌, ◌-◌, ◌*◌, ◌/◌, ◌%◌, ◌^◌, bit_and, bit_or, Bool, ltb, ◌==◌,
  if◌then◌else◌, agree, ℤ, pos, ltb_ℤ, to_unsigned,
}

-- The words `*hiPtr` and `*loPtr`, as unsigned numbers.
pub record Product : Type 0 where
  pub hi : ℕ
  pub lo : ℕ

-- A double word `bHi`, `bLo` added to a double word, with the carry between its halves.
unfoldable pub add_product : Product → Product → Product
add_product p b =
    let lo = (p.lo + b.lo) % 2 ^ 32 in
    let carried = if ltb lo b.lo then (p.hi + 1) % 2 ^ 32 else p.hi in
    record { hi = (carried + b.hi) % 2 ^ 32; lo = lo }

-- bHi <<= 1; if (bLo & 0x80000000) bHi |= 1; bLo <<= 1
unfoldable pub shift_product : Product → Product
shift_product b =
    let hi = b.hi * 2 % 2 ^ 32 in
    record { hi = if bit_and b.lo (2 ^ 31) == 0 then hi else bit_or hi 1; lo = b.lo * 2 % 2 ^ 32 }

-- a >>= 1 of an `int`, on its 32 bits.
unfoldable pub halve : ℕ → ℕ
halve a = if ltb a (2 ^ 31) then a / 2 else a / 2 + 2 ^ 31

-- The loop over the bits of `a`, with the rounds that are left.
unfoldable pub mult_loop : ℕ → ℕ → Product → Product → Product
mult_loop zero a b p = p
mult_loop (suc rounds) a b p =
    let added = add_product p b in
    let odd = not (bit_and a 1 == 0) in
    let rest = mult_loop rounds (halve a) (shift_product b) (if odd then added else p) in
    if odd && (bit_and a (2 ^ 32 - 2) == 0) then added else rest

-- The two's complement of a double word.
unfoldable pub negate_product : Product → Product
negate_product p =
    let hi = 2 ^ 32 - 1 - p.hi in
    let lo = (2 ^ 32 - 1 - p.lo + 1) % 2 ^ 32 in
    record { hi = if lo == 0 then (hi + 1) % 2 ^ 32 else hi; lo = lo }

-- -a on 32 bits.
abbrev pub negate_word : ℕ → ℕ
negate_word a = (2 ^ 32 - a) % 2 ^ 32

abbrev pub without_sign : Bool → ℤ → ℕ
without_sign signed a =
    if signed && ltb_ℤ a (pos 0) then negate_word (to_unsigned a) else to_unsigned a

unfoldable pub mult : ℤ → ℤ → Bool → Product
mult a b signed =
    let negative = signed && not (agree (ltb_ℤ a (pos 0)) (ltb_ℤ b (pos 0))) in
    let product =
      mult_loop 32 (without_sign signed a) (record { hi = 0; lo = without_sign signed b })
        (record { hi = 0; lo = 0 }) in
    if (to_unsigned a == 0) || (to_unsigned b == 0)
    then record { hi = 0; lo = 0 }
    else if negative
    then negate_product product
    else product
