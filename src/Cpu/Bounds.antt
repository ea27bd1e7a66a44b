-- ===== src/Cpu/Bounds.antt =====
-- What the instructions of machine/mipssim.cc compute is an `int` again.
use nachos_assignment.Cpu.{magnitude, is_negative, div_int, rem_int}
use nachos_assignment.Cpu.Words.{and_int-IsInt, or_int-IsInt, add_int-IsInt}
use nachos_assignment.Cpu.Mult.{Product, add_product, mult_loop, negate_product, without_sign, mult}
use nachos_assignment.Cpu.Effects.{
  set_if, branch, jump, extend, lwl_value, lwr_value, swl_value, swr_value,
}
use native.Mathlib.Nat.{div-le_self, mod-le}
use nachos_assignment.Base.{
  ◌&&◌, ◌||◌, not, ℕ, zero, suc, ◌/◌, ◌^◌, ◌≤◌, ◌<◌, ◌≡◌, refl, ◌⊎◌, inl, inr, Bool, true, false,
  arith, ltb, ◌==◌, if◌then◌else◌, ltb→lt, Bool-cases, agree, ℤ, pos, negsuc, neg_ℤ, ltb_ℤ,
  to_unsigned, IsInt, undefined, ok, err,
}

magnitude-le : (a : ℤ) → IsInt a → magnitude a ≤ 2 ^ 31
magnitude-le (pos a) h = omega arith
magnitude-le (negsuc a) h = omega arith

minus-IsInt : (n : ℕ) → n ≤ 2 ^ 31 → IsInt (neg_ℤ (pos n))
minus-IsInt zero h = ground arith
minus-IsInt (suc n) h = ground arith

-- A quotient is an `int`, or the behaviour is undefined.
pub div_int-IsInt :
    (a b : ℤ) → IsInt a → (div_int a b ≡ err undefined) ⊎ ((q : ℤ) × (div_int a b ≡ ok q) × IsInt q)
unfolding div_int
div_int-IsInt a b h =
    let small : magnitude a / magnitude b ≤ 2 ^ 31 =
      omega (arith, div-le_self (magnitude a) (magnitude b), magnitude-le a h) in
    elim (Bool-cases (agree (is_negative a) (is_negative b))) [
      | inl same ↦ elim (Bool-cases (ltb (magnitude a / magnitude b) (2 ^ 31))) [
        | inl fits ↦ inr (pos (magnitude a / magnitude b), rw (same, fits) refl, ltb→lt _ _ fits)
        | inr over ↦ inl (rw (same, over) refl)
      ]
      | inr other ↦
          inr (neg_ℤ (pos (magnitude a / magnitude b)), rw other refl, minus-IsInt _ small)
    ]

pub rem_int-IsInt : (a b : ℤ) → IsInt a → IsInt (rem_int a b)
unfolding rem_int
rem_int-IsInt (pos a) b h = omega (arith, mod-le (magnitude (pos a)) (magnitude b))
rem_int-IsInt (negsuc a) b h =
    minus-IsInt _ (omega (arith, mod-le (magnitude (negsuc a)) (magnitude b)))

pub set_if-IsInt : (c : Bool) → IsInt (set_if c)
set_if-IsInt true = ground arith
set_if-IsInt false = ground arith

pub branch-IsInt :
    (c : Bool) (next extra after : ℤ) → IsInt after → IsInt (branch c next extra after)
branch-IsInt true next extra after h = add_int-IsInt next _
branch-IsInt false next extra after h = h

pub jump-IsInt : (after extra : ℤ) → IsInt (jump after extra)
unfolding jump
jump-IsInt after extra = or_int-IsInt _ _

pub if-IsInt : (c : Bool) (a b : ℤ) → IsInt a → IsInt b → IsInt (if c then a else b)
if-IsInt true a b ha hb = ha
if-IsInt false a b ha hb = hb

pub extend-IsInt : (width : ℕ) (signed : Bool) (value : ℤ) → IsInt (extend width signed value)
unfolding extend
extend-IsInt width signed value = if-IsInt _ _ _ (or_int-IsInt _ _) (and_int-IsInt _ _)

-- A choice by the place in the word.
by_byte-IsInt :
    (x y z : Bool) (a b c d : ℤ)
    → IsInt a
    → IsInt b
    → IsInt c
    → IsInt d
    → IsInt (if x then a else if y then b else if z then c else d)
by_byte-IsInt true y z a b c d ha hb hc hd = ha
by_byte-IsInt false true z a b c d ha hb hc hd = hb
by_byte-IsInt false false true a b c d ha hb hc hd = hc
by_byte-IsInt false false false a b c d ha hb hc hd = hd

-- What LWL, LWR, SWL and SWR merge is an `int`.
abbrev pub IsMerge : (ℕ → ℤ → ℤ → ℤ) → Type 0
IsMerge merge = (byte : ℕ) (a b : ℤ) → IsInt a → IsInt b → IsInt (merge byte a b)

pub lwl_value-IsMerge : IsMerge lwl_value
unfolding lwl_value
lwl_value-IsMerge byte a b ha hb =
    by_byte-IsInt (byte == 3) (byte == 2) (byte == 1) _ _ _ _ hb (or_int-IsInt _ _)
      (or_int-IsInt _ _) (or_int-IsInt _ _)

pub lwr_value-IsMerge : IsMerge lwr_value
unfolding lwr_value
lwr_value-IsMerge byte a b ha hb =
    by_byte-IsInt (byte == 3) (byte == 2) (byte == 1) _ _ _ _ (or_int-IsInt _ _) (or_int-IsInt _ _)
      (or_int-IsInt _ _) hb

pub swl_value-IsMerge : IsMerge swl_value
unfolding swl_value
swl_value-IsMerge byte a b ha hb =
    by_byte-IsInt (byte == 3) (byte == 2) (byte == 1) _ _ _ _ hb (or_int-IsInt _ _)
      (or_int-IsInt _ _) (or_int-IsInt _ _)

pub swr_value-IsMerge : IsMerge swr_value
unfolding swr_value
swr_value-IsMerge byte a b ha hb =
    by_byte-IsInt (byte == 3) (byte == 2) (byte == 1) _ _ _ _ (or_int-IsInt _ _) (or_int-IsInt _ _)
      (or_int-IsInt _ _) hb

-- Both halves of a product are words.
abbrev pub IsWords : Product → Type 0
IsWords p = (p.hi < 2 ^ 32) × (p.lo < 2 ^ 32)

pub add_product-IsWords : (p b : Product) → IsWords (add_product p b)
unfolding add_product
add_product-IsWords p b = (omega arith, omega arith)

if-IsWords : (c : Bool) (p q : Product) → IsWords p → IsWords q → IsWords (if c then p else q)
if-IsWords true p q hp hq = hp
if-IsWords false p q hp hq = hq

pub mult_loop-IsWords :
    (rounds a : ℕ) (b p : Product) → IsWords p → IsWords (mult_loop rounds a b p)
unfolding mult_loop
mult_loop-IsWords zero a b p h = h
mult_loop-IsWords (suc rounds) a b p h =
    if-IsWords _ _ _ (add_product-IsWords p b)
      (mult_loop-IsWords rounds _ _ _ (if-IsWords _ _ _ (add_product-IsWords p b) h))

negate_product-IsWords : (p : Product) → IsWords (negate_product p)
unfolding negate_product
negate_product-IsWords p = (ground arith, omega arith)

pub mult-IsWords : (a b : ℤ) (signed : Bool) → IsWords (mult a b signed)
unfolding mult
mult-IsWords a b signed =
    let looped =
      mult_loop-IsWords 32 (without_sign signed a) (record { hi = 0; lo = without_sign signed b })
        (record { hi = 0; lo = 0 }) (omega arith, omega arith) in
    if-IsWords (to_unsigned a == 0 || to_unsigned b == 0) (record { hi = 0; lo = 0 }) _
      (omega arith, omega arith)
      (if-IsWords (signed && not (agree (ltb_ℤ a (pos 0)) (ltb_ℤ b (pos 0)))) _ _
        (negate_product-IsWords _) looped)
