-- ===== src/Cpu/Mult/Signed.antt =====
-- MULT and MULTU of machine/mipssim.cc: the function Mult against the product of two numbers.
use nachos_assignment.Cpu.{magnitude, is_negative}
use nachos_assignment.Cpu.Mult.{Product, mult_loop, negate_product, without_sign, mult}
use nachos_assignment.Cpu.Mult.Exact.{double_word, mult_loop_lem}
use nachos_assignment.Cpu.Bounds.{IsWords, mult_loop-IsWords}
use nachos_assignment.Cpu.Words.{to_unsigned-lt}
use native.Mathlib.Nat.{mul-le-mul, mod-eq_of_lt}
use nachos_assignment.Base.{
  ◌||◌, not, ℕ, zero, suc, ◌+◌, ◌-◌, ◌*◌, ◌%◌, ◌^◌, ◌≤◌, ◌<◌, ◌≡◌, sym, ap, ap₂, ◌∙◌, ◌≢◌, inl, inr,
  Bool, true, false, arith, ◌==◌, if◌then◌else◌, Bool-cases, agree, ℤ, pos, negsuc, ltb_ℤ,
  to_unsigned, IsInt,
}

-- The product of two `int`s as a double word in two's complement.
unfoldable pub signed_product : ℤ → ℤ → ℕ
signed_product a b =
    if agree (is_negative a) (is_negative b)
    then magnitude a * magnitude b
    else (2 ^ 64 - magnitude a * magnitude b) % 2 ^ 64

-- The double word that the loop of Mult leaves for two words.
abbrev looped : ℕ → ℕ → Product
looped a b = mult_loop 32 a (record { hi = 0; lo = b }) (record { hi = 0; lo = 0 })

looped_lem : (a b : ℕ) → a < 2 ^ 32 → b < 2 ^ 32 → double_word (looped a b) ≡ a * b
looped_lem a b ha hb =
    let whole : a % 2 ^ 32 ≡ a = mod-eq_of_lt ha in
    let small : a * b ≤ (2 ^ 32 - 1) * (2 ^ 32 - 1) =
      mul-le-mul {n₂ = 2 ^ 32 - 1} {m₂ = 2 ^ 32 - 1} (omega arith) (omega arith) in
    let same : a % 2 ^ 32 * (0 * 2 ^ 32 + b) ≡ a * b =
      ap₂ (λ (x y : ℕ). x * y) whole (omega arith) in
    mult_loop_lem 32 a (record { hi = 0; lo = b }) (record { hi = 0; lo = 0 }) (omega arith) ha
      (omega arith, hb) (omega arith, omega arith) (omega arith) (omega (arith, same, small))
    ∙ omega (arith, same)

negate_product_lem :
    (p : Product) → IsWords p → double_word (negate_product p) ≡ (2 ^ 64 - double_word p) % 2 ^ 64
unfolding negate_product
negate_product_lem p h = elim (Bool-cases ((2 ^ 32 - 1 - p.lo + 1) % 2 ^ 32 == 0)) [
  | inl c ↦ let c' : (2 ^ 32 - 1 - p.lo + 1) % 2 ^ 32 ≡ 0 = ground arith in rw c (omega arith)
  | inr c ↦ let c' : (2 ^ 32 - 1 - p.lo + 1) % 2 ^ 32 ≢ 0 = ground arith in rw c (omega arith)
]

without_sign_lem : (a : ℤ) → IsInt a → without_sign true a ≡ magnitude a
without_sign_lem (pos a) h = ground arith
without_sign_lem (negsuc a) h = ground arith

magnitude-lt : (a : ℤ) → IsInt a → magnitude a < 2 ^ 32
magnitude-lt (pos a) h = omega arith
magnitude-lt (negsuc a) h = omega arith

unsigned_part-lt : (a : ℤ) → IsInt a → without_sign true a < 2 ^ 32
unsigned_part-lt a h = omega (arith, without_sign_lem a h, magnitude-lt a h)

sign_lem : (a : ℤ) → ltb_ℤ a (pos 0) ≡ is_negative a
sign_lem (pos a) = ground arith
sign_lem (negsuc a) = ground arith

same_zero : (a : ℤ) → IsInt a → (to_unsigned a == 0) ≡ (magnitude a == 0)
same_zero (pos a) h = ground arith
same_zero (negsuc a) h = ground arith

zero_product : (m n : ℕ) → (m == 0) || (n == 0) ≡ true → m * n ≡ 0
zero_product zero n h = omega arith
zero_product (suc m) zero h = omega arith
zero_product (suc m) (suc n) h = absurd (ground arith)

-- The double word for zero, whatever the sign.
zero_word : (c : Bool) (n : ℕ) → n ≡ 0 → (if c then n else (2 ^ 64 - n) % 2 ^ 64) ≡ 0
zero_word true n e = e
zero_word false n e = omega (arith, e)

-- The end of Mult for two numbers without their signs.
signed_end :
    (c : Bool) (m n : ℕ)
    → m < 2 ^ 32
    → n < 2 ^ 32
    → double_word (if not c then negate_product (looped m n) else looped m n)
      ≡ (if c then m * n else (2 ^ 64 - m * n) % 2 ^ 64)
signed_end true m n hm hn = looped_lem m n hm hn
signed_end false m n hm hn =
    negate_product_lem (looped m n) (mult_loop-IsWords 32 m _ _ (omega arith, omega arith))
    ∙ ap (λ (t : ℕ). (2 ^ 64 - t) % 2 ^ 64) (looped_lem m n hm hn)

mult_unsigned : (a b : ℤ) → double_word (mult a b false) ≡ to_unsigned a * to_unsigned b
unfolding mult
mult_unsigned a b = elim (Bool-cases (to_unsigned a == 0 || to_unsigned b == 0)) [
  | inl z ↦ rw z (sym (zero_product (to_unsigned a) (to_unsigned b) z))
  | inr nz ↦
      rw nz (looped_lem (to_unsigned a) (to_unsigned b) (to_unsigned-lt a) (to_unsigned-lt b))
]

mult_signed : (a b : ℤ) → IsInt a → IsInt b → double_word (mult a b true) ≡ signed_product a b
unfolding mult signed_product
mult_signed a b ha hb = elim (Bool-cases (to_unsigned a == 0 || to_unsigned b == 0)) [
  | inl z ↦
      let z' : (magnitude a == 0) || (magnitude b == 0) ≡ true =
        ap₂ (λ x y. x || y) (sym (same_zero a ha)) (sym (same_zero b hb)) ∙ z in
      rw z (
        sym (
          zero_word (agree (is_negative a) (is_negative b)) _
            (zero_product (magnitude a) (magnitude b) z')))
  | inr nz ↦ rw nz (
      signed_end (agree (ltb_ℤ a (pos 0)) (ltb_ℤ b (pos 0))) (without_sign true a)
        (without_sign true b) (unsigned_part-lt a ha) (unsigned_part-lt b hb)
      ∙ ap₂ (λ c (n : ℕ). if c then n else (2 ^ 64 - n) % 2 ^ 64)
          (ap₂ agree (sign_lem a) (sign_lem b))
          (ap₂ (λ (x y : ℕ). x * y) (without_sign_lem a ha) (without_sign_lem b hb)))
]

-- Mult leaves the exact product of two registers in its two words: for MULTU that of the unsigned
-- numbers, for MULT that of the signed ones, as a double word in two's complement.
pub mult_exact :
    (a b : ℤ)
    → IsInt a
    → IsInt b
    → (double_word (mult a b false) ≡ to_unsigned a * to_unsigned b)
      × (double_word (mult a b true) ≡ signed_product a b)
mult_exact a b ha hb = (mult_unsigned a b, mult_signed a b ha hb)
