-- ===== src/Cpu/Halves.antt =====
-- Two words put together by the masks and shifts of LWL, LWR, SWL and SWR (machine/mipssim.cc).
use nachos_assignment.Cpu.{and_int, or_int, shift_left, shift_right}
use nachos_assignment.Cpu.Words.{to_unsigned-lt}
use nachos_assignment.Cpu.Masks.{
  bit_or-disjoint, bit_and-high, bit_or_comm, or_words, and_words, left_word,
}
use nachos_assignment.Bitmap.Bits.{bit_and-ones}
use native.Mathlib.Nat.{mod-lt, one-le-pow, mod-eq_of_lt}
use nachos_assignment.Base.{
  ℕ, ◌+◌, ◌-◌, ◌*◌, ◌/◌, ◌%◌, ◌^◌, ◌<◌, bit_and, bit_or, ◌≡◌, refl, ap, ap₂, ◌∙◌, subst, arith, ℤ,
  pos, negsuc, to_unsigned, to_int, IsInt,
}

-- The low `n` digits of one word under the low `m` digits of another; `n` and `m` make a word.
above :
    (n m : ℕ) (low high : ℤ)
    → to_unsigned (pos (2 ^ n - 1)) ≡ 2 ^ n - 1
    → ((x : ℕ) → x * 2 ^ n % 2 ^ 32 ≡ x % 2 ^ m * 2 ^ n)
    → to_unsigned (or_int (and_int low (pos (2 ^ n - 1))) (shift_left high n))
      ≡ to_unsigned low % 2 ^ n + to_unsigned high % 2 ^ m * 2 ^ n
above n m low high mask cut =
    let kept : to_unsigned (and_int low (pos (2 ^ n - 1))) ≡ to_unsigned low % 2 ^ n =
      and_words low (pos (2 ^ n - 1))
      ∙ (ap (bit_and (to_unsigned low)) mask ∙ bit_and-ones n (to_unsigned low)) in
    or_words (and_int low (pos (2 ^ n - 1))) (shift_left high n)
    ∙ (ap₂ bit_or kept (left_word high n ∙ cut (to_unsigned high))
        ∙ bit_or-disjoint n (to_unsigned low % 2 ^ n) (to_unsigned high % 2 ^ m)
            (mod-lt (to_unsigned low) (one-le-pow n 2 (omega arith))))

-- The digits of one word from `n` on over the highest `n` digits of another.
below :
    (n m c : ℕ) (high low : ℤ)
    → to_unsigned (pos (2 ^ n - 1)) ≡ 2 ^ n - 1
    → to_unsigned (to_int (2 ^ 32 - 2 ^ n)) ≡ c * 2 ^ n
    → bit_and (to_unsigned high / 2 ^ n) c ≡ to_unsigned high / 2 ^ n
    → to_unsigned (shift_right low m) % 2 ^ n ≡ to_unsigned low / 2 ^ m
    → to_unsigned (
        or_int
          (and_int high (to_int (2 ^ 32 - 2 ^ n)))
          (and_int (shift_right low m) (pos (2 ^ n - 1))))
      ≡ to_unsigned low / 2 ^ m + to_unsigned high / 2 ^ n * 2 ^ n
below n m c high low mask high_mask all shifted =
    let lower : to_unsigned (and_int (shift_right low m) (pos (2 ^ n - 1)))
        ≡ to_unsigned low / 2 ^ m =
      and_words (shift_right low m) (pos (2 ^ n - 1))
      ∙ (ap (bit_and (to_unsigned (shift_right low m))) mask
          ∙ (bit_and-ones n (to_unsigned (shift_right low m)) ∙ shifted)) in
    let upper : to_unsigned (and_int high (to_int (2 ^ 32 - 2 ^ n)))
        ≡ to_unsigned high / 2 ^ n * 2 ^ n =
      and_words high (to_int (2 ^ 32 - 2 ^ n))
      ∙ (ap (bit_and (to_unsigned high)) high_mask
          ∙ (bit_and-high n (to_unsigned high) c ∙ ap (λ (t : ℕ). t * 2 ^ n) all)) in
    let small : to_unsigned low / 2 ^ m < 2 ^ n =
      subst (λ t. t < 2 ^ n) shifted
        (mod-lt (to_unsigned (shift_right low m)) (one-le-pow n 2 (omega arith))) in
    or_words _ _
    ∙ (ap₂ bit_or upper lower
        ∙ (bit_or_comm (to_unsigned high / 2 ^ n * 2 ^ n + to_unsigned low / 2 ^ m) _ _
              (omega arith) (omega arith)
            ∙ bit_or-disjoint n (to_unsigned low / 2 ^ m) (to_unsigned high / 2 ^ n) small))

shift_8 : (a : ℤ) → IsInt a → to_unsigned (shift_right a 8) % 2 ^ 24 ≡ to_unsigned a / 2 ^ 8
unfolding shift_right
shift_8 (pos a) h = omega arith
shift_8 (negsuc a) h = omega arith

shift_16 : (a : ℤ) → IsInt a → to_unsigned (shift_right a 16) % 2 ^ 16 ≡ to_unsigned a / 2 ^ 16
unfolding shift_right
shift_16 (pos a) h = omega arith
shift_16 (negsuc a) h = omega arith

shift_24 : (a : ℤ) → IsInt a → to_unsigned (shift_right a 24) % 2 ^ 8 ≡ to_unsigned a / 2 ^ 24
unfolding shift_right
shift_24 (pos a) h = omega arith
shift_24 (negsuc a) h = omega arith

-- A mask as long as the number.
whole : (n w : ℕ) → w < 2 ^ n → bit_and w (2 ^ n - 1) ≡ w
whole n w h = bit_and-ones n w ∙ mod-eq_of_lt h

module _ (a b : ℤ) (ha : IsInt a) (hb : IsInt b) where
  -- `b` is what stands below, cut off at its place.
  pub below_8 :
      to_unsigned (
        or_int (and_int a (to_int (2 ^ 32 - 2 ^ 8))) (and_int (shift_right b 24) (pos (2 ^ 8 - 1))))
      ≡ to_unsigned b / 2 ^ 24 + to_unsigned a / 2 ^ 8 * 2 ^ 8
  below_8 =
      below 8 24 (2 ^ 24 - 1) a b refl refl
        (whole 24 (to_unsigned a / 2 ^ 8) (omega (arith, to_unsigned-lt a))) (shift_24 b hb)

  pub below_16 :
      to_unsigned (
        or_int
          (and_int a (to_int (2 ^ 32 - 2 ^ 16)))
          (and_int (shift_right b 16) (pos (2 ^ 16 - 1))))
      ≡ to_unsigned b / 2 ^ 16 + to_unsigned a / 2 ^ 16 * 2 ^ 16
  below_16 =
      below 16 16 (2 ^ 16 - 1) a b refl refl
        (whole 16 (to_unsigned a / 2 ^ 16) (omega (arith, to_unsigned-lt a))) (shift_16 b hb)

  pub below_24 :
      to_unsigned (
        or_int
          (and_int a (to_int (2 ^ 32 - 2 ^ 24)))
          (and_int (shift_right b 8) (pos (2 ^ 24 - 1))))
      ≡ to_unsigned b / 2 ^ 8 + to_unsigned a / 2 ^ 24 * 2 ^ 24
  below_24 =
      below 24 8 (2 ^ 8 - 1) a b refl refl
        (whole 8 (to_unsigned a / 2 ^ 24) (omega (arith, to_unsigned-lt a))) (shift_8 b hb)

-- The low `n` digits of `a` with the low `m` ones of `b` above.
abbrev pub joined : ℕ → ℕ → ℤ → ℤ → ℕ
joined n m a b = to_unsigned a % 2 ^ n + to_unsigned b % 2 ^ m * 2 ^ n

pub above_8 :
    (a b : ℤ)
    → to_unsigned (or_int (and_int a (pos (2 ^ 8 - 1))) (shift_left b 8)) ≡ joined 8 24 a b
above_8 a b = above 8 24 a b refl (λ x. omega arith)

pub above_16 :
    (a b : ℤ)
    → to_unsigned (or_int (and_int a (pos (2 ^ 16 - 1))) (shift_left b 16)) ≡ joined 16 16 a b
above_16 a b = above 16 16 a b refl (λ x. omega arith)

pub above_24 :
    (a b : ℤ)
    → to_unsigned (or_int (and_int a (pos (2 ^ 24 - 1))) (shift_left b 24)) ≡ joined 24 8 a b
above_24 a b = above 24 8 a b refl (λ x. omega arith)
