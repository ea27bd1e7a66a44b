-- ===== src/Cpu/Masks.antt =====
-- The masks and shifts of machine/mipssim.cc on whole words, as remainders and multiples.
use nachos_assignment.Cpu.{and_int, or_int, shift_left}
use nachos_assignment.Cpu.Words.{to_unsigned-lt}
use nachos_assignment.Bitmap.Bits.{bit_and-le, bit_or-lt}
use nachos_assignment.Bitmap.Bits.Step.{bit_and_halves, bit_or_halves}
use Prim.Native.Nat.{bit_or-bitwise}
use native.Mathlib.Nat.{pow-suc, div-div-eq-div-mul}
use nachos_assignment.Base.{
  ℕ, zero, suc, ◌+◌, ◌*◌, ◌/◌, ◌%◌, ◌^◌, ◌≤◌, ◌<◌, bit_and, bit_or, ◌≡◌, refl, ap, ap₂, ◌∙◌, arith,
  ℤ, to_unsigned, to_int,
}

twice : (b n : ℕ) → b * 2 ^ suc n ≡ 2 * (b * 2 ^ n)
twice b n = omega (arith, ap (λ (t : ℕ). b * t) (pow-suc 2 n))

-- `|` of words that share no digit is their sum.
pub bit_or-disjoint : (n a b : ℕ) → a < 2 ^ n → bit_or a (b * 2 ^ n) ≡ a + b * 2 ^ n
bit_or-disjoint zero zero b h = simp bit_or-bitwise (omega arith)
bit_or-disjoint zero (suc a) b h = absurd (omega arith)
bit_or-disjoint (suc n) a b h =
    let half : b * 2 ^ suc n / 2 ≡ b * 2 ^ n = omega (arith, twice b n) in
    omega (
      arith,
      twice b n,
      bit_or_halves a (b * 2 ^ suc n),
      ap (bit_or (a / 2)) half,
      bit_or-disjoint n (a / 2) b (omega (arith, pow-suc 2 n)),
    )

-- `&` with a mask of high digits.
pub bit_and-high : (n a b : ℕ) → bit_and a (b * 2 ^ n) ≡ bit_and (a / 2 ^ n) b * 2 ^ n
bit_and-high zero a b = ap₂ bit_and whole none_more ∙ omega arith
  where
    whole : a ≡ a / 2 ^ 0
    whole = omega arith

    none_more : b * 2 ^ 0 ≡ b
    none_more = omega arith
bit_and-high (suc n) a b =
    let half : b * 2 ^ suc n / 2 ≡ b * 2 ^ n = omega (arith, twice b n) in
    let place : a / 2 / 2 ^ n ≡ a / 2 ^ suc n =
      div-div-eq-div-mul a 2 (2 ^ n) ∙ ap (λ (t : ℕ). a / t) (omega (arith, pow-suc 2 n)) in
    omega (
      arith,
      twice b n,
      twice (bit_and (a / 2 ^ suc n) b) n,
      bit_and_halves a (b * 2 ^ suc n),
      ap (bit_and (a / 2)) half,
      bit_and-high n (a / 2) b,
      ap (λ (t : ℕ). bit_and t b * 2 ^ n) place,
    )

pub to_unsigned-to_int : (w : ℕ) → w < 2 ^ 32 → to_unsigned (to_int w) ≡ w
to_unsigned-to_int w h = ground arith

pub or_words : (a b : ℤ) → to_unsigned (or_int a b) ≡ bit_or (to_unsigned a) (to_unsigned b)
unfolding or_int
or_words a b =
    to_unsigned-to_int _
      (bit_or-lt 32 (to_unsigned a) (to_unsigned b) (to_unsigned-lt a) (to_unsigned-lt b))

pub and_words : (a b : ℤ) → to_unsigned (and_int a b) ≡ bit_and (to_unsigned a) (to_unsigned b)
unfolding and_int
and_words a b = to_unsigned-to_int _ (
    omega (
      arith,
      bit_and-le (to_unsigned a) (to_unsigned a) (to_unsigned b) (omega arith),
      to_unsigned-lt a,
    ))

pub left_word : (a : ℤ) (n : ℕ) → to_unsigned (shift_left a n) ≡ to_unsigned a * 2 ^ n % 2 ^ 32
unfolding shift_left
left_word a n = to_unsigned-to_int (to_unsigned a * 2 ^ n % 2 ^ 32) (omega arith)

pub bit_or_comm : (n a b : ℕ) → a ≤ n → b ≤ n → bit_or a b ≡ bit_or b a
bit_or_comm zero zero zero ha hb = refl
bit_or_comm zero (suc a) b ha hb = absurd (omega arith)
bit_or_comm zero zero (suc b) ha hb = absurd (omega arith)
bit_or_comm (suc n) a b ha hb = omega (
  arith,
  bit_or_halves a b,
  bit_or_halves b a,
  bit_or_comm n (a / 2) (b / 2) (omega arith) (omega arith),
)
