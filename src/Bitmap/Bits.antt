-- ===== src/Bitmap/Bits.antt =====
-- Binary digits of a word: what `|`, `&`, `~` and `1 << k`, as lib/bitmap.cc uses them, do to each
-- digit, at every width.
pub mod Step
use Step.{bit_or_halves, bit_and_halves, bit_xor_halves}
use Prim.Native.Nat.{differ, bit_and-bitwise, bit_or-bitwise, bit_xor-bitwise}
use native.Mathlib.Nat.{
  div-div-eq-div-mul, pow-suc, one-le-pow, mod-eq_of_lt, mod-lt, mul-add-mod_self_left, div-add-mod,
}
use nachos_assignment.Base.{
  ◌∙◌, sym, ℕ, zero, suc, ◌+◌, ◌-◌, ◌*◌, ◌/◌, ◌%◌, ◌^◌, ◌≤◌, ◌<◌, min, max, bit_and, bit_or,
  bit_xor, ◌≡◌, refl, arith, ◌==◌, if◌then◌else◌, ap,
}

-- The digit of `w` at position `k`.
unfoldable pub bit : ℕ → ℕ → ℕ
bit w zero = w % 2
bit w (suc k) = bit (w / 2) k

pub bit-le-one : (w k : ℕ) → bit w k ≤ 1
unfolding bit
bit-le-one w zero = omega arith
bit-le-one w (suc k) = bit-le-one (w / 2) k

pub bit-bit_or : (a b k : ℕ) → bit (bit_or a b) k ≡ max (bit a k) (bit b k)
unfolding bit
bit-bit_or a b zero = omega (arith, bit_or_halves a b)
bit-bit_or a b (suc k) = ground (arith, halves, bit-bit_or (a / 2) (b / 2) k)
  where
    halves : bit_or a b / 2 ≡ bit_or (a / 2) (b / 2)
    halves = omega (arith, bit_or_halves a b)

pub bit-bit_and : (a b k : ℕ) → bit (bit_and a b) k ≡ min (bit a k) (bit b k)
unfolding bit
bit-bit_and a b zero = omega (arith, bit_and_halves a b)
bit-bit_and a b (suc k) = ground (arith, halves, bit-bit_and (a / 2) (b / 2) k)
  where
    halves : bit_and a b / 2 ≡ bit_and (a / 2) (b / 2)
    halves = omega (arith, bit_and_halves a b)

pub bit_of_zero : (k : ℕ) → bit 0 k ≡ 0
unfolding bit
bit_of_zero zero = refl
bit_of_zero (suc k) = bit_of_zero k

pow_half : (k : ℕ) → 2 ^ suc k / 2 ≡ 2 ^ k
pow_half k = omega (arith, pow-suc 2 k)

-- 1 << k has the one digit.
pub bit-pow : (k j : ℕ) → bit (2 ^ k) j ≡ (if j == k then 1 else 0)
unfolding bit
bit-pow zero zero = refl
bit-pow zero (suc j) = ground (arith, bit_of_zero j)
bit-pow (suc k) zero = ground (arith, pow-suc 2 k)
bit-pow (suc k) (suc j) = ground (arith, pow_half k, bit-pow k j)

-- `~` on `n` digits, as subtraction from the word of ones.
pub bit-complement : (n x j : ℕ) → x < 2 ^ n → j < n → bit (2 ^ n - 1 - x) j ≡ 1 - bit x j
unfolding bit
bit-complement zero x j hx hj = absurd (omega arith)
bit-complement (suc n) x zero hx hj = omega (arith, pow-suc 2 n)
bit-complement (suc n) x (suc j) hx hj =
    ground (arith, halves, bit-complement n (x / 2) j (omega (arith, pow-suc 2 n)) (omega arith))
  where
    halves : (2 ^ suc n - 1 - x) / 2 ≡ 2 ^ n - 1 - x / 2
    halves = omega (arith, pow-suc 2 n)

no_digits : (w room : ℕ) → w < 2 ^ room → bit_and w 0 ≡ 0
no_digits zero room small = bit_and-bitwise 0 0
no_digits (suc w) zero small = absurd (omega arith)
no_digits (suc w) (suc room) small =
    omega
      (arith, bit_and_halves (suc w) 0, no_digits (suc w / 2) room (omega (arith, pow-suc 2 room)))

none_left : (w : ℕ) → bit_and w 0 ≡ 0
none_left w = no_digits w w (room w)
  where
    room : (n : ℕ) → n < 2 ^ n
    room zero = omega arith
    room (suc n) = omega (arith, pow-suc 2 n, room n)

-- `w & (1 << k)` is not zero exactly when the digit is one.
pub bit_and-pow : (w k : ℕ) → bit_and w (2 ^ k) ≡ bit w k * 2 ^ k
unfolding bit
bit_and-pow w zero = omega (arith, bit_and_halves w 1, none_left (w / 2))
bit_and-pow w (suc k) = omega (
  arith,
  bit_and_halves w (2 ^ suc k),
  bit_and-pow (w / 2) k,
  pow_half k,
  pow-suc 2 k,
  ap (λ (t : ℕ). bit (w / 2) k * t) (pow-suc 2 k),
  ap (bit_and (w / 2)) (pow_half k),
)

-- `|` of two words of `n` digits has `n` digits.
pub bit_or-lt : (n a b : ℕ) → a < 2 ^ n → b < 2 ^ n → bit_or a b < 2 ^ n
bit_or-lt zero zero b ha hb = simp bit_or-bitwise (omega arith)
bit_or-lt zero (suc a) b ha hb = absurd (omega arith)
bit_or-lt (suc n) a b ha hb = omega (
  arith,
  bit_or_halves a b,
  pow-suc 2 n,
  bit_or-lt n (a / 2) (b / 2) (omega (arith, pow-suc 2 n)) (omega (arith, pow-suc 2 n)),
)

pub differ-le-one : (a b : ℕ) → a ≤ 1 → b ≤ 1 → differ a b ≤ 1
differ-le-one zero b ha hb = hb
differ-le-one (suc zero) zero ha hb = omega arith
differ-le-one (suc zero) (suc zero) ha hb = omega arith
differ-le-one (suc zero) (suc (suc b)) ha hb = absurd (omega arith)
differ-le-one (suc (suc a)) b ha hb = absurd (omega arith)

-- So has `^`.
pub bit_xor-lt : (n a b : ℕ) → a < 2 ^ n → b < 2 ^ n → bit_xor a b < 2 ^ n
bit_xor-lt zero zero b ha hb = simp bit_xor-bitwise (omega arith)
bit_xor-lt zero (suc a) b ha hb = absurd (omega arith)
bit_xor-lt (suc n) a b ha hb = omega (
  arith,
  bit_xor_halves a b,
  differ-le-one (a % 2) (b % 2) (omega arith) (omega arith),
  pow-suc 2 n,
  bit_xor-lt n (a / 2) (b / 2) (omega (arith, pow-suc 2 n)) (omega (arith, pow-suc 2 n)),
)

pub bit-bit_xor : (a b k : ℕ) → bit (bit_xor a b) k ≡ differ (bit a k) (bit b k)
unfolding bit
bit-bit_xor a b zero =
    omega (arith, bit_xor_halves a b, differ-le-one (a % 2) (b % 2) (omega arith) (omega arith))
bit-bit_xor a b (suc k) = ap (λ (t : ℕ). bit t k) halves ∙ bit-bit_xor (a / 2) (b / 2) k
  where
    halves : bit_xor a b / 2 ≡ bit_xor (a / 2) (b / 2)
    halves =
        omega (arith, bit_xor_halves a b, differ-le-one (a % 2) (b % 2) (omega arith) (omega arith))

pub bit_and-le : (n a b : ℕ) → a ≤ n → bit_and a b ≤ a
bit_and-le n zero b h = simp bit_and-bitwise (omega arith)
bit_and-le zero (suc a) b h = absurd (omega arith)
bit_and-le (suc n) (suc a) b h =
    omega (arith, bit_and_halves (suc a) b, bit_and-le n (suc a / 2) (b / 2) (omega arith))

-- `& 1` and `& 3` are remainders.
pub bit_and-one : (w : ℕ) → bit_and w 1 ≡ w % 2
bit_and-one w = omega (arith, bit_and_halves w 1, none_left (w / 2))

pub bit_and-three : (w : ℕ) → bit_and w 3 ≡ w % 4
bit_and-three w = omega (arith, bit_and_halves w 3, bit_and-one (w / 2))

or_none : (n w : ℕ) → w ≤ n → bit_or w 0 ≡ w
or_none n zero h = simp bit_or-bitwise (omega arith)
or_none zero (suc w) h = absurd (omega arith)
or_none (suc n) (suc w) h =
    omega (arith, bit_or_halves (suc w) 0, or_none n (suc w / 2) (omega arith))

-- `| 1` of an even word adds one.
pub bit_or-one_even : (w : ℕ) → w % 2 ≡ 0 → bit_or w 1 ≡ w + 1
bit_or-one_even w even = omega (arith, bit_or_halves w 1, or_none (w / 2) (w / 2) (omega arith))

-- The digits of a number but the lowest are those of its half.
pub split_digit : (w n : ℕ) → w % 2 ^ suc n ≡ w % 2 + 2 * (w / 2 % 2 ^ n)
split_digit w n = sym (
    sym (mod-eq_of_lt (omega (arith, pow-suc 2 n, mod-lt (w / 2) (one-le-pow n 2 (omega arith)))))
    ∙ (sym (mul-add-mod_self_left (2 ^ suc n) (w / 2 / 2 ^ n) low)
        ∙ ap (λ (t : ℕ). t % 2 ^ suc n) whole))
  where
    low : ℕ
    low = w % 2 + 2 * (w / 2 % 2 ^ n)

    whole : 2 ^ suc n * (w / 2 / 2 ^ n) + low ≡ w
    whole =
        omega
          (arith, ap (λ (t : ℕ). t * (w / 2 / 2 ^ n)) (pow-suc 2 n), div-add-mod (w / 2) (2 ^ n))

-- A word of ones keeps the digits it covers.
pub bit_and-ones : (n w : ℕ) → bit_and w (2 ^ n - 1) ≡ w % 2 ^ n
bit_and-ones zero w = omega (arith, none_left w)
bit_and-ones (suc n) w = omega (
  arith,
  bit_and_halves w (2 ^ suc n - 1),
  ap (bit_and (w / 2)) half,
  bit_and-ones n (w / 2),
  split_digit w n,
  pow-suc 2 n,
  one-le-pow n 2 (omega arith),
)
  where
    half : (2 ^ suc n - 1) / 2 ≡ 2 ^ n - 1
    half = omega (arith, pow-suc 2 n, one-le-pow n 2 (omega arith))

-- The highest digit of a word.
pub bit_top : (n w : ℕ) → w < 2 ^ suc n → bit w n ≡ w / 2 ^ n
unfolding bit
bit_top zero w h = omega arith
bit_top (suc n) w h =
    bit_top n (w / 2) (omega (arith, pow-suc 2 (suc n)))
    ∙ (div-div-eq-div-mul w 2 (2 ^ n) ∙ ap (λ (t : ℕ). w / t) (omega (arith, pow-suc 2 n)))
