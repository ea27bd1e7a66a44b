-- ===== src/Cpu/Mult/Exact.antt =====
-- Mult of machine/mipssim.cc computes the product of its words.
use nachos_assignment.Cpu.Mult.{Product, add_product, shift_product, halve, mult_loop}
use nachos_assignment.Bitmap.Bits.{
  bit_and-one, bit_and-pow, bit_top, bit_or-one_even, split_digit, bit_and-ones,
}
use nachos_assignment.Bitmap.Bits.Step.{bit_and_halves}
use nachos_assignment.Cpu.Bounds.{IsWords, add_product-IsWords}
use native.Mathlib.Nat.{zero-mod, pow-suc, add-mul-mod_self_right}
use nachos_assignment.Base.{
  ℕ, zero, suc, ◌+◌, ◌-◌, ◌*◌, ◌/◌, ◌%◌, ◌^◌, ◌≤◌, ◌<◌, bit_and, bit_or, ◌≡◌, refl, ap, ap₂, ◌∙◌,
  ◌≢◌, inl, inr, arith, ltb, ◌==◌, ltb→lt, Bool-cases,
}

-- The double word as a number.
abbrev pub double_word : Product → ℕ
double_word p = p.hi * 2 ^ 32 + p.lo

add_product_lem :
    (p b : Product)
    → p.hi < 2 ^ 32
    → p.lo < 2 ^ 32
    → b.hi < 2 ^ 32
    → b.lo < 2 ^ 32
    → double_word p + double_word b < 2 ^ 64
    → double_word (add_product p b) ≡ double_word p + double_word b
unfolding add_product
add_product_lem p b h1 h2 h3 h4 h = elim (Bool-cases (ltb ((p.lo + b.lo) % 2 ^ 32) b.lo)) [
  | inl c ↦ let c' = ltb→lt _ _ c in rw c (omega arith)
  | inr c ↦ let c' : b.lo ≤ (p.lo + b.lo) % 2 ^ 32 = ground arith in rw c (omega arith)
]

shift_product_lem :
    (b : Product)
    → b.hi < 2 ^ 32
    → b.lo < 2 ^ 32
    → 2 * double_word b < 2 ^ 64
    → double_word (shift_product b) ≡ 2 * double_word b
unfolding shift_product
shift_product_lem b h1 h2 h = elim (Bool-cases (bit_and b.lo (2 ^ 31) == 0)) [
  | inl c ↦
      let c' : bit_and b.lo (2 ^ 31) ≡ 0 = ground arith in
      rw c (omega (arith, bit_and-pow b.lo 31, bit_top 31 b.lo h2))
  | inr c ↦
      let top : bit_and b.lo (2 ^ 31) ≢ 0 = ground arith in
      let odd : bit_or (b.hi * 2 % 2 ^ 32) 1 ≡ b.hi * 2 % 2 ^ 32 + 1 =
        bit_or-one_even (b.hi * 2 % 2 ^ 32) (omega arith) in
      rw (c, odd) (omega (arith, bit_and-pow b.lo 31, bit_top 31 b.lo h2))
]

pow_sum : (k n : ℕ) → 2 ^ (k + n) ≡ 2 ^ k * 2 ^ n
pow_sum k zero = ap (λ (t : ℕ). 2 ^ t) none_more ∙ omega arith
  where
    none_more : k + 0 ≡ k
    none_more = omega arith
pow_sum k (suc n) =
    ap (λ (t : ℕ). 2 ^ t) (more k n)
    ∙ omega (
      arith,
      pow-suc 2 (k + n),
      pow-suc 2 n,
      pow_sum k n,
      ap (λ (t : ℕ). 2 ^ k * t) (pow-suc 2 n),
    )
  where
    more : (k n : ℕ) → k + suc n ≡ suc (k + n)
    more k n = omega arith

halve_lem : (a n : ℕ) → n ≤ 31 → halve a % 2 ^ n ≡ a / 2 % 2 ^ n
unfolding halve
halve_lem a n h = elim (Bool-cases (ltb a (2 ^ 31))) [
  | inl c ↦ rw c refl
  | inr c ↦ rw c (
      ap (λ (t : ℕ). (a / 2 + t) % 2 ^ n) (power n h)
      ∙ add-mul-mod_self_right (a / 2) (2 ^ (31 - n)) (2 ^ n))
]
  where
    whole : (n : ℕ) → n ≤ 31 → ◌≡◌ {A = ℕ} 31 (31 - n + n)
    whole n h = omega arith

    power : (n : ℕ) → n ≤ 31 → 2 ^ 31 ≡ 2 ^ (31 - n) * 2 ^ n
    power n h = ap (λ (t : ℕ). 2 ^ t) (whole n h) ∙ pow_sum (31 - n) n

distribute : (x t n : ℕ) → x ≤ 1 → (x + 2 * t) * n ≡ x * n + t * (2 * n)
distribute x t n h = omega arith

-- Nothing above the lowest digit is left.
rest_zero : (a : ℕ) → a < 2 ^ 32 → bit_and a (2 ^ 32 - 2) ≡ 0 → a / 2 ≡ 0
rest_zero a h e = omega (arith, e, bit_and_halves a (2 ^ 32 - 2), bit_and-ones 31 (a / 2))

shift_product-IsWords : (b : Product) → b.hi < 2 ^ 32 → IsWords (shift_product b)
unfolding shift_product
shift_product-IsWords b h = elim (Bool-cases (bit_and b.lo (2 ^ 31) == 0)) [
  | inl c ↦ rw c (omega arith, omega arith)
  | inr c ↦ rw (c, bit_or-one_even (b.hi * 2 % 2 ^ 32) (omega arith)) (omega arith, omega arith)
]

halve-lt : (a : ℕ) → a < 2 ^ 32 → halve a < 2 ^ 32
unfolding halve
halve-lt a h = ground arith

grows : (v n : ℕ) → v ≤ v * 2 ^ n
grows v zero = omega arith
grows v (suc n) = omega (arith, grows v n, ap (λ (t : ℕ). v * t) (pow-suc 2 n))

-- The rounds that are left add the digits of `a` that are left, times the number in `b`.
pub mult_loop_lem :
    (rounds a : ℕ) (b p : Product)
    → rounds ≤ 32
    → a < 2 ^ 32
    → IsWords b
    → IsWords p
    → double_word b * 2 ^ rounds < 2 ^ 64
    → double_word p + a % 2 ^ rounds * double_word b < 2 ^ 64
    → double_word (mult_loop rounds a b p) ≡ double_word p + a % 2 ^ rounds * double_word b
unfolding mult_loop
mult_loop_lem zero a b p few ha hb hp room fits =
    let none_left : a % 2 ^ 0 ≡ 0 = omega arith in
    omega (arith, ap (λ (t : ℕ). t * double_word b) none_left)
mult_loop_lem (suc rounds) a b p few ha hb hp room fits =
    let left : ℕ = a / 2 % 2 ^ rounds in
    let v : ℕ = double_word b in
    let wide : v * 2 ^ suc rounds ≡ 2 * (v * 2 ^ rounds) =
      omega (arith, ap (λ (t : ℕ). v * t) (pow-suc 2 rounds)) in
    let shifted : double_word (shift_product b) ≡ 2 * v =
      shift_product_lem b hb.0 hb.1 (omega (arith, room, wide, grows v rounds)) in
    let digits : a % 2 ^ suc rounds * v ≡ a % 2 * v + left * (2 * v) =
      ap (λ (t : ℕ). t * v) (split_digit a rounds) ∙ distribute (a % 2) left v (omega arith) in
    let rest : (q : Product)
        → IsWords q
        → double_word q + left * (2 * v) < 2 ^ 64
        → double_word (mult_loop rounds (halve a) (shift_product b) q)
          ≡ double_word q + left * (2 * v) =
      λ q hq total.
        let same : halve a % 2 ^ rounds * double_word (shift_product b) ≡ left * (2 * v) =
          ap₂ (λ (x y : ℕ). x * y) (halve_lem a rounds (omega arith)) shifted in
        mult_loop_lem rounds (halve a) (shift_product b) q (omega arith) (halve-lt a ha)
          (shift_product-IsWords b hb.0) hq
          (omega (arith, room, wide, ap (λ (t : ℕ). t * 2 ^ rounds) shifted))
          (omega (arith, same, total))
        ∙ ap (λ (t : ℕ). double_word q + t) same in
    elim (Bool-cases (bit_and a 1 == 0)) [
      | inl even ↦
          let low : a % 2 ≡ 0 = ground (arith, even, bit_and-one a) in
          let none_there : a % 2 * v ≡ 0 = ap (λ (t : ℕ). t * v) low ∙ omega arith in
          rw even (
            rest p hp (omega (arith, fits, digits, none_there)) ∙ omega (arith, digits, none_there))
      | inr odd ↦
          let low : a % 2 ≡ 1 = ground (arith, odd, bit_and-one a) in
          let one_there : a % 2 * v ≡ v = ap (λ (t : ℕ). t * v) low ∙ omega arith in
          let added : double_word (add_product p b) ≡ double_word p + v =
            add_product_lem p b hp.0 hp.1 hb.0 hb.1 (omega (arith, fits, digits, one_there)) in
          elim (Bool-cases (bit_and a (2 ^ 32 - 2) == 0)) [
            | inl last ↦
                let over : left ≡ 0 =
                  ap (λ (t : ℕ). t % 2 ^ rounds) (rest_zero a ha (ground (arith, last)))
                  ∙ zero-mod (2 ^ rounds) in
                let nothing : left * (2 * v) ≡ 0 = ap (λ (t : ℕ). t * (2 * v)) over ∙ omega arith in
                rw (odd, last) (omega (arith, added, digits, one_there, nothing))
            | inr more ↦
                rw (odd, more)
                  (rest (add_product p b) (add_product-IsWords p b)
                      (omega (arith, added, fits, digits, one_there))
                    ∙ omega (arith, added, digits, one_there))
          ]
    ]
