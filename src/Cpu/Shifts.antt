-- ===== src/Cpu/Shifts.antt =====
-- The right shifts of machine/mipssim.cc: SRL and SRLV shift an `int`, so that they repeat the sign.
use nachos_assignment.Machine.{Machine}
use nachos_assignment.Cpu.{shift_right, is_negative}
use nachos_assignment.Cpu.OpCode.{op_srl}
use nachos_assignment.Cpu.Decode.{Instruction}
use nachos_assignment.Cpu.Effects.{writes}
use nachos_assignment.Cpu.Execute.{execute}
use native.Mathlib.Nat.{div-le_self, div-div-eq-div-mul, pow-suc}
use nachos_assignment.Base.{
  ℕ, zero, suc, ◌-◌, ◌/◌, ◌%◌, ◌^◌, ◌<◌, ◌≡◌, refl, ap, ◌∙◌, ◌≢◌, ◌⊎◌, inl, inr, true, false, arith,
  ◌==◌, Bool-cases, ℤ, pos, negsuc, to_unsigned, to_int, IsInt, Outcome,
}

-- The shift that the architecture asks of SRL: zeros come in from the left.
unfoldable pub shift_logical : ℤ → ℕ → ℤ
shift_logical a n = to_int (to_unsigned a / 2 ^ n)

same_shift : (a : ℤ) (n : ℕ) → IsInt a → is_negative a ≡ false → shift_right a n ≡ shift_logical a n
unfolding shift_right shift_logical
same_shift (pos a) n h s =
    let word : a % 2 ^ 32 ≡ a = omega arith in
    let small : a / 2 ^ n < 2 ^ 31 = omega (arith, div-le_self a (2 ^ n)) in
    rw word (ground (arith, small))
same_shift (negsuc a) n h s = absurd (ground (arith, s))

smaller : (w n : ℕ) → w < 2 ^ 32 → w / 2 ^ suc n < 2 ^ 31
smaller w n h =
    let halved : w / 2 / 2 ^ n ≡ w / 2 ^ suc n =
      div-div-eq-div-mul w 2 (2 ^ n) ∙ ap (λ (t : ℕ). w / t) (omega (arith, pow-suc 2 n)) in
    omega (arith, halved, div-le_self (w / 2) (2 ^ n))

other_shift : (a : ℤ) (n : ℕ) → is_negative a ≡ true → 0 < n → shift_right a n ≢ shift_logical a n
unfolding shift_right shift_logical
other_shift (pos a) n s h = absurd (ground (arith, s))
other_shift (negsuc a) zero s h = absurd (omega arith)
other_shift (negsuc a) (suc n) s h =
    let low : (2 ^ 32 - 1 - a % 2 ^ 32) / 2 ^ suc n < 2 ^ 31 =
      smaller (2 ^ 32 - 1 - a % 2 ^ 32) n (omega arith) in
    λ clash. ground (arith, low, clash)

shift_cases :
    (a : ℤ) (n : ℕ)
    → IsInt a
    → ((is_negative a ≡ false) × (shift_right a n ≡ shift_logical a n))
      ⊎ ((is_negative a ≡ true) × ((n ≡ 0) ⊎ (shift_right a n ≢ shift_logical a n)))
shift_cases a n h = elim (Bool-cases (is_negative a)) [
  | inl neg ↦ elim (Bool-cases (n == 0)) [
    | inl none_there ↦ inr (neg, inl (ground arith))
    | inr some_there ↦ inr (neg, inr (other_shift a n neg (ground arith)))
  ]
  | inr fine ↦ inl (fine, same_shift a n h fine)
]

-- SRL writes the logical shift of a register that is not negative; for a negative one and a shift
-- by more than 0 it writes another value.
pub srl_repeats_sign :
    (handler : Machine → Outcome Machine) (i : Instruction) (m : Machine) (a b next after : ℤ)
    → IsInt b
    → (result : ℤ) × (execute handler op_srl i m a b next after ≡ writes m i.rd result after)
      × (((is_negative b ≡ false) × (result ≡ shift_logical b (to_unsigned i.extra)))
          ⊎ ((is_negative b ≡ true)
              × ((to_unsigned i.extra ≡ 0) ⊎ (result ≢ shift_logical b (to_unsigned i.extra)))))
unfolding execute
srl_repeats_sign handler i m a b next after h =
    (shift_right b (to_unsigned i.extra), refl, shift_cases b (to_unsigned i.extra) h)
