-- ===== src/Cpu/Overflow.antt =====
-- ADD, ADDI and SUB of machine/mipssim.cc raise the overflow exception exactly when they must.
use nachos_assignment.Machine.{Machine, overflow_exception}
use nachos_assignment.Bitmap.Bits.{bit, bit_top, bit_and-pow, bit-bit_xor, bit_xor-lt}
use nachos_assignment.Cpu.{add_int, sub_int, xor_int, has_sign, is_negative}
use nachos_assignment.Cpu.OpCode.{op_add, op_addi, op_sub}
use nachos_assignment.Cpu.Decode.{Instruction}
use nachos_assignment.Cpu.Effects.{
  overflows_add, overflows_addi, overflows_sub, Effect, writes, raises,
}
use nachos_assignment.Cpu.Execute.{execute}
use nachos_assignment.Cpu.Words.{to_unsigned-lt, add_int-IsInt, sub_int-IsInt}
use Prim.Native.Nat.{differ}
use nachos_assignment.Base.{
  ◌&&◌, not, ℕ, ◌^◌, ◌<◌, bit_and, bit_xor, ◌≡◌, refl, sym, ap, ap₂, ◌∙◌, ◌≢◌, inl, inr, Bool, true,
  false, arith, ltb, leb, ◌==◌, if◌then◌else◌, leb→le, Bool-cases, agree, ℤ, pos, negsuc,
  to_unsigned, to_int, IsInt, ◌+ℤ◌, ◌-ℤ◌, Outcome,
}

-- Whether an exact result is an `int`.
unfoldable pub is_int : ℤ → Bool
is_int (pos n) = ltb n (2 ^ 31)
is_int (negsuc n) = ltb n (2 ^ 31)

sign_of_word : (w : ℕ) → w < 2 ^ 32 → not (bit_and w (2 ^ 31) == 0) ≡ leb (2 ^ 31) w
sign_of_word w h = elim (Bool-cases (leb (2 ^ 31) w)) [
  | inl big ↦
      let top : bit_and w (2 ^ 31) ≢ 0 =
        omega (arith, leb→le _ _ big, bit_and-pow w 31, bit_top 31 w h) in
      ground (arith, big, top)
  | inr small ↦
      let below : w < 2 ^ 31 = ground arith in
      let top : bit_and w (2 ^ 31) ≡ 0 = omega (arith, bit_and-pow w 31, bit_top 31 w h) in
      ground (arith, small, top)
]

word_sign : (a : ℤ) → IsInt a → leb (2 ^ 31) (to_unsigned a) ≡ is_negative a
word_sign (pos a) h = ground arith
word_sign (negsuc a) h = ground arith

has_sign_lem : (a : ℤ) → IsInt a → has_sign a ≡ is_negative a
unfolding has_sign
has_sign_lem a h = sign_of_word (to_unsigned a) (to_unsigned-lt a) ∙ word_sign a h

to_unsigned-to_int : (w : ℕ) → w < 2 ^ 32 → to_unsigned (to_int w) ≡ w
to_unsigned-to_int w h = ground arith

abbrev digit_of : Bool → ℕ
digit_of c = if c then 1 else 0

top_digit : (w : ℕ) → w < 2 ^ 32 → bit w 31 ≡ digit_of (leb (2 ^ 31) w)
top_digit w h = ground (arith, bit_top 31 w h)

from_digits : (x y z : Bool) → digit_of z ≡ differ (digit_of x) (digit_of y) → z ≡ not (agree x y)
from_digits true true true h = absurd (omega (arith, h))
from_digits true true false h = refl
from_digits true false true h = refl
from_digits true false false h = absurd (omega (arith, h))
from_digits false true true h = refl
from_digits false true false h = absurd (omega (arith, h))
from_digits false false true h = absurd (omega (arith, h))
from_digits false false false h = refl

differ_tops :
    (a b : ℕ)
    → a < 2 ^ 32
    → b < 2 ^ 32
    → leb (2 ^ 31) (bit_xor a b) ≡ not (agree (leb (2 ^ 31) a) (leb (2 ^ 31) b))
differ_tops a b ha hb = from_digits (leb (2 ^ 31) a) (leb (2 ^ 31) b) (leb (2 ^ 31) (bit_xor a b)) (
    sym (top_digit (bit_xor a b) (bit_xor-lt 32 a b ha hb))
    ∙ (bit-bit_xor a b 31 ∙ ap₂ differ (top_digit a ha) (top_digit b hb)))

xor_sign :
    (a b : ℤ)
    → IsInt a
    → IsInt b
    → has_sign (xor_int a b) ≡ not (agree (is_negative a) (is_negative b))
unfolding has_sign xor_int
xor_sign a b ha hb =
    let small =
      bit_xor-lt 32 (to_unsigned a) (to_unsigned b) (to_unsigned-lt a) (to_unsigned-lt b) in
    rw (to_unsigned-to_int _ small) (
      sign_of_word _ small
      ∙ (differ_tops (to_unsigned a) (to_unsigned b) (to_unsigned-lt a) (to_unsigned-lt b)
          ∙ ap₂ (λ x y. not (agree x y)) (word_sign a ha) (word_sign b hb)))

sum_exact : (a b : ℤ) → IsInt a → IsInt b → is_int (a +ℤ b) ≡ true → add_int a b ≡ a +ℤ b
unfolding is_int add_int
sum_exact (pos a) (pos b) ha hb h = ground arith
sum_exact (pos a) (negsuc b) ha hb h = ground arith
sum_exact (negsuc a) (pos b) ha hb h = ground arith
sum_exact (negsuc a) (negsuc b) ha hb h = ground arith

diff_exact : (a b : ℤ) → IsInt a → IsInt b → is_int (a -ℤ b) ≡ true → sub_int a b ≡ a -ℤ b
unfolding is_int sub_int
diff_exact (pos a) (pos b) ha hb h = ground arith
diff_exact (pos a) (negsuc b) ha hb h = ground arith
diff_exact (negsuc a) (pos b) ha hb h = ground arith
diff_exact (negsuc a) (negsuc b) ha hb h = ground arith

-- The tests of the code, with the signs in place of the sign bits.
signs_add :
    (a b : ℤ)
    → IsInt a
    → IsInt b
    → agree (is_negative a) (is_negative b)
        && not (agree (is_negative a) (is_negative (add_int a b)))
      ≡ not (is_int (a +ℤ b))
unfolding add_int is_int
signs_add (pos a) (pos b) ha hb = ground arith
signs_add (pos a) (negsuc b) ha hb = ground arith
signs_add (negsuc a) (pos b) ha hb = ground arith
signs_add (negsuc a) (negsuc b) ha hb = ground arith

signs_addi :
    (a b : ℤ)
    → IsInt a
    → IsInt b
    → agree (is_negative a) (is_negative b)
        && not (agree (is_negative b) (is_negative (add_int a b)))
      ≡ not (is_int (a +ℤ b))
unfolding add_int is_int
signs_addi (pos a) (pos b) ha hb = ground arith
signs_addi (pos a) (negsuc b) ha hb = ground arith
signs_addi (negsuc a) (pos b) ha hb = ground arith
signs_addi (negsuc a) (negsuc b) ha hb = ground arith

signs_sub :
    (a b : ℤ)
    → IsInt a
    → IsInt b
    → not (agree (is_negative a) (is_negative b))
        && not (agree (is_negative a) (is_negative (sub_int a b)))
      ≡ not (is_int (a -ℤ b))
unfolding sub_int is_int
signs_sub (pos a) (pos b) ha hb = ground arith
signs_sub (pos a) (negsuc b) ha hb = ground arith
signs_sub (negsuc a) (pos b) ha hb = ground arith
signs_sub (negsuc a) (negsuc b) ha hb = ground arith

double_negation : (c : Bool) → not (not c) ≡ c
double_negation true = refl
double_negation false = refl

module _ (a b : ℤ) (ha : IsInt a) (hb : IsInt b) where
  same_signs : not (has_sign (xor_int a b)) ≡ agree (is_negative a) (is_negative b)
  same_signs = ap not (xor_sign a b ha hb) ∙ double_negation (agree (is_negative a) (is_negative b))

  overflows_add_lem : overflows_add a b (add_int a b) ≡ not (is_int (a +ℤ b))
  unfolding overflows_add
  overflows_add_lem =
      ap₂ (λ x y. x && y) same_signs (xor_sign a (add_int a b) ha (add_int-IsInt a b))
      ∙ signs_add a b ha hb

  overflows_addi_lem : overflows_addi a b (add_int a b) ≡ not (is_int (a +ℤ b))
  unfolding overflows_addi
  overflows_addi_lem =
      ap₂ (λ x y. x && y) same_signs (xor_sign b (add_int a b) hb (add_int-IsInt a b))
      ∙ signs_addi a b ha hb

  overflows_sub_lem : overflows_sub a b (sub_int a b) ≡ not (is_int (a -ℤ b))
  unfolding overflows_sub
  overflows_sub_lem =
      ap₂ (λ x y. x && y) (xor_sign a b ha hb) (xor_sign a (sub_int a b) ha (sub_int-IsInt a b))
      ∙ signs_sub a b ha hb

-- An instruction that writes an exact result, or raises the overflow exception if it is no `int`.
unfoldable pub checked : Machine → ℕ → ℤ → ℤ → Outcome Effect
checked m num exact after =
    if is_int exact then writes m num exact after else raises overflow_exception (pos 0) m

-- A guarded write with an exact test and an exact value is a checked write.
checked_by :
    (overflow : Bool) (m : Machine) (num : ℕ) (wrapped exact after : ℤ)
    → overflow ≡ not (is_int exact)
    → (is_int exact ≡ true → wrapped ≡ exact)
    → (if overflow then raises overflow_exception (pos 0) m else writes m num wrapped after)
      ≡ checked m num exact after
unfolding checked
checked_by overflow m num wrapped exact after e same = elim (Bool-cases (is_int exact)) [
  | inl fits ↦ rw (e, fits) (ap (λ t. writes m num t after) (same fits))
  | inr out ↦ rw (e, out) refl
]

-- ADD, ADDI and SUB on ints write the exact sum or difference if it is an int, and raise the
-- overflow exception if it is not.
pub traps_exactly :
    (handler : Machine → Outcome Machine) (i : Instruction) (m : Machine) (a b next after : ℤ)
    → IsInt a
    → IsInt b
    → IsInt i.extra
    → (execute handler op_add i m a b next after ≡ checked m i.rd (a +ℤ b) after)
      × (execute handler op_addi i m a b next after ≡ checked m i.rt (a +ℤ i.extra) after)
      × (execute handler op_sub i m a b next after ≡ checked m i.rd (a -ℤ b) after)
unfolding execute
traps_exactly handler i m a b next after ha hb he = (
  checked_by _ m i.rd (add_int a b) (a +ℤ b) after (overflows_add_lem a b ha hb)
      (sum_exact a b ha hb),
  checked_by _ m i.rt (add_int a i.extra) (a +ℤ i.extra) after (overflows_addi_lem a i.extra ha he)
      (sum_exact a i.extra ha he),
  checked_by _ m i.rd (sub_int a b) (a -ℤ b) after (overflows_sub_lem a b ha hb)
      (diff_exact a b ha hb),
)
