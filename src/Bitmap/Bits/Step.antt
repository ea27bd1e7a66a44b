-- ===== src/Bitmap/Bits/Step.antt =====
-- The lowest digit of `|` and `&`, from the recursion on digits that the native operations mean.
use Prim.Native.Nat.{min, max, digits, differ, bit_and-bitwise, bit_or-bitwise, bit_xor-bitwise}
use nachos_assignment.Base.{
  ℕ, zero, suc, ◌+◌, ◌-◌, ◌*◌, ◌/◌, ◌%◌, ◌≤◌, bit_and, bit_or, bit_xor, ◌≡◌, refl, sym, ap, subst,
  ◌∙◌, arith,
}

more_rounds : (count more : ℕ) → suc count + more ≡ suc (count + more)
more_rounds count more = omega arith

-- The recursion for an operation on digits, with what it answers once the left word has run out.
module _ (at_end : ℕ → ℕ) (op : ℕ → ℕ → ℕ) where
  run_out : (count right : ℕ) → digits at_end op count 0 right ≡ at_end right
  run_out zero right = refl
  run_out (suc count) right = refl

  -- A count that is too large answers the same.
  spare :
      (left count more right : ℕ)
      → left ≤ count
      → digits at_end op (count + more) left right ≡ digits at_end op count left right
  spare zero count more right h = run_out (count + more) right ∙ sym (run_out count right)
  spare (suc left) zero more right h = absurd (omega arith)
  spare (suc left) (suc count) more right h = rw (more_rounds count more) (
      ap (λ t. t * 2 + op (suc left % 2) (right % 2))
        (spare (suc left / 2) count more (right / 2) (omega arith)))

  halved :
      (left right : ℕ)
      → digits at_end op left (suc left / 2) right
        ≡ digits at_end op (suc left / 2) (suc left / 2) right
  halved left right =
      subst
        (λ count.
          digits at_end op count (suc left / 2) right
          ≡ digits at_end op (suc left / 2) (suc left / 2) right)
        (omega arith)
        (spare (suc left / 2) (suc left / 2) (left - suc left / 2) right (omega arith))

pub bit_and_halves : (x y : ℕ) → bit_and x y ≡ min (x % 2) (y % 2) + 2 * bit_and (x / 2) (y / 2)
bit_and_halves zero y = simp bit_and-bitwise (omega arith)
bit_and_halves (suc x) y = simp bit_and-bitwise (omega (arith, halved (λ t. 0) min x (y / 2)))

pub bit_or_halves : (x y : ℕ) → bit_or x y ≡ max (x % 2) (y % 2) + 2 * bit_or (x / 2) (y / 2)
bit_or_halves zero y = simp bit_or-bitwise (omega arith)
bit_or_halves (suc x) y = simp bit_or-bitwise (omega (arith, halved (λ t. t) max x (y / 2)))

pub bit_xor_halves : (x y : ℕ) → bit_xor x y ≡ differ (x % 2) (y % 2) + 2 * bit_xor (x / 2) (y / 2)
bit_xor_halves zero y = simp bit_xor-bitwise (omega arith)
bit_xor_halves (suc x) y = simp bit_xor-bitwise (omega (arith, halved (λ t. t) differ x (y / 2)))
