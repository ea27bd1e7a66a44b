-- ===== src/Cpu/Effects.antt =====
-- What the instructions of Machine::OneInstruction (machine/mipssim.cc) do, kind by kind, with SIM_FIX
-- defined as the Makefiles do: writes of a register, branches, loads, stores and divisions.
use nachos_assignment.Machine.{Machine, ExceptionType, address_error_exception}
use nachos_assignment.Machine.Memory.{
  read_mem, write_mem, raise_exception, load_reg, load_value_reg,
}
use nachos_assignment.Cpu.{
  add_int, sub_int, and_int, or_int, xor_int, shift_left, shift_right, has_sign, div_int, rem_int,
  hi_reg, lo_reg, r31,
}
use nachos_assignment.Cpu.Decode.{Instruction}
use nachos_assignment.Cpu.Mult.{Product}
use nachos_assignment.Base.{
  ◌&&◌, not, ℕ, ◌-◌, ◌/◌, ◌%◌, ◌^◌, bit_and, Bool, ◌==◌, if◌then◌else◌, set, ℤ, pos, to_unsigned,
  to_int, same_int, Outcome, ok, ◌>>=◌, at,
}

-- How the switch ends: with `pcAfter`, `nextLoadReg` and `nextLoadValue`, or by a `return` after the
-- kernel was called.
pub data Effect : Type 0 where
  done : Machine → ℤ → ℕ → ℤ → Effect
  returned : Machine → Effect

abbrev pub with_register : Machine → ℕ → ℤ → Machine
with_register m num value = record m { registers = set m.registers num value }

abbrev pub writes : Machine → ℕ → ℤ → ℤ → Outcome Effect
writes m num value pc_after = ok (done (with_register m num value) pc_after 0 (pos 0))

abbrev pub raises : ExceptionType → ℤ → Machine → Outcome Effect
raises which bad_vaddr m =
    raise_exception which (to_unsigned bad_vaddr) m >>= λ m'. ok (returned m')

abbrev pub set_if : Bool → ℤ
set_if b = if b then pos 1 else pos 0

abbrev pub low_half : ℤ → ℤ
low_half a = and_int a (pos (2 ^ 16 - 1))

-- ADD and ADDI compare the signs of the operands with the sign of the sum.
unfoldable pub overflows_add : ℤ → ℤ → ℤ → Bool
overflows_add a b sum = not (has_sign (xor_int a b)) && has_sign (xor_int a sum)

unfoldable pub overflows_addi : ℤ → ℤ → ℤ → Bool
overflows_addi a extra sum = not (has_sign (xor_int a extra)) && has_sign (xor_int extra sum)

unfoldable pub overflows_sub : ℤ → ℤ → ℤ → Bool
overflows_sub a b diff = has_sign (xor_int a b) && has_sign (xor_int a diff)

abbrev pub branch : Bool → ℤ → ℤ → ℤ → ℤ
branch taken next extra pc_after = if taken then add_int next (shift_left extra 2) else pc_after

unfoldable pub jump : ℤ → ℤ → ℤ
jump pc_after extra = or_int (and_int pc_after (to_int (2 ^ 32 - 2 ^ 28))) (shift_left extra 2)

-- The value of LB, LBU, LH and LHU: the low `width` bits, with the sign repeated where asked.
unfoldable pub extend : ℕ → Bool → ℤ → ℤ
extend width signed value =
    if not (bit_and (to_unsigned value) (2 ^ (width - 1)) == 0) && signed
    then or_int value (to_int (2 ^ 32 - 2 ^ width))
    else and_int value (pos (2 ^ width - 1))

-- A load that is not by whole words at any address: the alignment test, the access, the delay.
unfoldable pub load_cell : Machine → ℕ → (ℤ → ℤ) → ℤ → ℕ → ℤ → Outcome Effect
load_cell m size value_after va rt pc_after = do
  r ← read_mem m (to_unsigned va) size
  if r.1 then ok (done r.0 pc_after rt (value_after r.2)) else ok (returned r.0)

unfoldable pub load_aligned : Machine → ℕ → (ℤ → ℤ) → ℤ → ℕ → ℤ → Outcome Effect
load_aligned m size value_after va rt pc_after =
    if bit_and (to_unsigned va) (size - 1) == 0
    then load_cell m size value_after va rt pc_after
    else raises address_error_exception va m

unfoldable pub store_cell : Machine → ℕ → ℤ → ℤ → ℤ → Outcome Effect
store_cell m size va value pc_after = do
  r ← write_mem m (to_unsigned va) size value
  if r.1 then ok (done r.0 pc_after 0 (pos 0)) else ok (returned r.0)

-- The switches of LWL and LWR on `3 - byte`, by `byte`, the place of the address in its word: what
-- is pending for the register, and the word of the memory.
unfoldable pub lwl_value : ℕ → ℤ → ℤ → ℤ
lwl_value byte old value =
    if byte == 3
    then value
    else if byte == 2
    then or_int (and_int old (pos (2 ^ 8 - 1))) (shift_left value 8)
    else if byte == 1
    then or_int (and_int old (pos (2 ^ 16 - 1))) (shift_left value 16)
    else or_int (and_int old (pos (2 ^ 24 - 1))) (shift_left value 24)

unfoldable pub lwr_value : ℕ → ℤ → ℤ → ℤ
lwr_value byte old value =
    if byte == 3
    then or_int (and_int old (to_int (2 ^ 32 - 2 ^ 8)))
        (and_int (shift_right value 24) (pos (2 ^ 8 - 1)))
    else if byte == 2
    then or_int (and_int old (to_int (2 ^ 32 - 2 ^ 16)))
        (and_int (shift_right value 16) (pos (2 ^ 16 - 1)))
    else if byte == 1
    then or_int (and_int old (to_int (2 ^ 32 - 2 ^ 24)))
        (and_int (shift_right value 8) (pos (2 ^ 24 - 1)))
    else value

-- The switches of SWL and SWR: the word of the memory and the register.
unfoldable pub swl_value : ℕ → ℤ → ℤ → ℤ
swl_value byte value source =
    if byte == 3
    then source
    else if byte == 2
    then or_int (and_int value (to_int (2 ^ 32 - 2 ^ 24)))
        (and_int (shift_right source 8) (pos (2 ^ 24 - 1)))
    else if byte == 1
    then or_int (and_int value (to_int (2 ^ 32 - 2 ^ 16)))
        (and_int (shift_right source 16) (pos (2 ^ 16 - 1)))
    else or_int (and_int value (to_int (2 ^ 32 - 2 ^ 8)))
        (and_int (shift_right source 24) (pos (2 ^ 8 - 1)))

unfoldable pub swr_value : ℕ → ℤ → ℤ → ℤ
swr_value byte value source =
    if byte == 3
    then or_int (and_int value (pos (2 ^ 24 - 1))) (shift_left source 24)
    else if byte == 2
    then or_int (and_int value (pos (2 ^ 16 - 1))) (shift_left source 16)
    else if byte == 1
    then or_int (and_int value (pos (2 ^ 8 - 1))) (shift_left source 8)
    else source

abbrev pub byte_of : ℤ → ℕ
byte_of va = bit_and (to_unsigned va) 3

-- tmp - byte
abbrev pub word_of : ℤ → ℤ
word_of va = sub_int va (pos (byte_of va))

unfoldable pub load_part : (ℕ → ℤ → ℤ → ℤ) → Machine → ℤ → ℕ → ℤ → Outcome Effect
load_part merge m va rt pc_after = do
  r ← read_mem m (to_unsigned (word_of va)) 4
  if r.1
      then (do
        target ← at r.0.registers load_reg
        loading ← at r.0.registers load_value_reg
        current ← at r.0.registers rt
        let old = if same_int target (pos rt) then loading else current
        ok (done r.0 pc_after rt (merge (byte_of va) old r.2)))
      else ok (returned r.0)

unfoldable pub store_part : (ℕ → ℤ → ℤ → ℤ) → Machine → ℤ → ℤ → ℤ → Outcome Effect
store_part merge m va source pc_after = do
  r ← read_mem m (to_unsigned (word_of va)) 4
  if r.1
      then store_cell r.0 4 (word_of va) (merge (byte_of va) r.2 source) pc_after
      else ok (returned r.0)

unfoldable pub divide : Machine → ℤ → ℤ → ℤ → Outcome Effect
divide m a b pc_after =
    if same_int b (pos 0)
    then writes (with_register m lo_reg (pos 0)) hi_reg (pos 0) pc_after
    else (do
      quotient ← div_int a b
      writes (with_register m lo_reg quotient) hi_reg (rem_int a b) pc_after)

unfoldable pub divide_unsigned : Machine → ℤ → ℤ → ℤ → Outcome Effect
divide_unsigned m a b pc_after =
    if to_unsigned b == 0
    then writes (with_register m lo_reg (pos 0)) hi_reg (pos 0) pc_after
    else writes (with_register m lo_reg (to_int (to_unsigned a / to_unsigned b))) hi_reg
        (to_int (to_unsigned a % to_unsigned b)) pc_after

abbrev pub product : Machine → Product → ℤ → Outcome Effect
product m p pc_after = writes (with_register m hi_reg (to_int p.hi)) lo_reg (to_int p.lo) pc_after

-- A conditional branch that links: R31 is written before the test reads its register.
unfoldable pub link_branch : (ℤ → Bool) → Machine → Instruction → ℤ → ℤ → Outcome Effect
link_branch taken m i next pc_after = do
  let linked = with_register m r31 (add_int next (pos 4))
  a ← at linked.registers i.rs
  ok (done linked (branch (taken a) next i.extra pc_after) 0 (pos 0))
