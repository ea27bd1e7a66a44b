-- ===== src/Cpu/Safe.antt =====
-- How an instruction of a user program can end (machine/mipssim.cc), with the kinds of instruction
-- that loads, stores and exceptions make.
use nachos_assignment.Machine.{Machine, TranslationEntry, ExceptionType, address_error_exception}
use nachos_assignment.Machine.Translate.{IsSize, paged}
use nachos_assignment.Machine.Memory.{load_reg}
use nachos_assignment.Machine.Memory.Access.{IsFault, raise_exception_halts}
use nachos_assignment.Cpu.OpCode.{OpCode, op_div, op_syscall}
use nachos_assignment.Cpu.Effects.{
  Effect, done, returned, writes, raises, with_register, load_cell, load_aligned, store_cell,
}
use nachos_assignment.Cpu.Access.{no_read, was_read, no_write, was_written, user_read, user_write}
use nachos_assignment.Cpu.User.{IsUser, IsRegisters, IsRegs-of, set-IsRegisters}
use nachos_assignment.Base.{
  ℕ, ◌-◌, ◌<◌, bit_and, ◌≡◌, refl, ◌≢◌, Bool, true, false, List, arith, ◌==◌, if◌then◌else◌, set, ℤ,
  pos, to_unsigned, IsInt, halted, undefined, Outcome, ok, err, ◌>>=◌,
}

-- What the switch comes to for the operation `op`: the program goes on, the machine halts, DIV is
-- undefined, or the kernel has run its system call.
pub data Safe (handler : Machine → Outcome Machine) (j byte : ℕ) (op : OpCode) (r : Outcome Effect)
    : Type 0 where
  goes_on :
      (memory : List ℕ) (regs : List ℤ) (table : List TranslationEntry) (after : ℤ) (load : ℕ)
      (value : ℤ)
      → IsUser j byte memory regs table
      → IsInt after
      → load < 32
      → IsInt value
      → r ≡ ok (done (paged memory regs table) after load value)
      → Safe handler j byte op r
  stops : r ≡ err halted → Safe handler j byte op r
  divides : op ≡ op_div → r ≡ err undefined → Safe handler j byte op r
  traps :
      (memory : List ℕ) (regs : List ℤ) (table : List TranslationEntry)
      → IsUser j byte memory regs table
      → op ≡ op_syscall
      → r ≡ (handler (paged memory regs table) >>= λ m'. ok (returned m'))
      → Safe handler j byte op r

pub if-Safe :
    {handler : Machine → Outcome Machine} {j byte : ℕ} {op : OpCode} (c : Bool)
    (r s : Outcome Effect)
    → Safe handler j byte op r
    → Safe handler j byte op s
    → Safe handler j byte op (if c then r else s)
if-Safe true r s hr hs = hr
if-Safe false r s hr hs = hs

module _ (handler : Machine → Outcome Machine) (j byte : ℕ) (op : OpCode) (memory : List ℕ)
    (regs : List ℤ) (table : List TranslationEntry) (u : IsUser j byte memory regs table)
    (after : ℤ) (int_after : IsInt after) where
  pub with_regs : (regs' : List ℤ) → IsRegisters regs' → IsUser j byte memory regs' table
  with_regs regs' r = record {
    full = u.full;
    bytes = u.bytes;
    untouched = u.untouched;
    is_registers = r;
    foreign = u.foreign;
  }

  pub stays-Safe : Safe handler j byte op (ok (done (paged memory regs table) after 0 (pos 0)))
  stays-Safe =
      goes_on memory regs table after 0 (pos 0) u int_after (omega arith) (omega arith) refl

  pub writes-Safe :
      (num : ℕ) (value : ℤ)
      → num ≢ load_reg
      → IsInt value
      → Safe handler j byte op (writes (paged memory regs table) num value after)
  writes-Safe num value other int =
      goes_on memory (set regs num value) table after 0 (pos 0)
        (with_regs _ (set-IsRegisters regs num value u.is_registers int other)) int_after
        (omega arith) (omega arith) refl

  -- Two registers that are written one after the other.
  pub writes_two-Safe :
      (num num' : ℕ) (value value' : ℤ)
      → num ≢ load_reg
      → num' ≢ load_reg
      → IsInt value
      → IsInt value'
      → Safe handler j byte op
          (writes (with_register (paged memory regs table) num value) num' value' after)
  writes_two-Safe num num' value value' other other' int int' =
      goes_on memory (set (set regs num value) num' value') table after 0 (pos 0)
        (with_regs _ (
          set-IsRegisters _ num' value' (set-IsRegisters regs num value u.is_registers int other)
            int' other'))
        int_after (omega arith) (omega arith) refl

  pub raises-Safe :
      (which : ExceptionType) (bad_vaddr : ℤ)
      → IsFault which
      → Safe handler j byte op (raises which bad_vaddr (paged memory regs table))
  raises-Safe which bad_vaddr f = stops (
      rw (
        raise_exception_halts which (to_unsigned bad_vaddr) (paged memory regs table)
          (IsRegs-of regs u.is_registers) f))

  pub load_cell-Safe :
      (size : ℕ) (value_after : ℤ → ℤ) (va : ℤ) (rt : ℕ)
      → IsSize size
      → ((v : ℤ) → IsInt v → IsInt (value_after v))
      → rt < 32
      → Safe handler j byte op (load_cell (paged memory regs table) size value_after va rt after)
  unfolding load_cell
  load_cell-Safe size value_after va rt sized keeps small =
      elim (user_read j byte memory regs table u (to_unsigned va) size sized) [
        | no_read e ↦ stops (rw e)
        | was_read table' v u' int e ↦
            goes_on memory regs table' after rt (value_after v) u' int_after small (keeps v int)
              (rw e)
      ]

  pub load_aligned-Safe :
      (size : ℕ) (value_after : ℤ → ℤ) (va : ℤ) (rt : ℕ)
      → IsSize size
      → ((v : ℤ) → IsInt v → IsInt (value_after v))
      → rt < 32
      → Safe handler j byte op (load_aligned (paged memory regs table) size value_after va rt after)
  unfolding load_aligned
  load_aligned-Safe size value_after va rt sized keeps small =
      if-Safe (bit_and (to_unsigned va) (size - 1) == 0) _ _
        (load_cell-Safe size value_after va rt sized keeps small)
        (raises-Safe address_error_exception va tt)

  pub store_cell-Safe :
      (size : ℕ) (va value : ℤ)
      → IsSize size
      → Safe handler j byte op (store_cell (paged memory regs table) size va value after)
  unfolding store_cell
  store_cell-Safe size va value sized =
      elim (user_write j byte memory regs table u (to_unsigned va) size sized value) [
        | no_write e ↦ stops (rw e)
        | was_written memory' table' u' e ↦
            goes_on memory' regs table' after 0 (pos 0) u' int_after (omega arith) (omega arith)
              (rw e)
      ]
