-- ===== src/Cpu/Access.antt =====
-- ReadMem and WriteMem of machine/translate.cc for an instruction of a user program: each halts the
-- machine or succeeds, and the program keeps to its own memory.
use nachos_assignment.Machine.{
  Machine, TranslationEntry, ExceptionType, translate, raised, page_size, page_fault_exception,
  bus_error_exception, address_error_exception,
}
use nachos_assignment.Machine.Translate.{
  IsSize, in_page, accessed, IsMapped, paged, misplaced, beyond, invalid, protected, no_frame,
  mapped, translate-Translates,
}
use nachos_assignment.Machine.Memory.{read_mem, write_mem, store_bytes}
use nachos_assignment.Machine.Memory.Bytes.{length-store_bytes, get_elem?-store_bytes_ne}
use nachos_assignment.Machine.Memory.Access.{
  IsFault, raise_exception_halts, halts, writes, place_of, write_mem-Writes,
}
use nachos_assignment.Cpu.User.{
  IsUser, IsRegs-of, accessed-IsForeign, store_bytes-IsBytes, load_bytes-lt, value_of-IsInt,
}
use nachos_assignment.Base.{
  ℕ, ◌/◌, ◌≡◌, ◌∙◌, Bool, true, false, List, arith, set, ℤ, to_unsigned, IsInt, halted, Outcome, ok,
  err,
}

-- How a ReadMem of a user program ends; the registers stay.
pub data Reading (j byte : ℕ) (memory : List ℕ) (regs : List ℤ) (r : Outcome (Machine × Bool × ℤ))
    : Type 0 where
  no_read : r ≡ err halted → Reading j byte memory regs r
  was_read :
      (table : List TranslationEntry) (v : ℤ)
      → IsUser j byte memory regs table
      → IsInt v
      → r ≡ ok (paged memory regs table, true, v)
      → Reading j byte memory regs r

pub data Writing (j byte : ℕ) (regs : List ℤ) (r : Outcome (Machine × Bool)) : Type 0 where
  no_write : r ≡ err halted → Writing j byte regs r
  was_written :
      (memory : List ℕ) (table : List TranslationEntry)
      → IsUser j byte memory regs table
      → r ≡ ok (paged memory regs table, true)
      → Writing j byte regs r

module _ (j byte : ℕ) (memory : List ℕ) (regs : List ℤ) (table : List TranslationEntry)
    (u : IsUser j byte memory regs table) (va size : ℕ) (sized : IsSize size) where
  read_fault :
      (which : ExceptionType)
      → IsFault which
      → translate (paged memory regs table) va size false ≡ ok (raised which)
      → Reading j byte memory regs (read_mem (paged memory regs table) va size)
  unfolding read_mem
  read_fault which f e = no_read (
      rw (
        e,
        raise_exception_halts which va (paged memory regs table) (IsRegs-of regs u.is_registers) f,
      ))

  marked :
      (e : TranslationEntry) (writing : Bool)
      → IsMapped table va size writing e
      → IsUser j byte memory regs (set table (va / page_size) (accessed e writing))
  marked e writing h = record {
    full = u.full;
    bytes = u.bytes;
    untouched = u.untouched;
    is_registers = u.is_registers;
    foreign = accessed-IsForeign j table (va / page_size) e writing h.here u.foreign;
  }

  pub user_read : Reading j byte memory regs (read_mem (paged memory regs table) va size)
  user_read = elim (translate-Translates memory regs table va size false sized) [
    | misplaced h e ↦ read_fault address_error_exception tt e
    | beyond h e ↦ read_fault address_error_exception tt e
    | invalid x here h e ↦ read_fault page_fault_exception tt e
    | protected x here h e ↦ absurd (ground (arith, h))
    | no_frame x here allowed h e ↦ read_fault bus_error_exception tt e
    | mapped x h inside e ↦
        let (raw, l, small) =
          load_bytes-lt memory (place_of x va) size u.bytes (omega (arith, inside, u.full)) in
        let (v, ev, int) = value_of-IsInt size raw sized small in
        was_read (set table (va / page_size) (accessed x false)) v (marked x false h) int
          (unfold read_mem in rw (e, l, ev))
  ]

  pub user_write :
      (value : ℤ) → Writing j byte regs (write_mem (paged memory regs table) va size value)
  user_write value =
      elim (write_mem-Writes memory regs table va size sized (IsRegs-of regs u.is_registers)
        value) [
          | halts why e ↦ no_write e
          | writes x h inside e ↦
              let in_frame = in_page va size sized h.fits in
              let elsewhere = u.foreign (va / page_size) x h.here in
              was_written (store_bytes memory (place_of x va) size (to_unsigned value))
                (set table (va / page_size) (accessed x true))
                (record {
                  full =
                      length-store_bytes memory (place_of x va) size (to_unsigned value) ∙ u.full;
                  bytes =
                      store_bytes-IsBytes memory (place_of x va) size (to_unsigned value) u.bytes;
                  untouched =
                      get_elem?-store_bytes_ne memory (place_of x va) size (to_unsigned value) j
                        (omega (arith, in_frame, elsewhere))
                      ∙ u.untouched;
                  is_registers = u.is_registers;
                  foreign = (marked x true h).foreign;
                })
                e
        ]
