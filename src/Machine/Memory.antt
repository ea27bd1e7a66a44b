-- ===== src/Machine/Memory.antt =====
-- Machine::ReadMem, Machine::WriteMem and Machine::RaiseException of machine/translate.cc and
-- machine/machine.cc, with what userprog/exception.cc does about an exception that is no system call.
pub mod Bytes
pub mod Access
use nachos_assignment.Machine.{
  Machine, ExceptionType, no_exception, syscall_exception, page_fault_exception,
  read_only_exception, bus_error_exception, address_error_exception, overflow_exception,
  illegal_instr_exception, num_exception_types, Translation, translated, raised, translate,
}
use nachos_assignment.Base.{
  ◌&&◌, ◌||◌, not, ℕ, zero, suc, ◌+◌, ◌-◌, ◌*◌, ◌/◌, ◌%◌, ◌^◌, ◌≤◌, ◌<◌, min, max, bit_and, bit_or,
  ◌≡◌, refl, sym, ap, ap₂, ◌∙◌, subst, fun_ext, ◌≢◌, ◌↔◌, ◌⊎◌, inl, inr, Bool, true, false, Option,
  none, some, List, [], ◌∷◌, ◌++◌, map, arith, ltb, leb, ◌==◌, if◌then◌else◌, ltb→lt, lt→ltb,
  leb→le, ==_iff, tests, Bool-cases, Option-cases, every, every-test, agree, agree_eq, length,
  get_elem?, set, get_or, take, drop, replicate, length-append, length-set, get_elem?-set_self,
  get_elem?-set_ne, take-append-drop, length-take, length-drop, length-replicate, length-map,
  get_elem?-eq-get_or, get_or-set_self, get_or-set_ne, get_or-replicate, get_elem?-none,
  get_elem?-some, get_elem?_beyond, get_elem?_inside, drop_all, drop_step, ℤ, pos, negsuc, pos_part,
  neg_part, sub_ℕ, neg_ℤ, ltb_ℤ, to_unsigned, to_int, IsInt, to_int-to_unsigned, minus_one, Name,
  same_name, same_name_eq, same_name_refl, Stop, aborted, halted, undefined, Outcome, ok, err,
  ◌>>=◌, ◌>>◌, assert, deref, at, Name, same_name, same_name_eq, same_name_refl,
}

abbrev pub load_reg : ℕ
load_reg = 37

abbrev pub load_value_reg : ℕ
load_value_reg = 38

abbrev pub bad_vaddr_reg : ℕ
bad_vaddr_reg = 39

-- Machine::DelayedLoad(nextReg, nextValue) of machine/mipssim.cc
unfoldable pub delayed_load : List ℤ → ℕ → ℤ → Outcome (List ℤ)
delayed_load regs next_reg next_value = do
  target ← at regs load_reg
  value ← at regs load_value_reg
  _ ← at regs (to_unsigned target)
  let loaded = set regs (to_unsigned target) value
  let pending = set (set loaded load_reg (pos next_reg)) load_value_reg next_value
  ok (set pending 0 (pos 0))

-- ExceptionHandler for what is not a system call: every exception halts the machine.
unfoldable pub handle_fault : ExceptionType → Machine → Outcome Machine
handle_fault no_exception m = ok m
handle_fault page_fault_exception m = err halted
handle_fault read_only_exception m = err halted
handle_fault bus_error_exception m = err halted
handle_fault address_error_exception m = err halted
handle_fault overflow_exception m = err halted
handle_fault illegal_instr_exception m = err halted
handle_fault num_exception_types m = err halted
handle_fault syscall_exception m = err aborted

unfoldable pub raise_exception : ExceptionType → ℕ → Machine → Outcome Machine
raise_exception which bad_vaddr m = do
  regs ← delayed_load (set m.registers bad_vaddr_reg (to_int bad_vaddr)) 0 (pos 0)
  handle_fault which (record m { registers = regs })

-- `size` bytes from `pa` on, the least one first.
unfoldable pub load_bytes : List ℕ → ℕ → ℕ → Outcome ℕ
load_bytes memory pa zero = ok 0
load_bytes memory pa (suc size) = do
  low ← at memory pa
  high ← load_bytes memory (pa + 1) size
  ok (low + 256 * high)

unfoldable pub store_bytes : List ℕ → ℕ → ℕ → ℕ → List ℕ
store_bytes memory pa zero word = memory
store_bytes memory pa (suc size) word =
    store_bytes (set memory pa (word % 256)) (pa + 1) size (word / 256)

-- A `char` as an `int`.
abbrev pub char_value : ℕ → ℤ
char_value b = if ltb b 128 then pos b else negsuc (255 - b)

-- The switch of ReadMem: a `char`, an `unsigned short` or an `unsigned int`.
abbrev pub value_of : ℕ → ℕ → Outcome ℤ
value_of size raw =
    if size == 1
    then ok (char_value raw)
    else if size == 2
    then ok (pos raw)
    else if size == 4
    then ok (to_int raw)
    else err aborted

-- The machine after the access, the answer of the call, and the value read.
unfoldable pub read_mem : Machine → ℕ → ℕ → Outcome (Machine × Bool × ℤ)
read_mem m va size = do
  t ← translate m va size false
  elim t [
    | raised which ↦ raise_exception which va m >>= λ m'. ok (m', false, pos 0)
    | translated pa m' ↦ load_bytes m'.main_memory pa size >>= λ raw.
        value_of size raw >>= λ value. ok (m', true, value)
  ]

unfoldable pub write_mem : Machine → ℕ → ℕ → ℤ → Outcome (Machine × Bool)
write_mem m va size value = do
  t ← translate m va size true
  elim t [
    | raised which ↦ raise_exception which va m >>= λ m'. ok (m', false)
    | translated pa m' ↦ value_of size 0 >>= λ _.
        ok
          (record m' { main_memory = store_bytes m'.main_memory pa size (to_unsigned value) }, true)
  ]
