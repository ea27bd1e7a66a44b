-- ===== src/Cpu/Isolation.antt =====
-- Machine::OneInstruction and the loop of Machine::Run (machine/mipssim.cc) for a user program: what
-- a program can do to the rest of the machine.
use nachos_assignment.Machine.{Machine, TranslationEntry}
use nachos_assignment.Machine.Translate.{paged}
use nachos_assignment.AddrSpace.Run.{pc_reg, next_pc_reg}
use nachos_assignment.Cpu.{add_int}
use nachos_assignment.Cpu.OpCode.{op_div, op_syscall}
use nachos_assignment.Cpu.Decode.{Instruction, decode}
use nachos_assignment.Cpu.Fields.{decode-IsDecoded}
use nachos_assignment.Cpu.Effects.{Effect, returned}
use nachos_assignment.Cpu.Execute.{execute, finish, one_instruction, run}
use nachos_assignment.Cpu.Words.{add_int-IsInt}
use nachos_assignment.Cpu.User.{IsUser}
use nachos_assignment.Cpu.Access.{no_read, was_read, user_read}
use nachos_assignment.Cpu.Registers.{delayed_load-IsRegisters, advance-IsRegisters}
use nachos_assignment.Machine.Memory.{read_mem}
use nachos_assignment.Cpu.Division.{by_zero, overflowing, divided, op_div-Divides}
use nachos_assignment.Cpu.Safe.{Safe, goes_on, stops, divides, traps}
use nachos_assignment.Cpu.Safety.{execute-Safe}
use nachos_assignment.Base.{
  ℕ, zero, suc, ◌-◌, ◌^◌, ◌≡◌, refl, sym, ap, ◌∙◌, subst, inl, inr, true, some, List, arith,
  get_elem?, get_elem?-some, ℤ, pos, negsuc, to_unsigned, IsInt, halted, undefined, Outcome, ok,
  err, Outcome-cases, ◌>>=◌,
}

-- The instruction that the machine fetches at its program counter.
pub record Fetched (m : Machine) (i : Instruction) : Type 0 where
  pub pc : ℤ
  pub after : Machine
  pub word : ℤ
  pub at_pc : get_elem? m.registers pc_reg ≡ some pc
  pub reads : read_mem m (to_unsigned pc) 4 ≡ ok (after, true, word)
  pub decodes : decode (to_unsigned word) ≡ ok i

-- How one instruction of the machine `m` ends: the program goes on, the machine halts, the host
-- divides the least `int` by -1, or the kernel runs a system call on such a machine.
pub data Stepped (handler : Machine → Outcome Machine) (j byte : ℕ) (m : Machine)
    (r : Outcome Machine) : Type 0 where
  stepped :
      (memory : List ℕ) (regs : List ℤ) (table : List TranslationEntry)
      → IsUser j byte memory regs table
      → get_elem? regs 0 ≡ some (pos 0)
      → r ≡ ok (paged memory regs table)
      → Stepped handler j byte m r
  halts : r ≡ err halted → Stepped handler j byte m r
  cannot_divide :
      (i : Instruction)
      → Fetched m i
      → i.op_code ≡ op_div
      → get_elem? m.registers i.rs ≡ some (negsuc (2 ^ 31 - 1))
      → get_elem? m.registers i.rt ≡ some (negsuc 0)
      → r ≡ err undefined
      → Stepped handler j byte m r
  calls :
      (i : Instruction) (memory : List ℕ) (regs : List ℤ) (table : List TranslationEntry)
      → Fetched m i
      → i.op_code ≡ op_syscall
      → IsUser j byte memory regs table
      → r ≡ handler (paged memory regs table)
      → Stepped handler j byte m r

-- DIV that is undefined has the least `int` and -1 in its registers.
undefined_only :
    (handler : Machine → Outcome Machine) (i : Instruction) (m : Machine) (a b next after : ℤ)
    → IsInt a
    → i.op_code ≡ op_div
    → execute handler i.op_code i m a b next after ≡ err undefined
    → (a ≡ negsuc (2 ^ 31 - 1)) × (b ≡ negsuc 0)
undefined_only handler i m a b next after int is_div e =
    let e' : execute handler op_div i m a b next after ≡ err undefined =
      subst (λ op. execute handler op i m a b next after ≡ err undefined) is_div e in
    elim (op_div-Divides handler i m a b next after int) [
      | by_zero z w ↦ absurd (ground (arith, sym w ∙ e'))
      | overflowing least minus w ↦ (least, minus)
      | divided q rem quotient w ↦ absurd (ground (arith, sym w ∙ e'))
    ]

module _ (handler : Machine → Outcome Machine) (j byte : ℕ) where
  -- What the kernel answers is what OneInstruction comes to.
  returns_same : (r : Outcome Machine) → (r >>= λ m. ok (returned m)) >>= finish handler ≡ r
  unfolding finish
  returns_same (ok m) = refl
  returns_same (err e) = refl

  finish-Stepped :
      (m : Machine) (i : Instruction) (r : Outcome Effect)
      → Fetched m i
      → (i.op_code ≡ op_div
          → r ≡ err undefined
          → (get_elem? m.registers i.rs ≡ some (negsuc (2 ^ 31 - 1)))
            × (get_elem? m.registers i.rt ≡ some (negsuc 0)))
      → Safe handler j byte i.op_code r
      → Stepped handler j byte m (r >>= finish handler)
  unfolding finish
  finish-Stepped m i r f least (stops e) = halts (rw e refl)
  finish-Stepped m i r f least (divides is_div e) =
      let (a, b) = least is_div e in cannot_divide i f is_div a b (rw e refl)
  finish-Stepped m i r f least (traps memory regs table u is_call e) =
      calls i memory regs table f is_call u
        (rw e (returns_same (handler (paged memory regs table))))
  finish-Stepped m i r f least (goes_on memory regs table after load_num loaded u ia small il e) =
      let (regs1, e1, r1, z1) =
        delayed_load-IsRegisters regs load_num loaded u.is_registers small il in
      let (regs2, e2, r2, z2) = advance-IsRegisters regs1 after r1 ia in
      stepped memory regs2 table
        (record {
          full = u.full;
          bytes = u.bytes;
          untouched = u.untouched;
          is_registers = r2;
          foreign = u.foreign;
        })
        (z2 ∙ z1) (rw (e, e1, e2) refl)

  -- One instruction of a user program, whatever its word: the program goes on with 40 registers
  -- that hold ints and with R0 zero, a full memory of bytes and the byte that is not its own
  -- unchanged; or the machine halts; or the word at the program counter is a DIV of the least int
  -- by -1 and the host faults; or it is a SYSCALL, which the kernel handles on such a machine.
  pub one_instruction-Stepped :
      (memory : List ℕ) (regs : List ℤ) (table : List TranslationEntry)
      → IsUser j byte memory regs table
      → Stepped handler j byte
          (paged memory regs table)
          (one_instruction handler (paged memory regs table))
  unfolding one_instruction
  one_instruction-Stepped memory regs table u =
      let r = u.is_registers in
      let (pc, p) = get_elem?-some regs pc_reg (omega (arith, r.all)) in
      elim (user_read j byte memory regs table u (to_unsigned pc) 4 (inr (inr refl))) [
        | no_read e ↦ halts (rw (p, e) refl)
        | was_read table' v u' int e ↦
            let (i, di, d) = decode-IsDecoded (to_unsigned v) in
            let (next, n) = get_elem?-some regs next_pc_reg (omega (arith, r.all)) in
            let (a, ea) = get_elem?-some regs i.rs (omega (arith, r.all, d.rs_fits)) in
            let (b, eb) = get_elem?-some regs i.rt (omega (arith, r.all, d.rt_fits)) in
            let f : Fetched (paged memory regs table) i = record {
              pc = pc;
              after = paged memory regs table';
              word = v;
              at_pc = p;
              reads = e;
              decodes = di;
            } in
            rw (p, e, di, n, ea, eb)
              (finish-Stepped (paged memory regs table) i _ f
                (λ is_div failed.
                  let (least, minus) =
                    undefined_only handler i (paged memory regs table') a b next
                      (add_int next (pos 4)) (r.ints i.rs a ea) is_div failed in
                  (ea ∙ ap (λ t. some t) least, eb ∙ ap (λ t. some t) minus))
                (execute-Safe handler j byte memory regs table' u' i d a b next
                  (add_int next (pos 4)) (r.ints i.rs a ea) (r.ints i.rt b eb)
                  (add_int-IsInt next (pos 4)) i.op_code d.has_case))
      ]

-- A kernel that keeps the rules of a running program.
abbrev pub KeepsUser : (Machine → Outcome Machine) → ℕ → ℕ → Type 0
KeepsUser handler j byte =
    (memory : List ℕ) (regs : List ℤ) (table : List TranslationEntry) (m : Machine)
    → IsUser j byte memory regs table
    → handler (paged memory regs table) ≡ ok m
    → (memory' : List ℕ) × (regs' : List ℤ) × (table' : List TranslationEntry) × (m
        ≡ paged memory' regs' table')
      × IsUser j byte memory' regs' table'

-- A user program that runs for any number of instructions, on a kernel whose system calls keep the
-- rules of a running program, never changes a byte of the memory that lies in no frame of its page
-- table, as long as the machine has not stopped.
pub run-isolates :
    (handler : Machine → Outcome Machine) (j byte rounds : ℕ) (memory : List ℕ) (regs : List ℤ)
    (table : List TranslationEntry) (m : Machine)
    → KeepsUser handler j byte
    → IsUser j byte memory regs table
    → run handler rounds (paged memory regs table) ≡ ok m
    → get_elem? m.main_memory j ≡ some byte
unfolding run
run-isolates handler j byte zero memory regs table m keeps u e = ground (arith, e, u.untouched)
run-isolates handler j byte (suc rounds) memory regs table m keeps u e =
    elim (one_instruction-Stepped handler j byte memory regs table u) [
      | stepped memory' regs' table' u' z e' ↦
          run-isolates handler j byte rounds memory' regs' table' m keeps u'
            (sym (ap (λ t. t >>= run handler rounds) e') ∙ e)
      | halts e' ↦ absurd (ground (arith, sym (ap (λ t. t >>= run handler rounds) e') ∙ e))
      | cannot_divide i f is_div a b e' ↦
          absurd (ground (arith, sym (ap (λ t. t >>= run handler rounds) e') ∙ e))
      | calls i memory' regs' table' f is_call u' e' ↦
          elim (Outcome-cases (handler (paged memory' regs' table'))) [
            | inl (m', answer) ↦
                let (memory2, regs2, table2, same, u2) = keeps memory' regs' table' m' u' answer in
                run-isolates handler j byte rounds memory2 regs2 table2 m keeps u2 (
                  sym (ap (λ t. t >>= run handler rounds) (e' ∙ (answer ∙ ap (λ t. ok t) same)))
                  ∙ e)
            | inr (s, failed) ↦
                absurd (ground (arith, sym (ap (λ t. t >>= run handler rounds) (e' ∙ failed)) ∙ e))
          ]
    ]
