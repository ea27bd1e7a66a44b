-- ===== src/AddrSpace/Registers.antt =====
-- The registers with which InitRegisters of userprog/addrspace.cc starts a program.
use nachos_assignment.AddrSpace.Run.{
  stack_reg, pc_reg, next_pc_reg, clear_registers, init_registers,
}
use nachos_assignment.Machine.{Machine, page_size, num_total_regs, write_register}
use nachos_assignment.Machine.Memory.{load_reg}
use nachos_assignment.Machine.Memory.Access.{IsRegs}
use nachos_assignment.Base.{
  ℕ, zero, suc, ◌+◌, ◌*◌, ◌≤◌, ◌<◌, ◌≡◌, refl, ◌∙◌, inl, inr, true, some, List, arith, ltb, ◌==◌,
  if◌then◌else◌, Bool-cases, length, get_elem?, set, length-set, get_elem?-set_self,
  get_elem?-set_ne, ℤ, pos, ◌-ℤ◌, ok,
}

-- The registers from `i` on are 0.
record Clears (i : ℕ) (before after : List ℤ) : Type 0 where
  pub all : length after ≡ num_total_regs
  pub zeroes : (k : ℕ) → i ≤ k → k < num_total_regs → get_elem? after k ≡ some (pos 0)
  pub kept : (k : ℕ) → k < i → get_elem? after k ≡ get_elem? before k

clear_registers-Clears :
    (left i : ℕ) (m : Machine)
    → length m.registers ≡ num_total_regs
    → i + left ≡ num_total_regs
    → (regs : List ℤ) × (clear_registers left i m ≡ ok (record m { registers = regs }))
      × Clears i m.registers regs
unfolding clear_registers write_register
clear_registers-Clears zero i m n h = (
  m.registers,
  refl,
  record { all = n; zeroes = λ k a b. absurd (omega arith); kept = λ k a. refl },
)
clear_registers-Clears (suc left) i m n h =
    let inside : ltb i num_total_regs ≡ true = ground (arith, h) in
    let m1 = record m { registers = set m.registers i (pos 0) } in
    let (regs, e, c) =
      clear_registers-Clears left (i + 1) m1 (length-set m.registers i (pos 0) ∙ n) (omega arith) in
    (
      regs,
      rw inside e,
      record {
        all = c.all;
        zeroes = λ k a b. elim (Bool-cases (k == i)) [
          | inl same ↦
              let s : k ≡ i = ground arith in
              rw s (
                c.kept i (omega arith)
                ∙ get_elem?-set_self m.registers i (pos 0) (omega (arith, n)))
          | inr other ↦ c.zeroes k (ground arith) b
        ];
        kept = λ k a.
            c.kept k (omega arith)
            ∙ get_elem?-set_ne m.registers {i = i} {j = k} (pos 0) (omega arith);
      },
    )

-- What a register holds when a program of that many pages starts.
abbrev pub initial : ℕ → ℕ → ℤ
initial num_pages k =
    if k == stack_reg
    then pos (num_pages * page_size) -ℤ pos 16
    else if k == next_pc_reg
    then pos 4
    else pos 0

-- On a machine with all its registers InitRegisters sets the stack pointer 16 bytes below the end
-- of the address space, the next program counter to 4 and all other registers to 0, and changes
-- nothing but the registers, with which loads and exceptions work.
pub init_registers_lem :
    (num_pages : ℕ) (m : Machine)
    → length m.registers ≡ num_total_regs
    → (regs : List ℤ) × (init_registers num_pages m ≡ ok (record m { registers = regs }))
      × ((k : ℕ) → k < num_total_regs → get_elem? regs k ≡ some (initial num_pages k))
      × IsRegs regs
unfolding init_registers write_register
init_registers_lem num_pages m n =
    let (r0, e, c) = clear_registers-Clears num_total_regs 0 m n refl in
    let stack = pos (num_pages * page_size) -ℤ pos 16 in
    let r1 = set r0 pc_reg (pos 0) in
    let r2 = set r1 next_pc_reg (pos 4) in
    let r3 = set r2 stack_reg stack in
    let size1 = length-set r0 pc_reg (pos 0) ∙ c.all in
    let size2 = length-set r1 next_pc_reg (pos 4) ∙ size1 in
    let size3 = length-set r2 stack_reg stack ∙ size2 in
    let values : (k : ℕ) → k < num_total_regs → get_elem? r3 k ≡ some (initial num_pages k) =
      λ k small. elim (Bool-cases (k == stack_reg)) [
        | inl s ↦
            let is : k ≡ stack_reg = ground arith in
            rw is (get_elem?-set_self r2 stack_reg stack (omega (arith, size2)))
        | inr s ↦ elim (Bool-cases (k == next_pc_reg)) [
          | inl p ↦
              let is : k ≡ next_pc_reg = ground arith in
              rw is (
                get_elem?-set_ne r2 {i = 29} {j = 35} stack (omega arith)
                ∙ get_elem?-set_self r1 next_pc_reg (pos 4) (omega (arith, size1)))
          | inr p ↦
              rw (s, p)
                (get_elem?-set_ne r2 {i = 29} {j = k} stack (ground arith)
                  ∙ (get_elem?-set_ne r1 {i = 35} {j = k} (pos 4) (ground arith)
                      ∙ after_pc r0 c.all c.zeroes k small))
        ]
      ] in
    (
      r3,
      rw e refl,
      values,
      record {
        all = size3;
        target = pos 0;
        pending = values load_reg (omega arith);
        is_register = omega arith;
      },
    )
  where
    after_pc :
        (r0 : List ℤ)
        → length r0 ≡ num_total_regs
        → ((k : ℕ) → 0 ≤ k → k < num_total_regs → get_elem? r0 k ≡ some (pos 0))
        → (k : ℕ) → k < num_total_regs
        → get_elem? (set r0 pc_reg (pos 0)) k ≡ some (pos 0)
    after_pc r0 all zeroes k small = elim (Bool-cases (k == pc_reg)) [
      | inl s ↦
          let is : k ≡ pc_reg = ground arith in
          rw is (get_elem?-set_self r0 pc_reg (pos 0) (omega (arith, all)))
      | inr s ↦
          get_elem?-set_ne r0 {i = 34} {j = k} (pos 0) (ground arith) ∙ zeroes k (omega arith) small
    ]
