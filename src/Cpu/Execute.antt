-- ===== src/Cpu/Execute.antt =====
-- Machine::OneInstruction and Machine::Run of machine/mipssim.cc, with SIM_FIX defined as the
-- Makefiles do. The kernel's handler of system calls is a parameter.
use nachos_assignment.Cpu.Effects.{
  done, returned, Effect, with_register, writes, raises, set_if, low_half, overflows_add,
  overflows_addi, overflows_sub, branch, jump, extend, load_cell, load_aligned, store_cell,
  lwl_value, lwr_value, swl_value, swr_value, load_part, store_part, divide, divide_unsigned,
  product, link_branch,
}
use nachos_assignment.Machine.{Machine, overflow_exception, illegal_instr_exception}
use nachos_assignment.Machine.Memory.{read_mem, delayed_load, bad_vaddr_reg}
use nachos_assignment.AddrSpace.Run.{pc_reg, next_pc_reg}
use nachos_assignment.Cpu.{
  add_int, sub_int, and_int, or_int, xor_int, not_int, shift_left, shift_right, has_sign, advance,
  hi_reg, lo_reg, r31,
}
use nachos_assignment.Cpu.OpCode.{
  OpCode, op_add, op_addi, op_addiu, op_addu, op_and, op_andi, op_beq, op_bgez, op_bgezal, op_bgtz,
  op_blez, op_bltz, op_bltzal, op_bne, op_div, op_divu, op_j, op_jal, op_jalr, op_jr, op_lb, op_lbu,
  op_lh, op_lhu, op_lui, op_lw, op_lwl, op_lwr, op_mfhi, op_mflo, op_mthi, op_mtlo, op_mult,
  op_multu, op_nor, op_or, op_ori, op_sb, op_sh, op_sll, op_sllv, op_slt, op_slti, op_sltiu,
  op_sltu, op_sra, op_srav, op_srl, op_srlv, op_sub, op_subu, op_sw, op_swl, op_swr, op_xor,
  op_xori, op_syscall, op_unimp, op_res,
}
use nachos_assignment.Cpu.Decode.{Instruction, decode}
use nachos_assignment.Cpu.Mult.{mult}
use nachos_assignment.Base.{
  not, ℕ, zero, suc, bit_and, true, false, ltb, if◌then◌else◌, set, ℤ, pos, ltb_ℤ, to_unsigned,
  same_int, aborted, Outcome, ok, err, ◌>>=◌, at,
}

-- RaiseException(SyscallException, 0)
unfoldable pub raise_syscall : (Machine → Outcome Machine) → Machine → Outcome Machine
raise_syscall handler m = do
  regs ← delayed_load (set m.registers bad_vaddr_reg (pos 0)) 0 (pos 0)
  handler (record m { registers = regs })

-- The switch of OneInstruction, with registers[rs] and registers[rt] as `a` and `b`, with
-- registers[NextPCReg] as `next` and with the `pcAfter` computed before it.
module _ (handler : Machine → Outcome Machine) where
  unfoldable pub execute : OpCode → Instruction → Machine → ℤ → ℤ → ℤ → ℤ → Outcome Effect
  execute op_add i m a b next after =
      if overflows_add a b (add_int a b)
      then raises overflow_exception (pos 0) m
      else writes m i.rd (add_int a b) after
  execute op_addi i m a b next after =
      if overflows_addi a i.extra (add_int a i.extra)
      then raises overflow_exception (pos 0) m
      else writes m i.rt (add_int a i.extra) after
  execute op_addiu i m a b next after = writes m i.rt (add_int a i.extra) after
  execute op_addu i m a b next after = writes m i.rd (add_int a b) after
  execute op_and i m a b next after = writes m i.rd (and_int a b) after
  execute op_andi i m a b next after = writes m i.rt (and_int a (low_half i.extra)) after
  execute op_beq i m a b next after =
      ok (done m (branch (same_int a b) next i.extra after) 0 (pos 0))
  execute op_bgez i m a b next after =
      ok (done m (branch (not (has_sign a)) next i.extra after) 0 (pos 0))
  execute op_bgezal i m a b next after = link_branch (λ t. not (has_sign t)) m i next after
  execute op_bgtz i m a b next after =
      ok (done m (branch (ltb_ℤ (pos 0) a) next i.extra after) 0 (pos 0))
  execute op_blez i m a b next after =
      ok (done m (branch (not (ltb_ℤ (pos 0) a)) next i.extra after) 0 (pos 0))
  execute op_bltz i m a b next after =
      ok (done m (branch (has_sign a) next i.extra after) 0 (pos 0))
  execute op_bltzal i m a b next after = link_branch has_sign m i next after
  execute op_bne i m a b next after =
      ok (done m (branch (not (same_int a b)) next i.extra after) 0 (pos 0))
  execute op_div i m a b next after = divide m a b after
  execute op_divu i m a b next after = divide_unsigned m a b after
  execute op_j i m a b next after = ok (done m (jump after i.extra) 0 (pos 0))
  execute op_jal i m a b next after = writes m r31 (add_int next (pos 4)) (jump after i.extra)
  execute op_jalr i m a b next after = do
    let linked = with_register m i.rd (add_int next (pos 4))
    target ← at linked.registers i.rs
    ok (done linked target 0 (pos 0))
  execute op_jr i m a b next after = ok (done m a 0 (pos 0))
  execute op_lb i m a b next after = load_cell m 1 (extend 8 true) (add_int a i.extra) i.rt after
  execute op_lbu i m a b next after = load_cell m 1 (extend 8 false) (add_int a i.extra) i.rt after
  execute op_lh i m a b next after =
      load_aligned m 2 (extend 16 true) (add_int a i.extra) i.rt after
  execute op_lhu i m a b next after =
      load_aligned m 2 (extend 16 false) (add_int a i.extra) i.rt after
  execute op_lui i m a b next after = writes m i.rt (shift_left i.extra 16) after
  execute op_lw i m a b next after = load_aligned m 4 (λ t. t) (add_int a i.extra) i.rt after
  execute op_lwl i m a b next after = load_part lwl_value m (add_int a i.extra) i.rt after
  execute op_lwr i m a b next after = load_part lwr_value m (add_int a i.extra) i.rt after
  execute op_mfhi i m a b next after = at m.registers hi_reg >>= λ t. writes m i.rd t after
  execute op_mflo i m a b next after = at m.registers lo_reg >>= λ t. writes m i.rd t after
  execute op_mthi i m a b next after = writes m hi_reg a after
  execute op_mtlo i m a b next after = writes m lo_reg a after
  execute op_mult i m a b next after = product m (mult a b true) after
  execute op_multu i m a b next after = product m (mult a b false) after
  execute op_nor i m a b next after = writes m i.rd (not_int (or_int a b)) after
  execute op_or i m a b next after = writes m i.rd (or_int a b) after
  execute op_ori i m a b next after = writes m i.rt (or_int a (low_half i.extra)) after
  execute op_sb i m a b next after = store_cell m 1 (add_int a i.extra) b after
  execute op_sh i m a b next after = store_cell m 2 (add_int a i.extra) b after
  execute op_sll i m a b next after = writes m i.rd (shift_left b (to_unsigned i.extra)) after
  execute op_sllv i m a b next after =
      writes m i.rd (shift_left b (bit_and (to_unsigned a) 31)) after
  execute op_slt i m a b next after = writes m i.rd (set_if (ltb_ℤ a b)) after
  execute op_slti i m a b next after = writes m i.rt (set_if (ltb_ℤ a i.extra)) after
  execute op_sltiu i m a b next after =
      writes m i.rt (set_if (ltb (to_unsigned a) (to_unsigned i.extra))) after
  execute op_sltu i m a b next after =
      writes m i.rd (set_if (ltb (to_unsigned a) (to_unsigned b))) after
  execute op_sra i m a b next after = writes m i.rd (shift_right b (to_unsigned i.extra)) after
  execute op_srav i m a b next after =
      writes m i.rd (shift_right b (bit_and (to_unsigned a) 31)) after
  execute op_srl i m a b next after = writes m i.rd (shift_right b (to_unsigned i.extra)) after
  execute op_srlv i m a b next after =
      writes m i.rd (shift_right b (bit_and (to_unsigned a) 31)) after
  execute op_sub i m a b next after =
      if overflows_sub a b (sub_int a b)
      then raises overflow_exception (pos 0) m
      else writes m i.rd (sub_int a b) after
  execute op_subu i m a b next after = writes m i.rd (sub_int a b) after
  execute op_sw i m a b next after = store_cell m 4 (add_int a i.extra) b after
  execute op_swl i m a b next after = store_part swl_value m (add_int a i.extra) b after
  execute op_swr i m a b next after = store_part swr_value m (add_int a i.extra) b after
  execute op_xor i m a b next after = writes m i.rd (xor_int a b) after
  execute op_xori i m a b next after = writes m i.rt (xor_int a (low_half i.extra)) after
  execute op_syscall i m a b next after = raise_syscall handler m >>= λ m'. ok (returned m')
  execute op_unimp i m a b next after = raises illegal_instr_exception (pos 0) m
  execute op_res i m a b next after = raises illegal_instr_exception (pos 0) m
  execute _ i m a b next after = err aborted

  unfoldable pub finish : Effect → Outcome Machine
  finish (returned m) = ok m
  finish (done m pc_after next_load next_value) = do
    loaded ← delayed_load m.registers next_load next_value
    regs ← advance loaded pc_after
    ok (record m { registers = regs })

  unfoldable pub one_instruction : Machine → Outcome Machine
  one_instruction m = do
    pc ← at m.registers pc_reg
    fetched ← read_mem m (to_unsigned pc) 4
    if fetched.1
        then (do
          i ← decode (to_unsigned fetched.2)
          next ← at fetched.0.registers next_pc_reg
          a ← at fetched.0.registers i.rs
          b ← at fetched.0.registers i.rt
          effect ← execute i.op_code i fetched.0 a b next (add_int next (pos 4))
          finish effect)
        else ok fetched.0

  -- That many rounds of the loop of Run, which has no end of its own.
  unfoldable pub run : ℕ → Machine → Outcome Machine
  run zero m = ok m
  run (suc rounds) m = one_instruction m >>= run rounds
