-- ===== src/Cpu/Safety.antt =====
-- The switch of OneInstruction (machine/mipssim.cc), case by case: every instruction that can be
-- decoded keeps the program to its own memory.
use nachos_assignment.Machine.{
  Machine, TranslationEntry, overflow_exception, illegal_instr_exception,
}
use nachos_assignment.Machine.Translate.{paged}
use nachos_assignment.Machine.Memory.{load_reg}
use nachos_assignment.Cpu.{
  add_int, sub_int, and_int, or_int, xor_int, not_int, shift_left, shift_right, has_sign, hi_reg,
  lo_reg, r31,
}
use nachos_assignment.Cpu.OpCode.{
  OpCode, op_add, op_addi, op_addiu, op_addu, op_and, op_andi, op_beq, op_bgez, op_bgezal, op_bgtz,
  op_blez, op_bltz, op_bltzal, op_bne, op_div, op_divu, op_j, op_jal, op_jalr, op_jr, op_lb, op_lbu,
  op_lh, op_lhu, op_lui, op_lw, op_lwl, op_lwr, op_mfhi, op_mflo, op_mthi, op_mtlo, op_mult,
  op_multu, op_nor, op_or, op_ori, op_sb, op_sh, op_sll, op_sllv, op_slt, op_slti, op_sltiu,
  op_sltu, op_sra, op_srav, op_srl, op_srlv, op_sub, op_subu, op_sw, op_swl, op_swr, op_xor,
  op_xori, op_syscall, op_unimp, op_res,
}
use nachos_assignment.Cpu.Decode.{Instruction}
use nachos_assignment.Cpu.Fields.{IsDecoded, is_known}
use nachos_assignment.Cpu.Mult.{mult}
use nachos_assignment.Cpu.Effects.{
  extend, lwl_value, lwr_value, swl_value, swr_value, overflows_add, overflows_addi, overflows_sub,
  set_if, low_half, branch, jump,
}
use nachos_assignment.Cpu.Execute.{execute}
use nachos_assignment.Cpu.Words.{
  add_int-IsInt, sub_int-IsInt, and_int-IsInt, or_int-IsInt, xor_int-IsInt, not_int-IsInt,
  shift_left-IsInt, shift_right-IsInt,
}
use nachos_assignment.Cpu.Bounds.{
  set_if-IsInt, branch-IsInt, jump-IsInt, extend-IsInt, lwl_value-IsMerge, lwr_value-IsMerge,
  mult-IsWords,
}
use nachos_assignment.Cpu.User.{IsUser}
use nachos_assignment.Cpu.Safe.{
  Safe, if-Safe, stays-Safe, writes-Safe, raises-Safe, load_cell-Safe, load_aligned-Safe,
  store_cell-Safe,
}
use nachos_assignment.Cpu.Parts.{
  load_part-Safe, store_part-Safe, divide-Safe, divide_unsigned-Safe, product-Safe,
  link_branch-Safe, link_jump-Safe, raise_syscall-Safe,
}
use nachos_assignment.Base.{
  not, ℕ, bit_and, ◌≡◌, refl, ◌≢◌, inl, inr, true, false, List, arith, ltb, get_elem?-some, ℤ, pos,
  ltb_ℤ, to_unsigned, IsInt, same_int, Outcome,
}

module _ (handler : Machine → Outcome Machine) (j byte : ℕ) (memory : List ℕ) (regs : List ℤ)
    (table : List TranslationEntry) (u : IsUser j byte memory regs table) (i : Instruction)
    (d : IsDecoded i) (a b next after : ℤ) (int_a : IsInt a) (int_b : IsInt b)
    (int_after : IsInt after) where
  rd_other : i.rd ≢ load_reg
  rd_other = omega (arith, d.rd_fits)

  rt_other : i.rt ≢ load_reg
  rt_other = omega (arith, d.rt_fits)

  pub execute-Safe :
      (op : OpCode)
      → is_known op ≡ true
      → Safe handler j byte op (execute handler op i (paged memory regs table) a b next after)
  unfolding execute
  execute-Safe op_add k =
      if-Safe (overflows_add a b (add_int a b)) _ _
        (raises-Safe handler j byte op_add memory regs table u after int_after overflow_exception
          (pos 0) tt)
        (writes-Safe handler j byte op_add memory regs table u after int_after i.rd (add_int a b)
          rd_other (add_int-IsInt a b))
  execute-Safe op_addi k =
      if-Safe (overflows_addi a i.extra (add_int a i.extra)) _ _
        (raises-Safe handler j byte op_addi memory regs table u after int_after overflow_exception
          (pos 0) tt)
        (writes-Safe handler j byte op_addi memory regs table u after int_after i.rt
          (add_int a i.extra) rt_other (add_int-IsInt a i.extra))
  execute-Safe op_addiu k =
      writes-Safe handler j byte op_addiu memory regs table u after int_after i.rt
        (add_int a i.extra) rt_other (add_int-IsInt a i.extra)
  execute-Safe op_addu k =
      writes-Safe handler j byte op_addu memory regs table u after int_after i.rd (add_int a b)
        rd_other (add_int-IsInt a b)
  execute-Safe op_and k =
      writes-Safe handler j byte op_and memory regs table u after int_after i.rd (and_int a b)
        rd_other (and_int-IsInt a b)
  execute-Safe op_andi k =
      writes-Safe handler j byte op_andi memory regs table u after int_after i.rt
        (and_int a (low_half i.extra)) rt_other (and_int-IsInt a _)
  execute-Safe op_beq k =
      stays-Safe handler j byte op_beq memory regs table u
        (branch (same_int a b) next i.extra after)
        (branch-IsInt (same_int a b) next i.extra after int_after)
  execute-Safe op_bgez k =
      stays-Safe handler j byte op_bgez memory regs table u
        (branch (not (has_sign a)) next i.extra after)
        (branch-IsInt (not (has_sign a)) next i.extra after int_after)
  execute-Safe op_bgezal k =
      link_branch-Safe handler j byte op_bgezal memory regs table u after int_after
        (λ t. not (has_sign t)) i next d.rs_fits
  execute-Safe op_bgtz k =
      stays-Safe handler j byte op_bgtz memory regs table u
        (branch (ltb_ℤ (pos 0) a) next i.extra after)
        (branch-IsInt (ltb_ℤ (pos 0) a) next i.extra after int_after)
  execute-Safe op_blez k =
      stays-Safe handler j byte op_blez memory regs table u
        (branch (not (ltb_ℤ (pos 0) a)) next i.extra after)
        (branch-IsInt (not (ltb_ℤ (pos 0) a)) next i.extra after int_after)
  execute-Safe op_bltz k =
      stays-Safe handler j byte op_bltz memory regs table u (branch (has_sign a) next i.extra after)
        (branch-IsInt (has_sign a) next i.extra after int_after)
  execute-Safe op_bltzal k =
      link_branch-Safe handler j byte op_bltzal memory regs table u after int_after has_sign i next
        d.rs_fits
  execute-Safe op_bne k =
      stays-Safe handler j byte op_bne memory regs table u
        (branch (not (same_int a b)) next i.extra after)
        (branch-IsInt (not (same_int a b)) next i.extra after int_after)
  execute-Safe op_div k =
      divide-Safe handler j byte op_div memory regs table u after int_after a b refl int_a
  execute-Safe op_divu k =
      divide_unsigned-Safe handler j byte op_divu memory regs table u after int_after a b
  execute-Safe op_j k =
      stays-Safe handler j byte op_j memory regs table u (jump after i.extra)
        (jump-IsInt after i.extra)
  execute-Safe op_jal k =
      writes-Safe handler j byte op_jal memory regs table u (jump after i.extra)
        (jump-IsInt after i.extra) r31 (add_int next (pos 4)) (omega arith)
        (add_int-IsInt next (pos 4))
  execute-Safe op_jalr k =
      link_jump-Safe handler j byte op_jalr memory regs table u after int_after i next d.rs_fits
        rd_other
  execute-Safe op_jr k = stays-Safe handler j byte op_jr memory regs table u (a) (int_a)
  execute-Safe op_lb k =
      load_cell-Safe handler j byte op_lb memory regs table u after int_after 1 (extend 8 true)
        (add_int a i.extra) i.rt (inl refl) (λ v h. extend-IsInt 8 true v) d.rt_fits
  execute-Safe op_lbu k =
      load_cell-Safe handler j byte op_lbu memory regs table u after int_after 1 (extend 8 false)
        (add_int a i.extra) i.rt (inl refl) (λ v h. extend-IsInt 8 false v) d.rt_fits
  execute-Safe op_lh k =
      load_aligned-Safe handler j byte op_lh memory regs table u after int_after 2 (extend 16 true)
        (add_int a i.extra) i.rt (inr (inl refl)) (λ v h. extend-IsInt 16 true v) d.rt_fits
  execute-Safe op_lhu k =
      load_aligned-Safe handler j byte op_lhu memory regs table u after int_after 2
        (extend 16 false) (add_int a i.extra) i.rt (inr (inl refl)) (λ v h. extend-IsInt 16 false v)
        d.rt_fits
  execute-Safe op_lui k =
      writes-Safe handler j byte op_lui memory regs table u after int_after i.rt
        (shift_left i.extra 16) rt_other (shift_left-IsInt i.extra 16)
  execute-Safe op_lw k =
      load_aligned-Safe handler j byte op_lw memory regs table u after int_after 4 (λ t. t)
        (add_int a i.extra) i.rt (inr (inr refl)) (λ v h. h) d.rt_fits
  execute-Safe op_lwl k =
      load_part-Safe handler j byte op_lwl memory regs table u after int_after lwl_value
        (add_int a i.extra) i.rt lwl_value-IsMerge d.rt_fits
  execute-Safe op_lwr k =
      load_part-Safe handler j byte op_lwr memory regs table u after int_after lwr_value
        (add_int a i.extra) i.rt lwr_value-IsMerge d.rt_fits
  execute-Safe op_mfhi k =
      let (t, e) = get_elem?-some regs hi_reg (omega (arith, u.is_registers.all)) in
      rw e (
        writes-Safe handler j byte op_mfhi memory regs table u after int_after i.rd (t) rd_other
          (u.is_registers.ints hi_reg t e))
  execute-Safe op_mflo k =
      let (t, e) = get_elem?-some regs lo_reg (omega (arith, u.is_registers.all)) in
      rw e (
        writes-Safe handler j byte op_mflo memory regs table u after int_after i.rd (t) rd_other
          (u.is_registers.ints lo_reg t e))
  execute-Safe op_mthi k =
      writes-Safe handler j byte op_mthi memory regs table u after int_after hi_reg (a)
        (omega arith) (int_a)
  execute-Safe op_mtlo k =
      writes-Safe handler j byte op_mtlo memory regs table u after int_after lo_reg (a)
        (omega arith) (int_a)
  execute-Safe op_mult k =
      product-Safe handler j byte op_mult memory regs table u after int_after (mult a b true)
        (mult-IsWords a b true)
  execute-Safe op_multu k =
      product-Safe handler j byte op_multu memory regs table u after int_after (mult a b false)
        (mult-IsWords a b false)
  execute-Safe op_nor k =
      writes-Safe handler j byte op_nor memory regs table u after int_after i.rd
        (not_int (or_int a b)) rd_other (not_int-IsInt _)
  execute-Safe op_or k =
      writes-Safe handler j byte op_or memory regs table u after int_after i.rd (or_int a b)
        rd_other (or_int-IsInt a b)
  execute-Safe op_ori k =
      writes-Safe handler j byte op_ori memory regs table u after int_after i.rt
        (or_int a (low_half i.extra)) rt_other (or_int-IsInt a _)
  execute-Safe op_sb k =
      store_cell-Safe handler j byte op_sb memory regs table u after int_after 1 (add_int a i.extra)
        b (inl refl)
  execute-Safe op_sh k =
      store_cell-Safe handler j byte op_sh memory regs table u after int_after 2 (add_int a i.extra)
        b (inr (inl refl))
  execute-Safe op_sll k =
      writes-Safe handler j byte op_sll memory regs table u after int_after i.rd
        (shift_left b (to_unsigned i.extra)) rd_other (shift_left-IsInt b _)
  execute-Safe op_sllv k =
      writes-Safe handler j byte op_sllv memory regs table u after int_after i.rd
        (shift_left b (bit_and (to_unsigned a) 31)) rd_other (shift_left-IsInt b _)
  execute-Safe op_slt k =
      writes-Safe handler j byte op_slt memory regs table u after int_after i.rd
        (set_if (ltb_ℤ a b)) rd_other (set_if-IsInt (ltb_ℤ a b))
  execute-Safe op_slti k =
      writes-Safe handler j byte op_slti memory regs table u after int_after i.rt
        (set_if (ltb_ℤ a i.extra)) rt_other (set_if-IsInt (ltb_ℤ a i.extra))
  execute-Safe op_sltiu k =
      writes-Safe handler j byte op_sltiu memory regs table u after int_after i.rt
        (set_if (ltb (to_unsigned a) (to_unsigned i.extra))) rt_other
        (set_if-IsInt (ltb (to_unsigned a) (to_unsigned i.extra)))
  execute-Safe op_sltu k =
      writes-Safe handler j byte op_sltu memory regs table u after int_after i.rd
        (set_if (ltb (to_unsigned a) (to_unsigned b))) rd_other
        (set_if-IsInt (ltb (to_unsigned a) (to_unsigned b)))
  execute-Safe op_sra k =
      writes-Safe handler j byte op_sra memory regs table u after int_after i.rd
        (shift_right b (to_unsigned i.extra)) rd_other (shift_right-IsInt b _ int_b)
  execute-Safe op_srav k =
      writes-Safe handler j byte op_srav memory regs table u after int_after i.rd
        (shift_right b (bit_and (to_unsigned a) 31)) rd_other (shift_right-IsInt b _ int_b)
  execute-Safe op_srl k =
      writes-Safe handler j byte op_srl memory regs table u after int_after i.rd
        (shift_right b (to_unsigned i.extra)) rd_other (shift_right-IsInt b _ int_b)
  execute-Safe op_srlv k =
      writes-Safe handler j byte op_srlv memory regs table u after int_after i.rd
        (shift_right b (bit_and (to_unsigned a) 31)) rd_other (shift_right-IsInt b _ int_b)
  execute-Safe op_sub k =
      if-Safe (overflows_sub a b (sub_int a b)) _ _
        (raises-Safe handler j byte op_sub memory regs table u after int_after overflow_exception
          (pos 0) tt)
        (writes-Safe handler j byte op_sub memory regs table u after int_after i.rd (sub_int a b)
          rd_other (sub_int-IsInt a b))
  execute-Safe op_subu k =
      writes-Safe handler j byte op_subu memory regs table u after int_after i.rd (sub_int a b)
        rd_other (sub_int-IsInt a b)
  execute-Safe op_sw k =
      store_cell-Safe handler j byte op_sw memory regs table u after int_after 4 (add_int a i.extra)
        b (inr (inr refl))
  execute-Safe op_swl k =
      store_part-Safe handler j byte op_swl memory regs table u after int_after swl_value
        (add_int a i.extra) b
  execute-Safe op_swr k =
      store_part-Safe handler j byte op_swr memory regs table u after int_after swr_value
        (add_int a i.extra) b
  execute-Safe op_xor k =
      writes-Safe handler j byte op_xor memory regs table u after int_after i.rd (xor_int a b)
        rd_other (xor_int-IsInt a b)
  execute-Safe op_xori k =
      writes-Safe handler j byte op_xori memory regs table u after int_after i.rt
        (xor_int a (low_half i.extra)) rt_other (xor_int-IsInt a _)
  execute-Safe op_syscall k =
      raise_syscall-Safe handler j byte op_syscall memory regs table u after int_after refl
  execute-Safe op_unimp k =
      raises-Safe handler j byte op_unimp memory regs table u after int_after
        illegal_instr_exception (pos 0) tt
  execute-Safe op_res k =
      raises-Safe handler j byte op_res memory regs table u after int_after illegal_instr_exception
        (pos 0) tt
  execute-Safe _ k = absurd (ground (arith, k))
