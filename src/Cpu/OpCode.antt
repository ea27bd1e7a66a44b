-- ===== src/Cpu/OpCode.antt =====
-- The operations of the processor and the tables that decode them (machine/mipssim.h).
use nachos_assignment.Base.{List, [], ◌∷◌, map}

-- The values OP_... with SPECIAL and BCOND, which only the first table holds.
pub data OpCode : Type 0 where
  op_add op_addi op_addiu op_addu op_and op_andi : OpCode
  op_beq op_bgez op_bgezal op_bgtz op_blez op_bltz op_bltzal op_bne : OpCode
  op_div op_divu op_j op_jal op_jalr op_jr : OpCode
  op_lb op_lbu op_lh op_lhu op_lui op_lw op_lwl op_lwr : OpCode
  op_mfhi op_mflo op_mthi op_mtlo op_mult op_multu op_nor op_or op_ori op_rfe : OpCode
  op_sb op_sh op_sll op_sllv op_slt op_slti op_sltiu op_sltu op_sra op_srav op_srl op_srlv : OpCode
  op_sub op_subu op_sw op_swl op_swr op_xor op_xori op_syscall op_unimp op_res : OpCode
  special bcond : OpCode

pub data Format : Type 0 where
  ifmt jfmt rfmt : Format

pub record OpInfo : Type 0 where
  pub op_code : OpCode
  pub format : Format

abbrev immediate : OpCode → OpInfo
immediate op = record { op_code = op; format = ifmt }

-- Read by bits 31 to 26 of an instruction.
unfoldable pub op_table : List OpInfo
op_table =
    record { op_code = special; format = rfmt }
    ∷ immediate bcond
    ∷ record { op_code = op_j; format = jfmt }
    ∷ record { op_code = op_jal; format = jfmt }
    ∷ map immediate (
        op_beq ∷ op_bne ∷ op_blez ∷ op_bgtz ∷ op_addi ∷ op_addiu ∷ op_slti ∷ op_sltiu ∷ op_andi
        ∷ op_ori ∷ op_xori ∷ op_lui ∷ op_unimp ∷ op_unimp ∷ op_unimp ∷ op_unimp ∷ op_res ∷ op_res
        ∷ op_res ∷ op_res ∷ op_res ∷ op_res ∷ op_res ∷ op_res ∷ op_res ∷ op_res ∷ op_res ∷ op_res
        ∷ op_lb ∷ op_lh ∷ op_lwl ∷ op_lw ∷ op_lbu ∷ op_lhu ∷ op_lwr ∷ op_res ∷ op_sb ∷ op_sh
        ∷ op_swl ∷ op_sw ∷ op_res ∷ op_res ∷ op_swr ∷ op_res ∷ op_unimp ∷ op_unimp ∷ op_unimp
        ∷ op_unimp ∷ op_res ∷ op_res ∷ op_res ∷ op_res ∷ op_unimp ∷ op_unimp ∷ op_unimp ∷ op_unimp
        ∷ op_res ∷ op_res ∷ op_res ∷ op_res ∷ [])

-- Read by the lowest 6 bits of an instruction that the first table calls SPECIAL.
unfoldable pub special_table : List OpCode
special_table =
    op_sll ∷ op_res ∷ op_srl ∷ op_sra ∷ op_sllv ∷ op_res ∷ op_srlv ∷ op_srav ∷ op_jr ∷ op_jalr
    ∷ op_res ∷ op_res ∷ op_syscall ∷ op_unimp ∷ op_res ∷ op_res ∷ op_mfhi ∷ op_mthi ∷ op_mflo
    ∷ op_mtlo ∷ op_res ∷ op_res ∷ op_res ∷ op_res ∷ op_mult ∷ op_multu ∷ op_div ∷ op_divu ∷ op_res
    ∷ op_res ∷ op_res ∷ op_res ∷ op_add ∷ op_addu ∷ op_sub ∷ op_subu ∷ op_and ∷ op_or ∷ op_xor
    ∷ op_nor ∷ op_res ∷ op_res ∷ op_slt ∷ op_sltu ∷ op_res ∷ op_res ∷ op_res ∷ op_res ∷ op_res
    ∷ op_res ∷ op_res ∷ op_res ∷ op_res ∷ op_res ∷ op_res ∷ op_res ∷ op_res ∷ op_res ∷ op_res
    ∷ op_res ∷ op_res ∷ op_res ∷ op_res ∷ op_res ∷ []
