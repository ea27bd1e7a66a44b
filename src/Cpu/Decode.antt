-- ===== src/Cpu/Decode.antt =====
-- Instruction::Decode of machine/mipssim.cc.
use nachos_assignment.Cpu.OpCode.{
  OpCode, op_bltz, op_bgez, op_bltzal, op_bgezal, op_unimp, special, bcond, Format, ifmt, jfmt,
  rfmt, op_table, special_table,
}
use nachos_assignment.Base.{
  ℕ, ◌-◌, ◌/◌, ◌%◌, ◌^◌, bit_and, bit_or, ◌==◌, if◌then◌else◌, ℤ, pos, to_int, Outcome, ok, ◌>>=◌,
  at,
}

pub record Instruction : Type 0 where
  pub value : ℕ
  pub op_code : OpCode
  pub rs : ℕ
  pub rt : ℕ
  pub rd : ℕ
  pub extra : ℤ

-- `width` bits of `value`, from bit `low` on.
abbrev pub field : ℕ → ℕ → ℕ → ℕ
field value low width = value / 2 ^ low % 2 ^ width

unfoldable pub extra_of : Format → ℕ → ℤ
extra_of ifmt value =
    if bit_and (field value 0 16) (2 ^ 15) == 0
    then pos (field value 0 16)
    else to_int (bit_or (field value 0 16) (2 ^ 32 - 2 ^ 16))
extra_of rfmt value = pos (field value 6 5)
extra_of jfmt value = pos (field value 0 26)

-- The branches that bits 20 to 16 tell apart.
unfoldable pub branch_of : ℕ → OpCode
branch_of i =
    if i == 0
    then op_bltz
    else if i == 1
    then op_bgez
    else if i == 16
    then op_bltzal
    else if i == 17
    then op_bgezal
    else op_unimp

unfoldable pub final_code : OpCode → ℕ → Outcome OpCode
final_code special value = at special_table (field value 0 6)
final_code bcond value = ok (branch_of (field value 16 5))
final_code op value = ok op

unfoldable pub decode : ℕ → Outcome Instruction
decode value = do
  info ← at op_table (field value 26 6)
  op ← final_code info.op_code value
  ok (record {
    value = value;
    op_code = op;
    rs = field value 21 5;
    rt = field value 16 5;
    rd = field value 11 5;
    extra = extra_of info.format value;
  })
