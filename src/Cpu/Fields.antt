-- ===== src/Cpu/Fields.antt =====
-- Instruction::Decode of machine/mipssim.cc gives register numbers below 32 and an operation that
-- OneInstruction knows.
use nachos_assignment.Cpu.OpCode.{
  OpCode, OpInfo, op_rfe, op_bltz, op_bgez, op_bltzal, op_bgezal, special, bcond, op_table,
  special_table,
}
use nachos_assignment.Cpu.Decode.{Instruction, field, branch_of, final_code, decode, extra_of}
use nachos_assignment.Base.{
  ℕ, ◌<◌, ◌≡◌, refl, inl, inr, Bool, true, false, none, some, arith, ◌==◌, if◌then◌else◌,
  Option-cases, every, every-test, get_elem?, ok,
}

-- Not RFE, which is in no table.
abbrev is_listed : OpCode → Bool
is_listed op_rfe = false
is_listed _ = true

-- The operations that the switch of OneInstruction has a case for.
abbrev pub is_known : OpCode → Bool
is_known op_rfe = false
is_known special = false
is_known bcond = false
is_known _ = true

abbrev listed_at : ℕ → Bool
listed_at k = elim (get_elem? op_table k) [ none ↦ false | some info ↦ is_listed info.op_code ]

abbrev known_at : ℕ → Bool
known_at k = elim (get_elem? special_table k) [ none ↦ false | some op ↦ is_known op ]

all_listed : every listed_at 64 ≡ true
unfolding every op_table
all_listed = refl

all_known : every known_at 64 ≡ true
unfolding every special_table
all_known = refl

listed :
    (k : ℕ)
    → k < 64
    → (info : OpInfo) × (get_elem? op_table k ≡ some info) × (is_listed info.op_code ≡ true)
listed k h = elim (Option-cases (get_elem? op_table k)) [
  | inl off ↦ absurd (ground (arith, off, every-test listed_at 64 k all_listed h))
  | inr (info, e) ↦ (info, e, ground (arith, e, every-test listed_at 64 k all_listed h))
]

known :
    (k : ℕ) → k < 64 → (op : OpCode) × (get_elem? special_table k ≡ some op) × (is_known op ≡ true)
known k h = elim (Option-cases (get_elem? special_table k)) [
  | inl off ↦ absurd (ground (arith, off, every-test known_at 64 k all_known h))
  | inr (op, e) ↦ (op, e, ground (arith, e, every-test known_at 64 k all_known h))
]

if-is_known :
    (c : Bool) (op op' : OpCode)
    → is_known op ≡ true
    → is_known op' ≡ true
    → is_known (if c then op else op') ≡ true
if-is_known true op op' h h' = h
if-is_known false op op' h h' = h'

branch-is_known : (k : ℕ) → is_known (branch_of k) ≡ true
unfolding branch_of
branch-is_known k = if-is_known (k == 0) op_bltz _ refl (
    if-is_known (k == 1) op_bgez _ refl
      (if-is_known (k == 16) op_bltzal _ refl (if-is_known (k == 17) op_bgezal _ refl refl)))

final_known :
    (op : OpCode) (value : ℕ)
    → is_listed op ≡ true
    → (op' : OpCode) × (final_code op value ≡ ok op') × (is_known op' ≡ true)
unfolding final_code
final_known special value h =
    let (op', e, k) = known (field value 0 6) (omega arith) in (op', rw e refl, k)
final_known bcond value h = (branch_of (field value 16 5), refl, branch-is_known (field value 16 5))
final_known op_rfe value h = absurd (ground (arith, h))
final_known op value h = (op, ground arith, h)

-- Decoding never fails: the fields of the registers are below 32 and the operation is one of the
-- switch.
pub record IsDecoded (i : Instruction) : Type 0 where
  pub rs_fits : i.rs < 32
  pub rt_fits : i.rt < 32
  pub rd_fits : i.rd < 32
  pub has_case : is_known i.op_code ≡ true

pub decode-IsDecoded : (value : ℕ) → (i : Instruction) × (decode value ≡ ok i) × IsDecoded i
unfolding decode
decode-IsDecoded value =
    let (info, e, l) = listed (field value 26 6) (omega arith) in
    let (op, f, k) = final_known info.op_code value l in
    (
      record {
        value = value;
        op_code = op;
        rs = field value 21 5;
        rt = field value 16 5;
        rd = field value 11 5;
        extra = extra_of info.format value;
      },
      rw (e, f) refl,
      record { rs_fits = omega arith; rt_fits = omega arith; rd_fits = omega arith; has_case = k },
    )
