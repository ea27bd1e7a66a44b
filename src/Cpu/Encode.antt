-- ===== src/Cpu/Encode.antt =====
-- Instruction words as an assembler lays them out, read back by Instruction::Decode
-- (machine/mipssim.cc).
use nachos_assignment.Cpu.OpCode.{jfmt, OpCode, ifmt, special, bcond, op_table, special_table}
use nachos_assignment.Cpu.Decode.{Instruction, field, extra_of, final_code, decode}
use nachos_assignment.Cpu.Fields.{is_known}
use nachos_assignment.Cpu.Masks.{bit_or-disjoint}
use nachos_assignment.Bitmap.Bits.{bit_and-pow, bit_top}
use nachos_assignment.Base.{
  ℕ, ◌+◌, ◌-◌, ◌*◌, ◌/◌, ◌%◌, ◌^◌, ◌≤◌, ◌<◌, bit_and, bit_or, ◌≡◌, refl, ap, ◌≢◌, inl, inr, true,
  some, arith, ltb, ◌==◌, if◌then◌else◌, ltb→lt, Bool-cases, get_elem?, ℤ, pos, negsuc, ok,
}

-- The word of an operation on registers, which bits 31 to 26 call SPECIAL.
abbrev pub r_word : ℕ → ℕ → ℕ → ℕ → ℕ → ℕ
r_word rs rt rd shamt funct = rs * 2 ^ 21 + rt * 2 ^ 16 + rd * 2 ^ 11 + shamt * 2 ^ 6 + funct

-- The word of an operation with 16 bits of its own.
abbrev pub i_word : ℕ → ℕ → ℕ → ℕ → ℕ
i_word op rs rt imm = op * 2 ^ 26 + rs * 2 ^ 21 + rt * 2 ^ 16 + imm

-- The word of a jump.
abbrev pub j_word : ℕ → ℕ → ℕ
j_word op target = op * 2 ^ 26 + target

-- A number of 16 bits in two's complement.
unfoldable pub signed_half : ℕ → ℤ
signed_half imm = if ltb imm (2 ^ 15) then pos imm else negsuc (2 ^ 16 - 1 - imm)

abbrev pub made : ℕ → OpCode → ℕ → ℕ → ℕ → ℤ → Instruction
made value op rs rt rd extra = record {
  value = value;
  op_code = op;
  rs = rs;
  rt = rt;
  rd = rd;
  extra = extra;
}

final_self : (op : OpCode) (value : ℕ) → is_known op ≡ true → final_code op value ≡ ok op
unfolding final_code
final_self special value h = absurd (ground (arith, h))
final_self bcond value h = absurd (ground (arith, h))
final_self op value h = ground arith

half_sign : (imm : ℕ) → imm < 2 ^ 16 → (bit_and imm (2 ^ 15) == 0) ≡ ltb imm (2 ^ 15)
half_sign imm h = elim (Bool-cases (ltb imm (2 ^ 15))) [
  | inl small ↦
      let low = ltb→lt imm (2 ^ 15) small in
      let top : bit_and imm (2 ^ 15) ≡ 0 =
        omega (arith, low, bit_and-pow imm 15, bit_top 15 imm h) in
      ground (arith, small, top)
  | inr big ↦
      let high : 2 ^ 15 ≤ imm = ground arith in
      let top : bit_and imm (2 ^ 15) ≢ 0 =
        omega (arith, high, bit_and-pow imm 15, bit_top 15 imm h) in
      ground (arith, big, top)
]

-- The sign extension of Decode.
pub extra_of_lem : (value : ℕ) → extra_of ifmt value ≡ signed_half (value % 2 ^ 16)
unfolding extra_of signed_half
extra_of_lem value =
    let imm : ℕ = value % 2 ^ 16 in
    let here : field value 0 16 ≡ imm = omega arith in
    let small : imm < 2 ^ 16 = omega arith in
    let extended : bit_or imm (2 ^ 32 - 2 ^ 16) ≡ imm + (2 ^ 32 - 2 ^ 16) =
      bit_or-disjoint 16 imm (2 ^ 16 - 1) small in
    rw (here, half_sign imm small, extended) (ground (arith, small))

module _ (rs rt : ℕ) (hs : rs < 32) (ht : rt < 32) where
  decode-r_word :
      (rd shamt funct : ℕ) (op : OpCode)
      → rd < 32
      → shamt < 32
      → funct < 64
      → get_elem? special_table funct ≡ some op
      → decode (r_word rs rt rd shamt funct)
        ≡ ok (made (r_word rs rt rd shamt funct) op rs rt rd (pos shamt))
  unfolding decode op_table final_code extra_of
  decode-r_word rd shamt funct op hd hh hf e =
      let w : ℕ = r_word rs rt rd shamt funct in
      let f1 : field w 26 6 ≡ 0 = omega arith in
      let f2 : field w 0 6 ≡ funct = omega arith in
      let f3 : field w 21 5 ≡ rs = omega arith in
      let f4 : field w 16 5 ≡ rt = omega arith in
      let f5 : field w 11 5 ≡ rd = omega arith in
      let f6 : field w 6 5 ≡ shamt = omega arith in rw (f1, f2, e, f3, f4, f5, f6) refl

  decode-i_word :
      (code imm : ℕ) (op : OpCode)
      → code < 64
      → imm < 2 ^ 16
      → get_elem? op_table code ≡ some (record { op_code = op; format = ifmt })
      → is_known op ≡ true
      → decode (i_word code rs rt imm)
        ≡ ok (made (i_word code rs rt imm) op rs rt (imm / 2 ^ 11) (signed_half imm))
  unfolding decode
  decode-i_word code imm op hc hi e k =
      let w : ℕ = i_word code rs rt imm in
      let f1 : field w 26 6 ≡ code = omega arith in
      let f2 : w % 2 ^ 16 ≡ imm = omega arith in
      let f3 : field w 21 5 ≡ rs = omega arith in
      let f4 : field w 16 5 ≡ rt = omega arith in
      let f5 : field w 11 5 ≡ imm / 2 ^ 11 = omega arith in
      rw (f1, e, final_self op w k, f3, f4, f5, extra_of_lem w, f2) refl

decode-j_word :
    (code target : ℕ) (op : OpCode)
    → code < 64
    → target < 2 ^ 26
    → get_elem? op_table code ≡ some (record { op_code = op; format = jfmt })
    → is_known op ≡ true
    → (i : Instruction) × (decode (j_word code target) ≡ ok i)
      × (i.op_code ≡ op)
      × (i.extra ≡ pos target)
unfolding decode extra_of
decode-j_word code target op hc ht e k =
    let w : ℕ = j_word code target in
    let f1 : field w 26 6 ≡ code = omega arith in
    let f2 : field w 0 26 ≡ target = omega arith in
    (
      made w op (field w 21 5) (field w 16 5) (field w 11 5) (pos (field w 0 26)),
      rw (f1, e, final_self op w k) refl,
      refl,
      ap pos f2,
    )

-- Decode gives back the fields of a word that was laid out for a register operation, for an
-- operation with 16 bits of its own, which it reads as a signed number, or for a jump, if the
-- tables have the operation there.
pub decode-words :
    (rs rt rd shamt imm target funct code code_j : ℕ) (op op_i op_jump : OpCode)
    → rs < 32
    → rt < 32
    → rd < 32
    → shamt < 32
    → imm < 2 ^ 16
    → target < 2 ^ 26
    → funct < 64
    → code < 64
    → code_j < 64
    → get_elem? special_table funct ≡ some op
    → get_elem? op_table code ≡ some (record { op_code = op_i; format = ifmt })
    → get_elem? op_table code_j ≡ some (record { op_code = op_jump; format = jfmt })
    → is_known op_i ≡ true
    → is_known op_jump ≡ true
    → (decode (r_word rs rt rd shamt funct)
        ≡ ok (made (r_word rs rt rd shamt funct) op rs rt rd (pos shamt)))
      × (decode (i_word code rs rt imm)
          ≡ ok (made (i_word code rs rt imm) op_i rs rt (imm / 2 ^ 11) (signed_half imm)))
      × ((i : Instruction) × (decode (j_word code_j target) ≡ ok i)
          × (i.op_code ≡ op_jump)
          × (i.extra ≡ pos target))
decode-words rs rt rd shamt imm target funct code code_j op op_i op_jump hs ht hd hh hi hj hf hc hcj
      e ei ej k kj =
    (
      decode-r_word rs rt hs ht rd shamt funct op hd hh hf e,
      decode-i_word rs rt hs ht code imm op_i hc hi ei k,
      decode-j_word code_j target op_jump hcj hj ej kj,
    )
