-- ===== src/Cpu/Tests.antt =====
-- A machine with one instruction in its memory, and other inputs for the theorems on
-- machine/mipssim.cc.
use nachos_assignment.Machine.{
  Machine, TranslationEntry, memory_size, translate, translate_by, in_page_table, use_entry,
}
use nachos_assignment.Machine.Translate.{paged, frame_of}
use nachos_assignment.Machine.Memory.{read_mem, load_bytes, store_bytes, delayed_load}
use nachos_assignment.Machine.Memory.Bytes.{length-store_bytes, get_elem?-store_bytes_ne}
use nachos_assignment.AddrSpace.Run.{next_pc_reg}
use nachos_assignment.Cpu.{add_int, xor_int, has_sign, advance, is_negative}
use nachos_assignment.Cpu.OpCode.{
  op_add, op_addi, op_sub, op_sll, op_srl, op_div, op_j, op_lwr, op_table, special_table,
}
use nachos_assignment.Cpu.Decode.{Instruction, decode, extra_of, final_code}
use nachos_assignment.Cpu.Mult.{mult, mult_loop, add_product, shift_product, halve, negate_product}
use nachos_assignment.Cpu.Mult.Exact.{double_word}
use nachos_assignment.Cpu.Mult.Signed.{signed_product, mult_exact}
use nachos_assignment.Cpu.Effects.{writes, overflows_addi}
use nachos_assignment.Cpu.Execute.{execute, finish, one_instruction, run}
use nachos_assignment.Cpu.Encode.{r_word, i_word, j_word, made, signed_half, decode-words}
use nachos_assignment.Cpu.Held.{Held}
use nachos_assignment.Cpu.Straddle.{Loads, Stores, load-store_unaligned}
use nachos_assignment.Cpu.Shifts.{shift_logical, srl_repeats_sign}
use nachos_assignment.Cpu.Overflow.{checked, traps_exactly}
use nachos_assignment.Cpu.Division.{Divides, op_div-Divides}
use nachos_assignment.Cpu.User.{
  IsUser, IsRegisters, store_bytes-IsBytes, IsBytes, IsForeign, set-IsRegisters,
}
use nachos_assignment.Cpu.Isolation.{Stepped, one_instruction-Stepped, KeepsUser, run-isolates}
use nachos_assignment.Base.{
  ℕ, zero, suc, ◌+◌, ◌-◌, ◌*◌, ◌/◌, ◌%◌, ◌^◌, ◌<◌, ◌≡◌, refl, sym, ◌∙◌, subst, ◌≢◌, ◌⊎◌, inl, inr,
  true, false, some, List, [], ◌∷◌, arith, length, get_elem?, set, replicate, length-replicate, ℤ,
  pos, negsuc, to_unsigned, IsInt, ◌+ℤ◌, ◌-ℤ◌, aborted, Outcome, ok, err,
}

zeros-IsBytes : (n : ℕ) → IsBytes (replicate n 0)
zeros-IsBytes zero k b h = absurd (ground (arith, h))
zeros-IsBytes (suc n) zero b h = let z : b ≡ 0 = ground (arith, h) in omega arith
zeros-IsBytes (suc n) (suc k) b h = zeros-IsBytes n k b h

zeros_at : (n k : ℕ) → k < n → get_elem? {A = ℕ} (replicate n 0) k ≡ some 0
zeros_at zero k h = absurd (omega arith)
zeros_at (suc n) zero h = refl
zeros_at (suc n) (suc k) h = zeros_at n k (omega arith)

replicate-ints : (n k : ℕ) (v : ℤ) → get_elem? (replicate n (pos 0)) k ≡ some v → v ≡ pos 0
replicate-ints zero k v h = absurd (ground (arith, h))
replicate-ints (suc n) zero v h = ground (arith, h)
replicate-ints (suc n) (suc k) v h = replicate-ints n k v h

-- ADDI r1,r0,7 at the start of frame 0.
abbrev one_addi : List ℕ
one_addi = store_bytes (replicate memory_size 0) 0 4 (i_word 8 0 1 7)

abbrev started : List ℤ
started = set (replicate 40 (pos 0)) next_pc_reg (pos 4)

abbrev code_page : TranslationEntry
code_page = record {
  virtual_page = pos 0;
  physical_page = pos 0;
  valid = true;
  read_only = false;
  in_use = false;
  dirty = false;
}

code_page-IsForeign : IsForeign 600 (code_page ∷ [])
code_page-IsForeign zero e h = let same : frame_of e ≡ 0 = ground (arith, h) in omega (arith, same)
code_page-IsForeign (suc k) e h = absurd (ground (arith, h))

started-IsRegisters : IsRegisters started
started-IsRegisters =
    let none_yet : IsRegisters (replicate 40 (pos 0)) = record {
      all = refl;
      ints = λ k v h. subst IsInt (sym (replicate-ints 40 k v h)) (omega arith);
      target = pos 0;
      pending = refl;
      is_register = omega arith;
    } in
    set-IsRegisters (replicate 40 (pos 0)) next_pc_reg (pos 4) none_yet (omega arith) (omega arith)

one_addi-IsUser : IsUser 600 0 one_addi started (code_page ∷ [])
one_addi-IsUser = record {
  full =
      length-store_bytes (replicate memory_size 0) 0 4 (i_word 8 0 1 7)
      ∙ length-replicate {A = ℕ} memory_size 0;
  bytes =
      store_bytes-IsBytes (replicate memory_size 0) 0 4 (i_word 8 0 1 7)
        (zeros-IsBytes memory_size);
  untouched =
      get_elem?-store_bytes_ne (replicate memory_size 0) 0 4 (i_word 8 0 1 7) 600
        (inr (omega arith))
      ∙ zeros_at memory_size 600 (omega arith);
  is_registers = started-IsRegisters;
  foreign = code_page-IsForeign;
}

-- A kernel that refuses every system call.
abbrev no_calls : Machine → Outcome Machine
no_calls m = err aborted

no_calls-keep : KeepsUser no_calls 600 0
no_calls-keep memory regs table m u h = absurd (ground (arith, h))

one_instruction-Stepped_example :
    Stepped no_calls 600 0
      (paged one_addi started (code_page ∷ []))
      (one_instruction no_calls (paged one_addi started (code_page ∷ [])))
one_instruction-Stepped_example =
    one_instruction-Stepped no_calls 600 0 one_addi started (code_page ∷ []) one_addi-IsUser

-- The machine after the instruction.
abbrev after_addi : Machine
after_addi =
    paged one_addi (set (set (set (set started 1 (pos 7)) 36 (pos 0)) 34 (pos 4)) 35 (pos 8))
      (record code_page { in_use = true } ∷ [])

ran : run no_calls 1 (paged one_addi started (code_page ∷ [])) ≡ ok after_addi
unfolding run one_instruction read_mem translate translate_by in_page_table use_entry load_bytes
    store_bytes decode op_table final_code extra_of execute overflows_addi add_int xor_int has_sign
    finish delayed_load advance
ran = refl

run-isolates_example : get_elem? after_addi.main_memory 600 ≡ some 0
run-isolates_example =
    run-isolates no_calls 600 0 1 one_addi started (code_page ∷ []) after_addi no_calls-keep
      one_addi-IsUser ran

-- -3 and 5.
mult_exact_example :
    (double_word (mult (negsuc 2) (pos 5) false) ≡ to_unsigned (negsuc 2) * to_unsigned (pos 5))
    × (double_word (mult (negsuc 2) (pos 5) true) ≡ signed_product (negsuc 2) (pos 5))
mult_exact_example = mult_exact (negsuc 2) (pos 5) (omega arith) (omega arith)

-- MULT by the shifts and additions of the code: 2^64 - 15.
minus_fifteen : (mult (negsuc 2) (pos 5) true).lo ≡ 2 ^ 32 - 15
unfolding mult mult_loop add_product shift_product halve negate_product
minus_fifteen = refl

-- ADDI r1,r0,-1, of which the registers of ADD and SUB are the same.
abbrev addi : Instruction
addi = made (i_word 8 0 1 65535) op_addi 0 1 31 (negsuc 0)

abbrev largest : ℤ
largest = pos (2 ^ 31 - 1)

traps_exactly_example :
    (execute no_calls op_add addi after_addi largest (pos 1) (pos 8) (pos 12)
      ≡ checked after_addi 31 (largest +ℤ pos 1) (pos 12))
    × (execute no_calls op_addi addi after_addi largest (pos 1) (pos 8) (pos 12)
        ≡ checked after_addi 1 (largest +ℤ negsuc 0) (pos 12))
    × (execute no_calls op_sub addi after_addi largest (pos 1) (pos 8) (pos 12)
        ≡ checked after_addi 31 (largest -ℤ pos 1) (pos 12))
traps_exactly_example =
    traps_exactly no_calls addi after_addi largest (pos 1) (pos 8) (pos 12) (omega arith)
      (omega arith) (omega arith)

decode-words_example :
    (decode (r_word 1 2 3 4 0) ≡ ok (made (r_word 1 2 3 4 0) op_sll 1 2 3 (pos 4)))
    × (decode (i_word 8 1 2 65535)
        ≡ ok (made (i_word 8 1 2 65535) op_addi 1 2 (65535 / 2 ^ 11) (signed_half 65535)))
    × ((i : Instruction) × (decode (j_word 2 100) ≡ ok i)
        × (i.op_code ≡ op_j)
        × (i.extra ≡ pos 100))
unfolding op_table special_table
decode-words_example =
    decode-words 1 2 3 4 65535 100 0 8 2 op_sll op_addi op_j (omega arith) (omega arith)
      (omega arith) (omega arith) (omega arith) (omega arith) (omega arith) (omega arith)
      (omega arith) refl refl refl refl refl

-- 1000 in the word at the address 4, and -5 in the next one.
abbrev two_words : List ℕ
two_words =
    store_bytes (store_bytes (replicate memory_size 0) 4 4 (to_unsigned (pos 1000))) 8 4
      (to_unsigned (negsuc 4))

two_words-full : length two_words ≡ memory_size
two_words-full =
    length-store_bytes (store_bytes (replicate memory_size 0) 4 4 (to_unsigned (pos 1000))) 8 4
      (to_unsigned (negsuc 4))
    ∙ (length-store_bytes (replicate memory_size 0) 4 4 (to_unsigned (pos 1000))
        ∙ length-replicate {A = ℕ} memory_size 0)

first-Held : Held two_words (code_page ∷ []) (4 * 1) 4 (pos 1000)
unfolding load_bytes store_bytes
first-Held = record {
  e = code_page;
  is_mapped = record {
    here = refl;
    is_valid = refl;
    permitted = refl;
    in_memory = omega arith;
    fits = omega arith;
  };
  is_place = refl;
  holds = refl;
  is_int = omega arith;
}

second-Held : Held two_words (code_page ∷ []) (4 * (1 + 1)) 8 (negsuc 4)
unfolding load_bytes store_bytes
second-Held = record {
  e = code_page;
  is_mapped = record {
    here = refl;
    is_valid = refl;
    permitted = refl;
    in_memory = omega arith;
    fits = omega arith;
  };
  is_place = refl;
  holds = refl;
  is_int = omega arith;
}

-- The operands r5 and `extra`(r0).
abbrev at_extra : ℤ → Instruction
at_extra extra = record { value = 0; op_code = op_lwr; rs = 0; rt = 5; rd = 0; extra = extra }

abbrev Unaligned : ℤ → Machine → Type 0
Unaligned value m =
    Loads no_calls (at_extra (pos 5)) (at_extra (pos 8)) (pos 0) (pos 0) (pos 0) (pos 4) (pos 8)
      (pos 12) m value

load-store_unaligned_example :
    (value : ℤ) × Unaligned value (paged two_words started (code_page ∷ []))
    × (to_unsigned value
        ≡ to_unsigned (pos 1000) / 256 ^ 1 + to_unsigned (negsuc 4) % 256 ^ 1 * 256 ^ (4 - 1))
    × (m : Machine) × Stores no_calls
        (at_extra (pos 5))
        (at_extra (pos 8))
        (pos 0)
        (pos 0)
        (negsuc 77)
        (pos 4)
        (pos 8)
        (pos 12)
        (paged two_words started (code_page ∷ []))
        m
    × Unaligned (negsuc 77) m
unfolding add_int
load-store_unaligned_example =
    load-store_unaligned no_calls (at_extra (pos 5)) (at_extra (pos 8)) (pos 0) (pos 0) (pos 0)
      (pos 4) (pos 8) (pos 12) 1 1 4 8 (omega arith) (omega arith) (omega arith) refl (omega arith)
      (omega arith) refl refl two_words started (code_page ∷ []) (pos 1000) (negsuc 4) (negsuc 77)
      two_words-full (inl (omega arith)) started-IsRegisters (omega arith) first-Held second-Held

-- SRL r3,r2,4 of -16.
abbrev srl : Instruction
srl = made (r_word 0 2 3 4 2) op_srl 0 2 3 (pos 4)

srl_repeats_sign_example :
    (result : ℤ) × (execute no_calls op_srl srl after_addi (pos 0) (negsuc 15) (pos 8) (pos 12)
      ≡ writes after_addi 3 result (pos 12))
    × (((is_negative (negsuc 15) ≡ false)
          × (result ≡ shift_logical (negsuc 15) (to_unsigned (pos 4))))
        ⊎ ((is_negative (negsuc 15) ≡ true)
            × ((◌≡◌ {A = ℕ} (to_unsigned (pos 4)) 0)
                ⊎ (result ≢ shift_logical (negsuc 15) (to_unsigned (pos 4))))))
srl_repeats_sign_example =
    srl_repeats_sign no_calls srl after_addi (pos 0) (negsuc 15) (pos 8) (pos 12) (omega arith)

op_div-Divides_example :
    Divides after_addi
      (negsuc (2 ^ 31 - 1))
      (negsuc 0)
      (pos 12)
      (execute no_calls op_div addi after_addi (negsuc (2 ^ 31 - 1)) (negsuc 0) (pos 8) (pos 12))
op_div-Divides_example =
    op_div-Divides no_calls addi after_addi (negsuc (2 ^ 31 - 1)) (negsuc 0) (pos 8) (pos 12)
      (omega arith)
