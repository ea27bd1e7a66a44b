-- ===== src/Cpu/Ending.antt =====
-- The end of an instruction (machine/mipssim.cc) that loads a register: what is pending after it.
use nachos_assignment.Machine.{Machine, TranslationEntry}
use nachos_assignment.Machine.Translate.{paged}
use nachos_assignment.Machine.Memory.{load_reg, load_value_reg, delayed_load}
use nachos_assignment.AddrSpace.Run.{pc_reg, next_pc_reg}
use nachos_assignment.Cpu.{advance, prev_pc_reg}
use nachos_assignment.Cpu.Effects.{done}
use nachos_assignment.Cpu.Execute.{finish}
use nachos_assignment.Cpu.User.{IsRegisters}
use nachos_assignment.Cpu.Registers.{delayed_load-IsRegisters, advance-IsRegisters}
use nachos_assignment.Base.{
  ℕ, ◌<◌, ◌≡◌, refl, sym, ap, ◌∙◌, some, List, arith, length, get_elem?, set, length-set,
  get_elem?-set_self, get_elem?-set_ne, get_elem?-some, ℤ, pos, to_unsigned, IsInt, Outcome, ok,
}

-- What is pending after DelayedLoad, and that the program counters do not touch it.
delayed_load-pending :
    (regs regs' : List ℤ) (num : ℕ) (value : ℤ)
    → IsRegisters regs
    → delayed_load regs num value ≡ ok regs'
    → (get_elem? regs' load_reg ≡ some (pos num)) × (get_elem? regs' load_value_reg ≡ some value)
unfolding delayed_load
delayed_load-pending regs regs' num value r e =
    let (old, o) = get_elem?-some regs load_value_reg (omega (arith, r.all)) in
    let (t, et) =
      get_elem?-some regs (to_unsigned r.target) (omega (arith, r.all, r.is_register)) in
    let regs1 = set regs (to_unsigned r.target) old in
    let regs2 = set regs1 load_reg (pos num) in
    let full1 : length regs1 ≡ 40 = length-set regs (to_unsigned r.target) old ∙ r.all in
    let full2 : length regs2 ≡ 40 = length-set regs1 load_reg (pos num) ∙ full1 in
    let done_so : delayed_load regs num value
        ≡ ok (set (set regs2 load_value_reg value) 0 (pos 0)) =
      rw (r.pending, o, et) refl in
    let same : set (set regs2 load_value_reg value) 0 (pos 0) ≡ regs' =
      ground (arith, sym done_so ∙ e) in
    (
      ap (λ l. get_elem? l load_reg) (sym same)
          ∙ (get_elem?-set_ne (set regs2 load_value_reg value) {i = 0} {j = load_reg} (pos 0)
                (omega arith)
              ∙ (get_elem?-set_ne regs2 {i = load_value_reg} {j = load_reg} value (omega arith)
                  ∙ get_elem?-set_self regs1 load_reg (pos num) (omega (arith, full1)))),
      ap (λ l. get_elem? l load_value_reg) (sym same)
          ∙ (get_elem?-set_ne (set regs2 load_value_reg value) {i = 0} {j = load_value_reg} (pos 0)
                (omega arith)
              ∙ get_elem?-set_self regs2 load_value_reg value (omega (arith, full2))),
    )

advance-keeps :
    (regs regs' : List ℤ) (after : ℤ) (k : ℕ)
    → IsRegisters regs
    → 36 < k
    → advance regs after ≡ ok regs'
    → get_elem? regs' k ≡ get_elem? regs k
unfolding advance
advance-keeps regs regs' after k r big e =
    let (pc, p) = get_elem?-some regs pc_reg (omega (arith, r.all)) in
    let (next, n) = get_elem?-some regs next_pc_reg (omega (arith, r.all)) in
    let regs1 = set regs prev_pc_reg pc in
    let done_so : advance regs after ≡ ok (set (set regs1 pc_reg next) next_pc_reg after) =
      rw (p, n) refl in
    let same : set (set regs1 pc_reg next) next_pc_reg after ≡ regs' =
      ground (arith, sym done_so ∙ e) in
    ap (λ l. get_elem? l k) (sym same)
    ∙ (get_elem?-set_ne (set regs1 pc_reg next) {i = next_pc_reg} {j = k} after (omega arith)
        ∙ (get_elem?-set_ne regs1 {i = pc_reg} {j = k} next (omega arith)
            ∙ get_elem?-set_ne regs {i = prev_pc_reg} {j = k} pc (omega arith)))

-- The registers after an instruction that loads `value` into the register `num`.
pub record Ended (handler : Machine → Outcome Machine) (memory : List ℕ) (regs : List ℤ)
    (table : List TranslationEntry) (after : ℤ) (num : ℕ) (value : ℤ) : Type 0 where
  pub left : List ℤ
  pub ends :
      finish handler (done (paged memory regs table) after num value) ≡ ok (paged memory left table)
  pub good : IsRegisters left
  pub loads : get_elem? left load_reg ≡ some (pos num)
  pub pends : get_elem? left load_value_reg ≡ some value

pub finish-Ended :
    (handler : Machine → Outcome Machine) (memory : List ℕ) (regs : List ℤ)
    (table : List TranslationEntry) (after : ℤ) (num : ℕ) (value : ℤ)
    → IsRegisters regs
    → IsInt after
    → num < 32
    → IsInt value
    → Ended handler memory regs table after num value
unfolding finish
finish-Ended handler memory regs table after num value r int_after small int =
    let (regs1, e1, r1, z1) = delayed_load-IsRegisters regs num value r small int in
    let (regs2, e2, r2, z2) = advance-IsRegisters regs1 after r1 int_after in
    let (l, p) = delayed_load-pending regs regs1 num value r e1 in
    record {
      left = regs2;
      ends = rw (e1, e2) refl;
      good = r2;
      loads = advance-keeps regs1 regs2 after load_reg r1 (omega arith) e2 ∙ l;
      pends = advance-keeps regs1 regs2 after load_value_reg r1 (omega arith) e2 ∙ p;
    }
