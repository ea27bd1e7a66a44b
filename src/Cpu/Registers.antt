-- ===== src/Cpu/Registers.antt =====
-- The end of an instruction (machine/mipssim.cc): the delayed load and the program counters keep the
-- registers as they must be.
use nachos_assignment.Machine.Memory.{delayed_load, load_reg, load_value_reg}
use nachos_assignment.AddrSpace.Run.{pc_reg, next_pc_reg}
use nachos_assignment.Cpu.{advance, prev_pc_reg}
use nachos_assignment.Cpu.User.{IsRegisters, set-IsRegisters, set-elem}
use nachos_assignment.Base.{
  ℕ, ◌<◌, ◌≡◌, refl, sym, ◌∙◌, subst, inl, inr, some, List, arith, get_elem?, set, length-set,
  get_elem?-set_self, get_elem?-set_ne, get_elem?-some, ℤ, pos, to_unsigned, IsInt, ok,
}

-- The registers with another delayed load.
load_reg-IsRegisters :
    (regs : List ℤ) (num : ℕ)
    → IsRegisters regs
    → num < 32
    → IsRegisters (set regs load_reg (pos num))
load_reg-IsRegisters regs num r small = record {
  all = length-set regs load_reg (pos num) ∙ r.all;
  ints = λ k v h. elim (set-elem regs load_reg k (pos num) v h) [
    | inl same ↦ subst IsInt (sym same) (omega arith)
    | inr old ↦ r.ints k v old
  ];
  target = pos num;
  pending = get_elem?-set_self regs load_reg (pos num) (omega (arith, r.all));
  is_register = omega arith;
}

-- DelayedLoad never leaves the registers, and R0 is zero after it.
pub delayed_load-IsRegisters :
    (regs : List ℤ) (next_reg : ℕ) (next_value : ℤ)
    → IsRegisters regs
    → next_reg < 32
    → IsInt next_value
    → (regs' : List ℤ) × (delayed_load regs next_reg next_value ≡ ok regs')
      × IsRegisters regs'
      × (get_elem? regs' 0 ≡ some (pos 0))
unfolding delayed_load
delayed_load-IsRegisters regs next_reg next_value r small int =
    let (value, v) = get_elem?-some regs load_value_reg (omega (arith, r.all)) in
    let (old, o) =
      get_elem?-some regs (to_unsigned r.target) (omega (arith, r.all, r.is_register)) in
    let r1 =
      set-IsRegisters regs (to_unsigned r.target) value r (r.ints _ value v)
        (omega (arith, r.is_register)) in
    let r2 = load_reg-IsRegisters _ next_reg r1 small in
    let r3 = set-IsRegisters _ load_value_reg next_value r2 int (omega arith) in
    (
      _,
      rw (r.pending, v, o) refl,
      set-IsRegisters _ 0 (pos 0) r3 (omega arith) (omega arith),
      get_elem?-set_self _ 0 (pos 0) (omega (arith, r3.all)),
    )

pub advance-IsRegisters :
    (regs : List ℤ) (pc_after : ℤ)
    → IsRegisters regs
    → IsInt pc_after
    → (regs' : List ℤ) × (advance regs pc_after ≡ ok regs')
      × IsRegisters regs'
      × (get_elem? regs' 0 ≡ get_elem? regs 0)
unfolding advance
advance-IsRegisters regs pc_after r int =
    let (pc, p) = get_elem?-some regs pc_reg (omega (arith, r.all)) in
    let (next, n) = get_elem?-some regs next_pc_reg (omega (arith, r.all)) in
    let r1 = set-IsRegisters regs prev_pc_reg pc r (r.ints pc_reg pc p) (omega arith) in
    let r2 = set-IsRegisters _ pc_reg next r1 (r.ints next_pc_reg next n) (omega arith) in
    (
      _,
      rw (p, n) refl,
      set-IsRegisters _ next_pc_reg pc_after r2 int (omega arith),
      get_elem?-set_ne _ {i = next_pc_reg} {j = 0} pc_after (omega arith)
          ∙ (get_elem?-set_ne _ {i = pc_reg} {j = 0} next (omega arith)
              ∙ get_elem?-set_ne regs {i = prev_pc_reg} {j = 0} pc (omega arith)),
    )
