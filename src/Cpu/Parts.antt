-- ===== src/Cpu/Parts.antt =====
-- The instructions of machine/mipssim.cc that do more than one thing: LWL, LWR, SWL and SWR, the
-- divisions and multiplications, and the system call.
use nachos_assignment.Cpu.Safe.{
  Safe, goes_on, stops, divides, traps, if-Safe, with_regs, writes_two-Safe, store_cell-Safe,
}
use nachos_assignment.Machine.{Machine, TranslationEntry}
use nachos_assignment.Machine.Translate.{paged}
use nachos_assignment.Machine.Memory.{load_reg, load_value_reg, bad_vaddr_reg}
use nachos_assignment.Cpu.{hi_reg, lo_reg, rem_int, r31, add_int}
use nachos_assignment.Cpu.OpCode.{OpCode, op_div, op_syscall}
use nachos_assignment.Cpu.Mult.{Product}
use nachos_assignment.Cpu.Decode.{Instruction}
use nachos_assignment.Cpu.Effects.{
  done, returned, load_part, store_part, divide, divide_unsigned, product, byte_of, word_of,
  with_register, link_branch, branch,
}
use nachos_assignment.Cpu.Execute.{raise_syscall}
use nachos_assignment.Cpu.Words.{to_int-IsInt, to_unsigned-lt, add_int-IsInt}
use nachos_assignment.Cpu.Bounds.{
  if-IsInt, IsMerge, IsWords, div_int-IsInt, rem_int-IsInt, branch-IsInt,
}
use nachos_assignment.Cpu.Access.{no_read, was_read, user_read}
use nachos_assignment.Cpu.User.{IsUser, IsRegisters, set-IsRegisters}
use nachos_assignment.Cpu.Registers.{delayed_load-IsRegisters}
use native.Mathlib.Nat.{div-le_self, mod-le}
use nachos_assignment.Base.{
  ℕ, ◌/◌, ◌%◌, ◌<◌, ◌≡◌, refl, ◌≢◌, inl, inr, Bool, List, arith, ◌==◌, if◌then◌else◌, set,
  get_elem?-some, ℤ, pos, to_unsigned, IsInt, same_int, Outcome, ok, ◌>>=◌, at,
}

module _ (handler : Machine → Outcome Machine) (j byte : ℕ) (op : OpCode) (memory : List ℕ)
    (regs : List ℤ) (table : List TranslationEntry) (u : IsUser j byte memory regs table)
    (after : ℤ) (int_after : IsInt after) where
  pub load_part-Safe :
      (merge : ℕ → ℤ → ℤ → ℤ) (va : ℤ) (rt : ℕ)
      → IsMerge merge
      → rt < 32
      → Safe handler j byte op (load_part merge (paged memory regs table) va rt after)
  unfolding load_part
  load_part-Safe merge va rt keeps small =
      elim (user_read j byte memory regs table u (to_unsigned (word_of va)) 4 (inr (inr refl))) [
        | no_read e ↦ stops (rw e)
        | was_read table' v u' int e ↦
            let r = u.is_registers in
            let (loading, l) = get_elem?-some regs load_value_reg (omega (arith, r.all)) in
            let (current, c) = get_elem?-some regs rt (omega (arith, r.all)) in
            let old : IsInt (if same_int r.target (pos rt) then loading else current) =
              if-IsInt _ _ _ (r.ints load_value_reg loading l) (r.ints rt current c) in
            goes_on memory regs table' after rt (merge (byte_of va) _ v) u' int_after small
              (keeps (byte_of va) _ v old int) (rw (e, r.pending, l, c) refl)
      ]

  pub store_part-Safe :
      (merge : ℕ → ℤ → ℤ → ℤ) (va source : ℤ)
      → Safe handler j byte op (store_part merge (paged memory regs table) va source after)
  unfolding store_part
  store_part-Safe merge va source =
      elim (user_read j byte memory regs table u (to_unsigned (word_of va)) 4 (inr (inr refl))) [
        | no_read e ↦ stops (rw e)
        | was_read table' v u' int e ↦ rw e (
            store_cell-Safe handler j byte op memory regs table' u' after int_after 4 (word_of va)
              (merge (byte_of va) v source) (inr (inr refl)))
      ]

  pub divide-Safe :
      (a b : ℤ)
      → op ≡ op_div
      → IsInt a
      → Safe handler j byte op (divide (paged memory regs table) a b after)
  unfolding divide
  divide-Safe a b is_div int =
      if-Safe (same_int b (pos 0)) _ _
        (writes_two-Safe handler j byte op memory regs table u after int_after lo_reg hi_reg (pos 0)
          (pos 0) (omega arith) (omega arith) (omega arith) (omega arith))
        (elim (div_int-IsInt a b int) [
          | inl e ↦ divides is_div (rw e)
          | inr (q, e, int') ↦ rw e (
              writes_two-Safe handler j byte op memory regs table u after int_after lo_reg hi_reg q
                (rem_int a b) (omega arith) (omega arith) int' (rem_int-IsInt a b int))
        ])

  pub divide_unsigned-Safe :
      (a b : ℤ) → Safe handler j byte op (divide_unsigned (paged memory regs table) a b after)
  unfolding divide_unsigned
  divide_unsigned-Safe a b =
      if-Safe (to_unsigned b == 0) _ _
        (writes_two-Safe handler j byte op memory regs table u after int_after lo_reg hi_reg (pos 0)
          (pos 0) (omega arith) (omega arith) (omega arith) (omega arith))
        (writes_two-Safe handler j byte op memory regs table u after int_after lo_reg hi_reg _ _
          (omega arith) (omega arith)
          (to_int-IsInt (to_unsigned a / to_unsigned b)
            (omega (arith, to_unsigned-lt a, div-le_self (to_unsigned a) (to_unsigned b))))
          (to_int-IsInt (to_unsigned a % to_unsigned b)
            (omega (arith, to_unsigned-lt a, mod-le (to_unsigned a) (to_unsigned b)))))

  pub product-Safe :
      (p : Product) → IsWords p → Safe handler j byte op (product (paged memory regs table) p after)
  product-Safe p words =
      writes_two-Safe handler j byte op memory regs table u after int_after hi_reg lo_reg _ _
        (omega arith) (omega arith) (to_int-IsInt p.hi words.0) (to_int-IsInt p.lo words.1)

  pub link_branch-Safe :
      (taken : ℤ → Bool) (i : Instruction) (next : ℤ)
      → i.rs < 32
      → Safe handler j byte op (link_branch taken (paged memory regs table) i next after)
  unfolding link_branch
  link_branch-Safe taken i next small =
      let r =
        set-IsRegisters regs r31 _ u.is_registers (add_int-IsInt next (pos 4)) (omega arith) in
      let (a, e) =
        get_elem?-some (set regs r31 (add_int next (pos 4))) i.rs (omega (arith, r.all)) in
      goes_on memory _ table (branch (taken a) next i.extra after) 0 (pos 0)
        (with_regs handler j byte op memory regs table u after int_after _ r)
        (branch-IsInt (taken a) next i.extra after int_after) (omega arith) (omega arith)
        (rw e refl)

  -- JALR, whose register may be the one it jumps to.
  pub link_jump-Safe :
      (i : Instruction) (next : ℤ)
      → i.rs < 32
      → i.rd ≢ load_reg
      → Safe handler j byte op (
          at (set regs i.rd (add_int next (pos 4))) i.rs >>= λ target. ok (
            done
              (with_register (paged memory regs table) i.rd (add_int next (pos 4)))
              target
              0
              (pos 0)))
  link_jump-Safe i next small other =
      let r : IsRegisters (set regs i.rd (add_int next (pos 4))) =
        set-IsRegisters regs i.rd (add_int next (pos 4)) u.is_registers (add_int-IsInt next (pos 4))
          other in
      let (a, e) =
        get_elem?-some (set regs i.rd (add_int next (pos 4))) i.rs (omega (arith, r.all, small)) in
      goes_on memory _ table a 0 (pos 0)
        (with_regs handler j byte op memory regs table u after int_after _ r) (r.ints i.rs a e)
        (omega arith) (omega arith) (rw e refl)

  pub raise_syscall-Safe :
      op ≡ op_syscall
      → Safe handler j byte op
          (raise_syscall handler (paged memory regs table) >>= λ m'. ok (returned m'))
  unfolding raise_syscall
  raise_syscall-Safe is_call =
      let r =
        set-IsRegisters regs bad_vaddr_reg (pos 0) u.is_registers (omega arith) (omega arith) in
      let (regs', e, r', z) = delayed_load-IsRegisters _ 0 (pos 0) r (omega arith) (omega arith) in
      traps memory regs' table
        (with_regs handler j byte op memory regs table u after int_after _ r') is_call (rw e refl)
