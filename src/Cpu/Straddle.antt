-- ===== src/Cpu/Straddle.antt =====
-- LWR and LWL, SWR and SWL of machine/mipssim.cc as instructions on the memory of a user program: a
-- word that lies across two words of the memory.
use nachos_assignment.Cpu.PartWord.{part_loads, part_stores, again}
use nachos_assignment.Cpu.Ending.{finish-Ended}
use nachos_assignment.Cpu.Effects.{lwl_value, lwr_value, swl_value, swr_value}
use nachos_assignment.Machine.Memory.Bytes.{length-store_bytes}
use nachos_assignment.Machine.{Machine, TranslationEntry, memory_size}
use nachos_assignment.Machine.Translate.{paged}
use nachos_assignment.Machine.Memory.{load_value_reg, store_bytes}
use nachos_assignment.Cpu.{add_int}
use nachos_assignment.Cpu.Effects.{swl_value, swr_value, lwr_value, lwl_value, done}
use nachos_assignment.Cpu.Execute.{execute, finish}
use nachos_assignment.Cpu.User.{IsRegisters}
use nachos_assignment.Cpu.Bounds.{if-IsInt, lwr_value-IsMerge, swl_value-IsMerge, swr_value-IsMerge}
use nachos_assignment.Cpu.Unaligned.{merged_lem}
use nachos_assignment.Cpu.OpCode.{op_lwl, op_lwr, op_swl, op_swr}
use nachos_assignment.Cpu.Decode.{Instruction}
use nachos_assignment.Cpu.Held.{Held, Held-kept, Held-written, Held-beside, table_after}
use nachos_assignment.Base.{
  ℕ, ◌+◌, ◌-◌, ◌*◌, ◌/◌, ◌%◌, ◌^◌, ◌≤◌, ◌<◌, ◌≡◌, refl, ◌∙◌, subst, ◌⊎◌, true, false, List, arith,
  ◌==◌, if◌then◌else◌, length, get_elem?-some, ℤ, pos, to_unsigned, IsInt, same_int, Outcome, ok,
  ◌>>=◌,
}

-- LWR by the instruction `i` and then LWL by `i'`, which read the addresses from the registers `a`
-- and `a'`: the second one loads `value` into its register.
pub record Loads (handler : Machine → Outcome Machine) (i i' : Instruction)
    (a a' b next after after' : ℤ) (m : Machine) (value : ℤ) : Type 0 where
  pub between : Machine
  pub last : Machine
  pub lwr_runs : (execute handler op_lwr i m a b next after >>= finish handler) ≡ ok between
  pub lwl_runs :
      execute handler op_lwl i' between a' b next after' ≡ ok (done last after' i'.rt value)

-- SWR and then SWL of a register that holds `source`.
pub record Stores (handler : Machine → Outcome Machine) (i i' : Instruction)
    (a a' source next after after' : ℤ) (m last : Machine) : Type 0 where
  pub between : Machine
  pub swr_runs : (execute handler op_swr i m a source next after >>= finish handler) ≡ ok between
  pub swl_runs :
      (execute handler op_swl i' between a' source next after' >>= finish handler) ≡ ok last

module _ (handler : Machine → Outcome Machine) (i i' : Instruction) (a a' b next after after' : ℤ)
    (w k place place' : ℕ) (positive : 0 < k) (few : k < 4) (rt_fits : i.rt < 32)
    (same_rt : i'.rt ≡ i.rt) (int_after : IsInt after) (int_after' : IsInt after')
    (address : to_unsigned (add_int a i.extra) ≡ 4 * w + k)
    (address' : to_unsigned (add_int a' i'.extra) ≡ 4 * w + k + 3) where
  address_next : to_unsigned (add_int a' i'.extra) ≡ 4 * (w + 1) + (k - 1)
  address_next = omega (arith, address', positive)

  pair-Loads :
      (memory : List ℕ) (regs : List ℤ) (table : List TranslationEntry) (first second : ℤ)
      → IsRegisters regs
      → Held memory table (4 * w) place first
      → Held memory table (4 * (w + 1)) place' second
      → (old : ℤ) × IsInt old
        × Loads handler i i' a a' b next after after'
            (paged memory regs table)
            (lwl_value (k - 1) (lwr_value k old first) second)
  unfolding execute
  pair-Loads memory regs table first second r h h' =
      let (loading, l) = get_elem?-some regs load_value_reg (omega (arith, r.all)) in
      let (current, c) = get_elem?-some regs i.rt (omega (arith, r.all, rt_fits)) in
      let old = if same_int r.target (pos i.rt) then loading else current in
      let int_old : IsInt old =
        if-IsInt _ _ _ (r.ints load_value_reg loading l) (r.ints i.rt current c) in
      let v = lwr_value k old first in
      let int_v = lwr_value-IsMerge k old first int_old h.is_int in
      let table1 = table_after table (4 * w) h.e false in
      let d = finish-Ended handler memory regs table1 after i.rt v r int_after rt_fits int_v in
      let h1 = Held-kept memory table _ (4 * (w + 1)) place' second h.e false h.is_mapped.here h' in
      let (current', c') =
        get_elem?-some d.left i'.rt (omega (arith, d.good.all, same_rt, rt_fits)) in
      let pending : (i.rt == i'.rt) ≡ true = ground (arith, same_rt) in
      (
        old,
        int_old,
        record {
          between = paged memory d.left table1;
          last = paged memory d.left (table_after table1 (4 * (w + 1)) h1.e false);
          lwr_runs =
              rw
                (
                  part_loads memory regs table w k place first (add_int a i.extra) h address few
                      lwr_value i.rt after r.target loading current r.pending l c,
                  d.ends,
                )
                refl;
          lwl_runs =
              part_loads memory d.left table1 (w + 1) (k - 1) place' second (add_int a' i'.extra) h1
                address_next (omega arith) lwl_value i'.rt after' (pos i.rt) v current' d.loads
                d.pends c'
              ∙ rw pending refl;
        },
      )

  -- With the two words at different places, each store changes the one that it reads.
  pair-Stores :
      (memory : List ℕ) (regs : List ℤ) (table : List TranslationEntry) (first second source : ℤ)
      → length memory ≡ memory_size
      → (place + 4 ≤ place') ⊎ (place' + 4 ≤ place)
      → IsRegisters regs
      → IsInt source
      → Held memory table (4 * w) place first
      → Held memory table (4 * (w + 1)) place' second
      → (memory' : List ℕ) × (regs' : List ℤ) × (table' : List TranslationEntry) × IsRegisters regs'
        × Held memory' table' (4 * w) place (swr_value k first source)
        × Held memory' table' (4 * (w + 1)) place' (swl_value (k - 1) second source)
        × Stores handler i i' a a' source next after after'
            (paged memory regs table)
            (paged memory' regs' table')
  unfolding execute
  pair-Stores memory regs table first second source full apart r int h h' =
      let value = swr_value k first source in
      let int_value = swr_value-IsMerge k first source h.is_int int in
      let value' = swl_value (k - 1) second source in
      let int_value' = swl_value-IsMerge (k - 1) second source h'.is_int int in
      let h1 = again memory regs table w k place first (add_int a i.extra) h address few in
      let h1' =
        Held-kept memory table _ (4 * (w + 1)) place' second h.e false h.is_mapped.here h' in
      let table1 = table_after table (4 * w) h.e false in
      let memory1 = store_bytes memory place 4 (to_unsigned value) in
      let table2 = table_after table1 (4 * w) h1.e true in
      let full1 = length-store_bytes memory place 4 (to_unsigned value) ∙ full in
      let d =
        finish-Ended handler memory1 regs table2 after 0 (pos 0) r int_after (omega arith)
          (omega arith) in
      let s = Held-written memory table1 (4 * w) place first value h1 full int_value in
      let s' =
        Held-beside memory table1 (4 * w) place (4 * (w + 1)) place' first value second h1
          (omega (arith, apart)) h1' in
      let table3 = table_after table2 (4 * (w + 1)) s'.e false in
      let t = Held-kept memory1 table2 _ (4 * w) place value s'.e false s'.is_mapped.here s in
      let t' =
        again memory1 d.left table2 (w + 1) (k - 1) place' second (add_int a' i'.extra) s'
          address_next (omega arith) in
      let memory2 = store_bytes memory1 place' 4 (to_unsigned value') in
      let table4 = table_after table3 (4 * (w + 1)) t'.e true in
      let d' =
        finish-Ended handler memory2 d.left table4 after' 0 (pos 0) d.good int_after' (omega arith)
          (omega arith) in
      (
        memory2,
        d'.left,
        table4,
        d'.good,
        Held-beside memory1 table3 (4 * (w + 1)) place' (4 * w) place second value' value t'
            (omega (arith, apart)) t,
        Held-written memory1 table3 (4 * (w + 1)) place' second value' t' full1 int_value',
        record {
          between = paged memory1 d.left table2;
          swr_runs =
              rw
                (
                  part_stores memory regs table w k place first (add_int a i.extra) h address few
                      swr_value source after,
                  d.ends,
                )
                refl;
          swl_runs =
              rw
                (
                  part_stores memory1 d.left table2 (w + 1) (k - 1) place' second
                      (add_int a' i'.extra) s' address_next (omega arith) swl_value source after',
                  d'.ends,
                )
                refl;
        },
      )

  -- For a word that begins at byte 1, 2 or 3 of one word of the memory and ends in the next, both
  -- of which the program can read and write at different places, on a machine with registers that
  -- hold ints: LWR at its first byte and then LWL at its last load the bytes that it has there, the
  -- second one with the load of the first still pending; and SWR and SWL of a register at these
  -- addresses leave a machine on which LWR and LWL load the value of that register.
  pub load-store_unaligned :
      (memory : List ℕ) (regs : List ℤ) (table : List TranslationEntry) (first second source : ℤ)
      → length memory ≡ memory_size
      → (place + 4 ≤ place') ⊎ (place' + 4 ≤ place)
      → IsRegisters regs
      → IsInt source
      → Held memory table (4 * w) place first
      → Held memory table (4 * (w + 1)) place' second
      → (value : ℤ) × Loads handler i i' a a' b next after after' (paged memory regs table) value
        × (to_unsigned value
            ≡ to_unsigned first / 256 ^ k + to_unsigned second % 256 ^ k * 256 ^ (4 - k))
        × (m : Machine) × Stores handler i i' a a' source next after after'
            (paged memory regs table)
            m
        × Loads handler i i' a a' b next after after' m source
  load-store_unaligned memory regs table first second source full apart r int h h' =
      let (old, int_old, loaded) = pair-Loads memory regs table first second r h h' in
      let (memory', regs', table', r', t, t', stored) =
        pair-Stores memory regs table first second source full apart r int h h' in
      let (old', int_old', back) = pair-Loads memory' regs' table' _ _ r' t t' in
      let bytes =
        (merged_lem k old first second source positive few int_old h.is_int h'.is_int int).0 in
      let same =
        (merged_lem k old' first second source positive few int_old' h.is_int h'.is_int int).1 in
      (
        _,
        loaded,
        bytes,
        paged memory' regs' table',
        stored,
        subst (Loads handler i i' a a' b next after after' (paged memory' regs' table')) same back,
      )
