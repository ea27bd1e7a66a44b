-- ===== src/Machine/Memory/Access.antt =====
-- ReadMem and WriteMem of machine/translate.cc for a user program: a fault halts the machine, what
-- is written is read back, and no byte outside the frames of the page table changes.
use nachos_assignment.Machine.{
  raised, translate, num_phys_pages, Machine, TranslationEntry, ExceptionType, page_fault_exception,
  read_only_exception, bus_error_exception, address_error_exception, overflow_exception,
  illegal_instr_exception, page_size, memory_size, num_total_regs,
}
use nachos_assignment.Machine.Translate.{
  IsSize, in_page, translate_mapped, accessed, IsMapped, frame_of, paged, misplaced, beyond,
  invalid, protected, no_frame, mapped, translate-Translates,
}
use nachos_assignment.Machine.Memory.{
  read_mem, load_reg, load_value_reg, bad_vaddr_reg, delayed_load, handle_fault, raise_exception,
  store_bytes, value_of, char_value, write_mem,
}
use nachos_assignment.Machine.Memory.Bytes.{get_elem?-store_bytes_ne, load_bytes-store_bytes}
use nachos_assignment.Base.{
  ◌&&◌, ℕ, ◌+◌, ◌*◌, ◌/◌, ◌%◌, ◌^◌, ◌≤◌, ◌<◌, ◌≡◌, refl, sym, ap, ◌∙◌, subst, ◌≢◌, ◌⊎◌, inl, inr,
  Bool, true, false, some, List, arith, length, get_elem?, set, length-set, get_elem?-set_self,
  get_elem?-set_ne, get_elem?-some, get_elem?_inside, ℤ, pos, negsuc, to_unsigned, to_int, IsInt,
  to_int-to_unsigned, halted, Outcome, ok, err,
}

-- The registers of a running program: all there, with a delayed load that names one of them.
pub record IsRegs (regs : List ℤ) : Type 0 where
  pub all : length regs ≡ num_total_regs
  pub target : ℤ
  pub pending : get_elem? regs load_reg ≡ some target
  pub is_register : to_unsigned target < num_total_regs

-- The exceptions that stop the machine, those of Translate among them.
abbrev pub IsFault : ExceptionType → Type 0
IsFault page_fault_exception = Unit {0}
IsFault read_only_exception = Unit {0}
IsFault bus_error_exception = Unit {0}
IsFault address_error_exception = Unit {0}
IsFault overflow_exception = Unit {0}
IsFault illegal_instr_exception = Unit {0}
IsFault _ = ⊥

halts_on : (which : ExceptionType) (m : Machine) → IsFault which → handle_fault which m ≡ err halted
unfolding handle_fault
halts_on page_fault_exception m h = refl
halts_on read_only_exception m h = refl
halts_on bus_error_exception m h = refl
halts_on address_error_exception m h = refl
halts_on overflow_exception m h = refl
halts_on illegal_instr_exception m h = refl
halts_on _ m h = elim h [ ]

delayed_load_runs :
    (regs : List ℤ) (next_reg : ℕ) (next_value : ℤ)
    → IsRegs regs
    → (regs' : List ℤ) × (delayed_load regs next_reg next_value ≡ ok regs')
unfolding delayed_load
delayed_load_runs regs next_reg next_value r =
    let (value, v) = get_elem?-some regs load_value_reg (omega (arith, r.all)) in
    let (old, o) =
      get_elem?-some regs (to_unsigned r.target) (omega (arith, r.all, r.is_register)) in
    (
      set
          (set (set (set regs (to_unsigned r.target) value) load_reg (pos next_reg)) load_value_reg
            next_value)
          0 (pos 0),
      rw (r.pending, v, o),
    )

IsRegs-set : (regs : List ℤ) (bad : ℤ) → IsRegs regs → IsRegs (set regs bad_vaddr_reg bad)
IsRegs-set regs bad r = record {
  all = length-set regs bad_vaddr_reg bad ∙ r.all;
  target = r.target;
  pending = get_elem?-set_ne regs {i = 39} {j = 37} bad (omega arith) ∙ r.pending;
  is_register = r.is_register;
}

-- A fault never comes back to the program.
pub raise_exception_halts :
    (which : ExceptionType) (bad_vaddr : ℕ) (m : Machine)
    → IsRegs m.registers
    → IsFault which
    → raise_exception which bad_vaddr m ≡ err halted
unfolding raise_exception
raise_exception_halts which bad_vaddr m r f =
    let (regs, e) = delayed_load_runs _ 0 (pos 0) (IsRegs-set m.registers (to_int bad_vaddr) r) in
    rw e (halts_on which (record m { registers = regs }) f)

-- Why an access is refused.
pub data Refused (table : List TranslationEntry) (va size : ℕ) (writing : Bool) : Type 0 where
  off_size : va % size ≢ 0 → Refused table va size writing
  no_page : length table ≤ va / page_size → Refused table va size writing
  no_access :
      (e : TranslationEntry)
      → get_elem? table (va / page_size) ≡ some e
      → (e.valid ≡ false) ⊎ ((e.read_only && writing ≡ true) ⊎ (num_phys_pages ≤ frame_of e))
      → Refused table va size writing

-- Where the byte of an address lies in the memory.
abbrev pub place_of : TranslationEntry → ℕ → ℕ
place_of e va = frame_of e * page_size + va % page_size

-- What WriteMem comes to: the machine halts on a refused access, or the bytes go to their place.
pub data Writes (memory : List ℕ) (regs : List ℤ) (table : List TranslationEntry) (va size : ℕ)
    (value : ℤ) (r : Outcome (Machine × Bool)) : Type 0 where
  halts : Refused table va size true → r ≡ err halted → Writes memory regs table va size value r
  writes :
      (e : TranslationEntry)
      → IsMapped table va size true e
      → place_of e va + size ≤ memory_size
      → r
        ≡ ok (
          paged
              (store_bytes memory (place_of e va) size (to_unsigned value))
              regs
              (set table (va / page_size) (accessed e true)),
          true,
        )
      → Writes memory regs table va size value r

sized_value : (size : ℕ) → IsSize size → (raw : ℕ) → (v : ℤ) × (value_of size raw ≡ ok v)
sized_value size (inl e) raw = (char_value raw, ground (arith, e))
sized_value size (inr (inl e)) raw = (pos raw, ground (arith, e))
sized_value size (inr (inr e)) raw = (to_int raw, ground (arith, e))

module _ (memory : List ℕ) (regs : List ℤ) (table : List TranslationEntry) (va size : ℕ)
    (sized : IsSize size) (r : IsRegs regs) where
  -- A fault of the translation, as the end of a WriteMem.
  write_fault :
      (value : ℤ) (which : ExceptionType)
      → IsFault which
      → translate (paged memory regs table) va size true ≡ ok (raised which)
      → write_mem (paged memory regs table) va size value ≡ err halted
  unfolding write_mem
  write_fault value which f e = rw (e, raise_exception_halts which va (paged memory regs table) r f)

  -- A store by a user program halts the machine on an access that is off its size, has no page, or
  -- is not allowed; otherwise it puts the bytes at the place that the page table gives, which lies
  -- inside the memory, and marks the page used and dirty.
  pub write_mem-Writes :
      (value : ℤ)
      → Writes memory regs table va size value (write_mem (paged memory regs table) va size value)
  write_mem-Writes value = elim (translate-Translates memory regs table va size true sized) [
    | misplaced h e ↦ halts (off_size h) (write_fault value address_error_exception tt e)
    | beyond h e ↦ halts (no_page h) (write_fault value address_error_exception tt e)
    | invalid x here h e ↦
        halts (no_access x here (inl h)) (write_fault value page_fault_exception tt e)
    | protected x here h e ↦
        halts (no_access x here (inr (inl h))) (write_fault value read_only_exception tt e)
    | no_frame x here allowed h e ↦
        halts (no_access x here (inr (inr h))) (write_fault value bus_error_exception tt e)
    | mapped x h inside e ↦
        let (v, ev) = sized_value size sized 0 in writes x h inside (unfold write_mem in rw (e, ev))
  ]

  -- A store by a user program either halts the machine, or succeeds and leaves every byte of the
  -- memory alone that lies in no frame of its page table.
  pub write_mem-isolates :
      (value : ℤ) (j : ℕ)
      → ((i : ℕ) (e : TranslationEntry) → get_elem? table i ≡ some e → j / page_size ≢ frame_of e)
      → (write_mem (paged memory regs table) va size value ≡ err halted)
        ⊎ ((m' : Machine) × (write_mem (paged memory regs table) va size value ≡ ok (m', true))
            × (get_elem? m'.main_memory j ≡ get_elem? memory j))
  write_mem-isolates value j foreign = elim (write_mem-Writes value) [
    | halts why e ↦ inl e
    | writes x h inside e ↦
        let in_frame = in_page va size sized h.fits in
        let elsewhere = foreign (va / page_size) x h.here in
        inr (
          _,
          e,
          get_elem?-store_bytes_ne memory (place_of x va) size (to_unsigned value) j
              (omega (arith, in_frame, elsewhere)),
        )
  ]

-- What a value is after it went through `size` bytes.
abbrev pub IsCut : ℕ → ℤ → ℤ → Type 0
IsCut size value v = value_of size (to_unsigned value % 256 ^ size) ≡ ok v

word_fits : (value : ℤ) → to_unsigned value % 256 ^ 4 ≡ to_unsigned value
word_fits (pos n) = omega arith
word_fits (negsuc n) = omega arith

cut_word : (size : ℕ) (value v : ℤ) → IsInt value → size ≡ 4 → IsCut size value v → v ≡ value
cut_word size value v h four c =
    let c4 : ok (to_int (to_unsigned value % 256 ^ 4)) ≡ ok v =
      subst (λ t. value_of t (to_unsigned value % 256 ^ t) ≡ ok v) four c in
    let c' : ok (to_int (to_unsigned value)) ≡ ok v =
      subst (λ t. ok (to_int t) ≡ ok v) (word_fits value) c4 in
    let same : ok v ≡ ok value = sym c' ∙ ap (λ t. ok t) (to_int-to_unsigned value h) in
    ground (arith, same)

-- On a machine with a full memory, a store through WriteMem to a mapped, writable, aligned address
-- succeeds, and ReadMem of that address and size then answers the value cut to the bytes written; a
-- whole word comes back as it was.
pub read_mem-write_mem :
    (memory : List ℕ) (regs : List ℤ) (table : List TranslationEntry) (va size : ℕ) (value : ℤ)
    (e : TranslationEntry)
    → IsSize size
    → length memory ≡ memory_size
    → IsInt value
    → IsMapped table va size true e
    → (m1 m2 : Machine) × (v : ℤ) × (write_mem (paged memory regs table) va size value
        ≡ ok (m1, true))
      × (read_mem m1 va size ≡ ok (m2, true, v))
      × IsCut size value v
      × (size ≡ 4 → v ≡ value)
unfolding write_mem read_mem
read_mem-write_mem memory regs table va size value e sized full int h =
    let (v, ev) = sized_value size sized (to_unsigned value % 256 ^ size) in
    let (z, ez) = sized_value size sized 0 in
    let stored = store_bytes memory (place_of e va) size (to_unsigned value) in
    let again : IsMapped (set table (va / page_size) (accessed e true)) va size false
        (accessed e true) =
      record {
        here =
            get_elem?-set_self table (va / page_size) (accessed e true)
              (get_elem?_inside table (va / page_size) e h.here);
        is_valid = h.is_valid;
        permitted = ground arith;
        in_memory = h.in_memory;
        fits = h.fits;
      } in
    (
      paged stored regs (set table (va / page_size) (accessed e true)),
      paged stored regs (
          set (set table (va / page_size) (accessed e true)) (va / page_size)
            (accessed (accessed e true) false)),
      v,
      rw (translate_mapped memory regs table va size true sized e h, ez),
      rw (
        translate_mapped stored regs _ va size false sized (accessed e true) again,
        load_bytes-store_bytes memory (place_of e va) size (to_unsigned value)
            (omega (arith, full, in_page va size sized h.fits, h.in_memory)),
        ev,
      ),
      ev,
      λ four. cut_word size value v int four ev,
    )
