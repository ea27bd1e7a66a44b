-- ===== src/AddrSpace/Run.antt =====
-- InitRegisters, SaveState, RestoreState and Translate of userprog/addrspace.cc: the address space of a
-- program that runs.
use nachos_assignment.Machine.{
  Machine, TranslationEntry, ExceptionType, address_error_exception, read_only_exception,
  bus_error_exception, page_size, num_phys_pages, memory_size, num_total_regs, write_register,
  Translation, translated, raised, translate,
}
use nachos_assignment.Machine.Translate.{
  frame_of, paged, translate-Translates, misplaced, beyond, invalid, protected, no_frame, mapped,
}
use nachos_assignment.Base.{
  ◌&&◌, ◌||◌, ℕ, zero, suc, ◌+◌, ◌-◌, ◌*◌, ◌/◌, ◌%◌, ◌^◌, ◌<◌, ◌≡◌, refl, ap, ◌∙◌, inl, Bool, true,
  false, Option, none, some, List, [], arith, ltb, leb, if◌then◌else◌, get_elem?, set,
  get_elem?-none, ℤ, pos, negsuc, to_unsigned, ◌-ℤ◌, Outcome, ok, ◌>>=◌, ◌>>◌, assert,
}

abbrev pub stack_reg : ℕ
stack_reg = 29

abbrev pub pc_reg : ℕ
pc_reg = 34

abbrev pub next_pc_reg : ℕ
next_pc_reg = 35

-- for (i = 0; i < NumTotalRegs; i++) WriteRegister(i, 0), with `left` rounds to go
unfoldable pub clear_registers : ℕ → ℕ → Machine → Outcome Machine
clear_registers zero i m = ok m
clear_registers (suc left) i m = do m' ← write_register m i (pos 0); clear_registers left (i + 1) m'

unfoldable pub init_registers : ℕ → Machine → Outcome Machine
init_registers num_pages m = do
  m1 ← clear_registers num_total_regs 0 m
  m2 ← write_register m1 pc_reg (pos 0)
  m3 ← write_register m2 next_pc_reg (pos 4)
  write_register m3 stack_reg (pos (num_pages * page_size) -ℤ pos 16)

-- The page table of an address space, with as many entries as `numPages` says.
abbrev pub save_state : Machine → Option (List TranslationEntry)
save_state m = m.page_table

abbrev pub restore_state : List TranslationEntry → Machine → Machine
restore_state table m = record m { page_table = some table }

-- The answer of AddrSpace::Translate, with the page table after it.
pub data SpaceTranslation : Type 0 where
  faulted : ExceptionType → SpaceTranslation
  placed : ℕ → List TranslationEntry → SpaceTranslation

-- pfn*PageSize + offset, as an `unsigned int`
abbrev pub paddr_of : ℤ → ℕ → ℕ
paddr_of (pos f) offset = (f * page_size + offset) % 2 ^ 32
paddr_of (negsuc n) offset = (2 ^ 41 - suc n * page_size + offset) % 2 ^ 32

-- pfn >= NumPhysPages, for an `int`
abbrev pub is_too_big : ℤ → Bool
is_too_big (pos f) = leb num_phys_pages f
is_too_big (negsuc n) = false

-- The end of AddrSpace::Translate, with the entry found.
unfoldable pub space_use :
    List TranslationEntry → ℕ → Bool → TranslationEntry → Outcome SpaceTranslation
space_use table vaddr writing e =
    let paddr = paddr_of e.physical_page (vaddr % page_size) in
    let marked = record e { in_use = true; dirty = e.dirty || writing } in
    if writing && e.read_only
    then ok (faulted read_only_exception)
    else if is_too_big e.physical_page
    then ok (faulted bus_error_exception)
    else (assert (ltb paddr memory_size)
        >> ok (placed paddr (set table (vaddr / page_size) marked)))

unfoldable pub space_translate : List TranslationEntry → ℕ → Bool → Outcome SpaceTranslation
space_translate table vaddr writing = elim (get_elem? table (vaddr / page_size)) [
  | none ↦ ok (faulted address_error_exception)
  | some e ↦ space_use table vaddr writing e
]

-- What Machine::Translate answers, in the terms of AddrSpace::Translate.
abbrev pub as_space : Translation → Outcome SpaceTranslation
as_space (raised x) = ok (faulted x)
as_space (translated pa m) = ok (placed pa (elim m.page_table [ none ↦ [] | some t ↦ t ]))

-- A page is valid and in a frame, as Load makes them.
abbrev pub IsPlaced : TranslationEntry → Type 0
IsPlaced e = (e.valid ≡ true) × (f : ℕ) × (e.physical_page ≡ pos f) × (f < 2 ^ 31)

abbrev pub IsLoaded : List TranslationEntry → Type 0
IsLoaded table = (i : ℕ) (e : TranslationEntry) → get_elem? table i ≡ some e → IsPlaced e

space_beyond :
    (table : List TranslationEntry) (va : ℕ) (writing : Bool)
    → get_elem? table (va / page_size) ≡ none
    → space_translate table va writing ≡ ok (faulted address_error_exception)
unfolding space_translate
space_beyond table va writing e = rw (space_translate, e) refl

space_at :
    (table : List TranslationEntry) (va : ℕ) (writing : Bool) (e : TranslationEntry)
    → get_elem? table (va / page_size) ≡ some e
    → space_translate table va writing ≡ space_use table va writing e
unfolding space_translate
space_at table va writing e here = rw (space_translate, here) refl

both_comm : (a b : Bool) → a && b ≡ b && a
both_comm true true = refl
both_comm true false = refl
both_comm false true = refl
both_comm false false = refl

-- The frame of an entry that Load made, seen by either translation.
frame_int :
    (f : ℕ) (frame : ℤ)
    → frame ≡ pos f
    → f < 2 ^ 31
    → (is_too_big frame ≡ leb num_phys_pages (to_unsigned frame))
      × ((offset : ℕ)
          → to_unsigned frame < num_phys_pages
          → offset < page_size
          → paddr_of frame offset ≡ to_unsigned frame * page_size + offset)
frame_int f frame e small = rw e (ap (leb num_phys_pages) (omega arith), λ offset a b. omega arith)

-- On the page table of a loaded program AddrSpace::Translate answers as Machine::Translate does for
-- one byte: the same exception, or the same address and the same page table.
pub space_translate-translate :
    (memory : List ℕ) (regs : List ℤ) (table : List TranslationEntry) (va : ℕ) (writing : Bool)
    → IsLoaded table
    → space_translate table va writing
      ≡ (translate (paged memory regs table) va 1 writing >>= as_space)
unfolding space_use
space_translate-translate memory regs table va writing loaded =
    elim (translate-Translates memory regs table va 1 writing (inl refl)) [
      | misplaced h r ↦ absurd (h (omega arith))
      | beyond h r ↦
          space_beyond table va writing (get_elem?-none table (va / page_size) h) ∙ rw r refl
      | invalid e here h r ↦ absurd (ground (arith, loaded (va / page_size) e here, h))
      | protected e here h r ↦
          let ro = both_comm writing e.read_only ∙ h in
          space_at table va writing e here ∙ rw (ro, r) refl
      | no_frame e here allowed h r ↦
          let (v, f, is_f, small) = loaded (va / page_size) e here in
          let (big, paddr) = frame_int f e.physical_page is_f small in
          let ro = both_comm writing e.read_only ∙ allowed in
          let no_memory : leb num_phys_pages (frame_of e) ≡ true = ground (arith, h) in
          space_at table va writing e here ∙ rw (ro, big, no_memory, r) refl
      | mapped e h inside r ↦
          let (v, f, is_f, small) = loaded (va / page_size) e h.here in
          let (big, paddr) = frame_int f e.physical_page is_f small in
          let ro = both_comm writing e.read_only ∙ h.permitted in
          let frame_ok : leb num_phys_pages (frame_of e) ≡ false = ground (arith, h.in_memory) in
          let address = paddr (va % page_size) h.in_memory (omega arith) in
          let in_memory : ltb (frame_of e * page_size + va % page_size) memory_size ≡ true =
            ground (arith, inside) in
          space_at table va writing e h.here ∙ rw (ro, big, frame_ok, address, in_memory, r) refl
    ]
