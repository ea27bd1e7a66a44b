-- ===== src/Machine/Translate.antt =====
-- Machine::Translate of machine/translate.cc on a machine with a page table, branch by branch.
use nachos_assignment.Machine.{
  entry, Lookup, missing, use_entry, Machine, TranslationEntry, Translation, translated, raised,
  address_error_exception, page_fault_exception, read_only_exception, bus_error_exception,
  page_size, num_phys_pages, memory_size, in_page_table, misaligned, translate_by, translate,
}
use nachos_assignment.Bitmap.Bits.{bit_and-one, bit_and-three}
use nachos_assignment.Base.{
  ◌&&◌, ◌||◌, ℕ, ◌+◌, ◌*◌, ◌/◌, ◌%◌, ◌≤◌, ◌<◌, bit_and, ◌≡◌, sym, ◌∙◌, subst, ◌≢◌, ◌⊎◌, inl, inr,
  Bool, true, false, none, some, List, arith, leb, ◌==◌, Bool-cases, Option-cases, length,
  get_elem?, set, get_elem?_beyond, ℤ, to_unsigned, Outcome, ok,
}

-- The sizes that an instruction reads and writes.
abbrev pub IsSize : ℕ → Type 0
IsSize size = (size ≡ 1) ⊎ ((size ≡ 2) ⊎ (size ≡ 4))

misaligned_lem :
    (size va : ℕ)
    → IsSize size
    → ((misaligned size va ≡ true) × (va % size ≢ 0))
      ⊎ ((misaligned size va ≡ false) × (va % size ≡ 0))
misaligned_lem size va (inl e) = inr (ground (arith, e), rw e (omega arith))
misaligned_lem size va (inr (inl e)) = elim (Bool-cases (bit_and va 1 == 0)) [
  | inl z ↦ inr (ground (arith, e), rw e (ground (arith, bit_and-one va)))
  | inr nz ↦ inl (ground (arith, e), rw e (ground (arith, bit_and-one va)))
]
misaligned_lem size va (inr (inr e)) = elim (Bool-cases (bit_and va 3 == 0)) [
  | inl z ↦ inr (ground (arith, e), rw e (ground (arith, bit_and-three va)))
  | inr nz ↦ inl (ground (arith, e), rw e (ground (arith, bit_and-three va)))
]

-- The entry after an access.
abbrev pub accessed : TranslationEntry → Bool → TranslationEntry
accessed e writing = record e { in_use = true; dirty = e.dirty || writing }

abbrev pub frame_of : TranslationEntry → ℕ
frame_of e = to_unsigned e.physical_page

-- A machine built without USE_TLB, while a user program runs on it.
abbrev pub paged : List ℕ → List ℤ → List TranslationEntry → Machine
paged memory regs table = record {
  main_memory = memory;
  registers = regs;
  tlb = none;
  page_table = some table;
}

-- An access that is aligned stays in its page.
pub in_page : (va size : ℕ) → IsSize size → va % size ≡ 0 → va % page_size + size ≤ page_size
in_page va size (inl e) a = omega arith
in_page va size (inr (inl e)) a = let a' : va % 2 ≡ 0 = subst (λ t. va % t ≡ 0) e a in omega arith
in_page va size (inr (inr e)) a = let a' : va % 4 ≡ 0 = subst (λ t. va % t ≡ 0) e a in omega arith

-- The page of `va` is in the table, may be accessed so, and has a frame of the memory.
pub record IsMapped (table : List TranslationEntry) (va size : ℕ) (writing : Bool)
    (e : TranslationEntry) : Type 0 where
  pub here : get_elem? table (va / page_size) ≡ some e
  pub is_valid : e.valid ≡ true
  pub permitted : e.read_only && writing ≡ false
  pub in_memory : frame_of e < num_phys_pages
  pub fits : va % size ≡ 0

-- What a translation by a page table comes to, with the machine `with_table` after it.
pub data Translates (with_table : List TranslationEntry → Machine) (table : List TranslationEntry)
    (va size : ℕ) (writing : Bool) (r : Outcome Translation) : Type 0 where
  misplaced :
      va % size ≢ 0
      → r ≡ ok (raised address_error_exception)
      → Translates with_table table va size writing r
  beyond :
      length table ≤ va / page_size
      → r ≡ ok (raised address_error_exception)
      → Translates with_table table va size writing r
  invalid :
      (e : TranslationEntry)
      → get_elem? table (va / page_size) ≡ some e
      → e.valid ≡ false
      → r ≡ ok (raised page_fault_exception)
      → Translates with_table table va size writing r
  protected :
      (e : TranslationEntry)
      → get_elem? table (va / page_size) ≡ some e
      → e.read_only && writing ≡ true
      → r ≡ ok (raised read_only_exception)
      → Translates with_table table va size writing r
  no_frame :
      (e : TranslationEntry)
      → get_elem? table (va / page_size) ≡ some e
      → e.read_only && writing ≡ false
      → num_phys_pages ≤ frame_of e
      → r ≡ ok (raised bus_error_exception)
      → Translates with_table table va size writing r
  mapped :
      (e : TranslationEntry)
      → IsMapped table va size writing e
      → frame_of e * page_size + va % page_size + size ≤ memory_size
      → r
        ≡ ok (
            translated
              (frame_of e * page_size + va % page_size)
              (with_table (set table (va / page_size) (accessed e writing))))
      → Translates with_table table va size writing r

module _ (memory : List ℕ) (regs : List ℤ) (table : List TranslationEntry) (va size : ℕ)
    (writing : Bool) (sized : IsSize size) where
  in_place :
      (e : TranslationEntry)
      → va % size ≡ 0
      → frame_of e < num_phys_pages
      → frame_of e * page_size + va % page_size + size ≤ memory_size
  in_place e fits h = omega (arith, in_page va size sized fits)

  valid_entry :
      (e : TranslationEntry)
      → get_elem? table (va / page_size) ≡ some e
      → va % size ≡ 0
      → e.valid ≡ true
      → Translates (paged memory regs) table va size writing (
          use_entry
            (λ e'. paged memory regs (set table (va / page_size) e'))
            (va % page_size)
            size
            writing
            e)
  unfolding use_entry
  valid_entry e here fits v = elim (Bool-cases (e.read_only && writing)) [
    | inl ro ↦ protected e here ro (rw ro)
    | inr rw_ok ↦ elim (Bool-cases (leb num_phys_pages (frame_of e))) [
      | inl big ↦ no_frame e here rw_ok (ground arith) (rw (rw_ok, big))
      | inr small ↦
          let inside = in_place e fits (ground arith) in
          let is_mapped : IsMapped table va size writing e = record {
            here = here;
            is_valid = v;
            permitted = rw_ok;
            in_memory = ground arith;
            fits = fits;
          } in
          mapped e is_mapped inside (rw (rw_ok, small) (ground (arith, inside)))
    ]
  ]

  looked_up :
      (r : Lookup)
      → misaligned size va ≡ false
      → in_page_table table (va / page_size) ≡ r
      → translate (paged memory regs table) va size writing
        ≡ translate_by (λ i e'. paged memory regs (set table i e')) (va % page_size) size writing r
  unfolding translate
  looked_up r a e = rw (a, e)

  aligned-Translates :
      misaligned size va ≡ false
      → va % size ≡ 0
      → Translates
          (paged memory regs)
          table
          va
          size
          writing
          (translate (paged memory regs table) va size writing)
  unfolding translate_by in_page_table
  aligned-Translates on fits = elim (Option-cases (get_elem? table (va / page_size))) [
    | inl none_there ↦
        beyond (get_elem?_beyond table (va / page_size) none_there)
          (looked_up (missing address_error_exception) on (ground (arith, none_there)))
    | inr (e, here) ↦ elim (Bool-cases e.valid) [
      | inl v ↦
          subst (Translates (paged memory regs) table va size writing)
            (sym (looked_up (entry (va / page_size) e) on (ground (arith, here, v))))
            (valid_entry e here fits v)
      | inr nv ↦
          invalid e here nv (looked_up (missing page_fault_exception) on (ground (arith, here, nv)))
    ]
  ]

  -- With a page table, Translate of an access of 1, 2 or 4 bytes answers with an exception for its
  -- reason, or with an address whose bytes all lie in the memory and with the page marked; its
  -- assertions never fail.
  pub translate-Translates :
      Translates
        (paged memory regs)
        table
        va
        size
        writing
        (translate (paged memory regs table) va size writing)
  translate-Translates = elim (misaligned_lem size va sized) [
    | inl off ↦ misplaced off.1 (unfold translate in rw off.0)
    | inr on ↦ aligned-Translates on.0 on.1
  ]

  -- A mapped page always translates.
  pub translate_mapped :
      (e : TranslationEntry)
      → IsMapped table va size writing e
      → translate (paged memory regs table) va size writing
        ≡ ok (
            translated
              (frame_of e * page_size + va % page_size)
              (paged memory regs (set table (va / page_size) (accessed e writing))))
  unfolding translate_by in_page_table use_entry
  translate_mapped e h = elim (misaligned_lem size va sized) [
    | inl off ↦ absurd (off.1 h.fits)
    | inr on ↦
        looked_up (entry (va / page_size) e) on.0 (ground (arith, h.here, h.is_valid))
        ∙ ground (arith, h.permitted, h.in_memory, in_place e h.fits h.in_memory)
  ]
