-- ===== src/Machine/Tests.antt =====
-- A machine with two pages, for the theorems on machine/translate.cc.
use nachos_assignment.Machine.{
  translate_by, in_page_table, use_entry, Machine, TranslationEntry, translated, translate,
  page_size, memory_size,
}
use nachos_assignment.Machine.Translate.{
  accessed, frame_of, IsMapped, paged, Translates, translate-Translates,
}
use nachos_assignment.Machine.Memory.{write_mem, read_mem}
use nachos_assignment.Machine.Memory.Access.{
  IsRegs, Writes, write_mem-Writes, write_mem-isolates, read_mem-write_mem, IsCut,
}
use nachos_assignment.Base.{
  ℕ, zero, suc, ◌/◌, ◌≡◌, refl, ◌≢◌, ◌⊎◌, inr, Bool, true, false, some, List, [], ◌∷◌, arith,
  get_elem?, replicate, length-replicate, ℤ, pos, negsuc, halted, ok, err,
}

abbrev entry_at : ℕ → ℕ → Bool → TranslationEntry
entry_at page frame read_only = record {
  virtual_page = pos page;
  physical_page = pos frame;
  valid = true;
  read_only = read_only;
  in_use = false;
  dirty = false;
}

-- Page 0 is the code, in frame 1; page 1 is data, in frame 0.
abbrev two_pages : List TranslationEntry
two_pages = entry_at 0 1 true ∷ entry_at 1 0 false ∷ []

abbrev no_load : List ℤ
no_load = replicate 40 (pos 0)

no_load-IsRegs : IsRegs no_load
no_load-IsRegs = record { all = refl; target = pos 0; pending = refl; is_register = omega arith }

translate-Translates_example :
    Translates
      (paged [] no_load)
      two_pages
      516
      4
      true
      (translate (paged [] no_load two_pages) 516 4 true)
translate-Translates_example = translate-Translates [] no_load two_pages 516 4 true (inr (inr refl))

stored_address :
    translate (paged [] no_load two_pages) 516 4 true
    ≡ ok (
        translated 4
          (paged [] no_load (entry_at 0 1 true ∷ accessed (entry_at 1 0 false) true ∷ [])))
unfolding translate translate_by in_page_table use_entry
stored_address = refl

write_mem-Writes_example :
    Writes [] no_load two_pages 4 4 (pos 7) (write_mem (paged [] no_load two_pages) 4 4 (pos 7))
write_mem-Writes_example =
    write_mem-Writes [] no_load two_pages 4 4 (inr (inr refl)) no_load-IsRegs (pos 7)

-- Frame 2 belongs to somebody else.
abbrev foreign_memory : List ℕ
foreign_memory = replicate 1025 9

foreign :
    (i : ℕ) (e : TranslationEntry) → get_elem? two_pages i ≡ some e → 1024 / page_size ≢ frame_of e
foreign zero e h = ground (arith, h)
foreign (suc zero) e h = ground (arith, h)
foreign (suc (suc i)) e h = ground (arith, h)

write_mem-isolates_example :
    (write_mem (paged foreign_memory no_load two_pages) 516 4 (pos 7) ≡ err halted)
    ⊎ ((m' : Machine) × (write_mem (paged foreign_memory no_load two_pages) 516 4 (pos 7)
          ≡ ok (m', true))
        × (get_elem? m'.main_memory 1024 ≡ get_elem? foreign_memory 1024))
write_mem-isolates_example =
    write_mem-isolates foreign_memory no_load two_pages 516 4 (inr (inr refl)) no_load-IsRegs
      (pos 7) 1024 foreign

data_page-IsMapped : IsMapped two_pages 516 4 true (entry_at 1 0 false)
data_page-IsMapped = record {
  here = refl;
  is_valid = refl;
  permitted = refl;
  in_memory = omega arith;
  fits = refl;
}

abbrev clean_memory : List ℕ
clean_memory = replicate memory_size 0

read_mem-write_mem_example :
    (m1 m2 : Machine) × (v : ℤ) × (write_mem (paged clean_memory no_load two_pages) 516 4 (negsuc 4)
      ≡ ok (m1, true))
    × (read_mem m1 516 4 ≡ ok (m2, true, v))
    × IsCut 4 (negsuc 4) v
    × (◌≡◌ {A = ℕ} 4 4 → v ≡ negsuc 4)
read_mem-write_mem_example =
    read_mem-write_mem clean_memory no_load two_pages 516 4 (negsuc 4) (entry_at 1 0 false)
      (inr (inr refl)) (length-replicate {A = ℕ} memory_size 0) (omega arith) data_page-IsMapped
