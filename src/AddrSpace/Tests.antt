-- ===== src/AddrSpace/Tests.antt =====
-- A small program for the theorems on userprog/addrspace.cc.
use nachos_assignment.AddrSpace.EmptyReadonly.{copy_segments_loses_data}
use nachos_assignment.AddrSpace.Run.{
  init_registers, space_translate, as_space, IsLoaded, IsPlaced, space_translate-translate,
}
use nachos_assignment.AddrSpace.Registers.{initial, init_registers_lem}
use nachos_assignment.AddrSpace.{
  fresh_entry, copy_code, copy_segments, Segment, Executable, Store, noff_magic_number, load,
}
use nachos_assignment.AddrSpace.Alloc.{table_of}
use nachos_assignment.AddrSpace.Load.{
  idle, IsWhole, IsProgram, pages_of, Loads, load_fits, load-Loads, load-isolates,
}
use nachos_assignment.Bitmap.{Bitmap}
use nachos_assignment.Bitmap.View.{marked, count_clear}
use nachos_assignment.Bitmap.Bits.{bit}
use nachos_assignment.Machine.{translate, Machine, TranslationEntry, memory_size, num_phys_pages}
use nachos_assignment.Machine.Translate.{paged}
use nachos_assignment.Machine.Memory.{write_mem}
use nachos_assignment.Machine.Memory.Access.{IsRegs}
use nachos_assignment.Base.{
  ℕ, zero, suc, ◌+◌, ◌^◌, ◌≤◌, ◌<◌, ◌≡◌, refl, subst, ◌⊎◌, inr, true, none, some, List, [], ◌∷◌,
  arith, get_elem?, get_or, replicate, length-replicate, get_or-replicate, ℤ, pos, halted, ok, err,
  ◌>>=◌,
}

abbrev segment : ℕ → ℕ → Segment
segment in_file_addr size = record { virtual_addr = 0; in_file_addr = in_file_addr; size = size }

-- 700 bytes of code, 100 of read-only data and 600 of data: five pages with the stack.
abbrev small : Executable
small = record {
  header = record {
    noff_magic = noff_magic_number;
    code = segment 40 700;
    init_data = segment 840 600;
    readonly_data = segment 740 100;
    uninit_data = segment 0 0;
  };
  read_at = λ position count. replicate count 7;
}

small-IsProgram : IsProgram small
small-IsProgram = record {
  magic = refl;
  from_zero = refl;
  countable = omega arith;
  bounded = λ position count. omega (arith, length-replicate {A = ℕ} count 7);
}

five_pages : pages_of small ≡ 5
five_pages = refl

-- The first eight frames are taken.
abbrev frames : Bitmap
frames = record { num_bits = 512; num_words = 16; map = 255 ∷ replicate 15 0 }

abbrev clean : List ℕ
clean = replicate memory_size 0

narrow_words : (k : ℕ) → get_or (255 ∷ replicate 15 0) k 0 < 2 ^ 32
narrow_words zero = omega arith
narrow_words (suc k) = omega (arith, get_or-replicate {A = ℕ} 15 k 0)

whole : IsWhole clean frames
whole = record {
  frames_wf = record { words = refl; stored = refl; narrow = narrow_words };
  frames_all = refl;
  memory_all = length-replicate {A = ℕ} memory_size 0;
}

enough : pages_of small ≤ count_clear (marked frames) num_phys_pages 0
enough =
    let counted : count_clear (marked frames) 512 0 ≡ 504 =
      (unfold count_clear marked bit in refl) in
    omega (arith, counted)

load-Loads_example : Loads small clean frames (load (some small) 1 (idle clean frames))
load-Loads_example = load-Loads small 1 clean frames small-IsProgram whole

abbrev placed_store : Store
placed_store = let r = load_fits small 1 clean frames small-IsProgram whole enough in idle r.1 r.2

abbrev placed_table : List TranslationEntry
placed_table = table_of 0 (load_fits small 1 clean frames small-IsProgram whole enough).0

placed : load (some small) 1 (idle clean frames) ≡ ok (placed_store, some placed_table)
placed = (load_fits small 1 clean frames small-IsProgram whole enough).3

abbrev no_load : List ℤ
no_load = replicate 40 (pos 0)

no_load-IsRegs : IsRegs no_load
no_load-IsRegs = record { all = refl; target = pos 0; pending = refl; is_register = omega arith }

load-isolates_example :
    (get_elem? placed_store.main_memory 600 ≡ get_elem? clean 600)
    × ((write_mem (paged placed_store.main_memory no_load placed_table) 516 4 (pos 9) ≡ err halted)
        ⊎ ((after : Machine) × (write_mem
                (paged placed_store.main_memory no_load placed_table)
                516
                4
                (pos 9)
              ≡ ok (after, true))
            × (get_elem? after.main_memory 600 ≡ get_elem? clean 600)))
load-isolates_example =
    load-isolates small 1 clean frames placed_store placed_table 600 no_load 516 4 (pos 9)
      small-IsProgram whole placed (unfold marked bit in refl) (inr (inr refl)) no_load-IsRegs

-- 20 bytes of code and 8 of data, and no read-only data.
abbrev no_rdata : Executable
no_rdata = record {
  header = record {
    noff_magic = noff_magic_number;
    code = segment 40 20;
    init_data = segment 60 8;
    readonly_data = segment 60 0;
    uninit_data = segment 0 0;
  };
  read_at = λ position count. replicate count 7;
}

copy_segments_loses_data_example :
    copy_segments no_rdata (table_of 0 (2 ∷ 3 ∷ 5 ∷ [])) 0 clean
    ≡ (copy_code no_rdata (table_of 0 (2 ∷ 3 ∷ 5 ∷ [])) 0 clean >>= λ c. ok c.memory)
copy_segments_loses_data_example =
    copy_segments_loses_data no_rdata (table_of 0 (2 ∷ 3 ∷ 5 ∷ [])) 0 clean refl (omega arith)

abbrev any_registers : Machine
any_registers = record {
  main_memory = [];
  registers = replicate 40 (pos 5);
  tlb = none;
  page_table = none;
}

init_registers_lem_example :
    (regs : List ℤ) × (init_registers 5 any_registers
      ≡ ok (record any_registers { registers = regs }))
    × ((k : ℕ) → k < 40 → get_elem? regs k ≡ some (initial 5 k))
    × IsRegs regs
init_registers_lem_example = init_registers_lem 5 any_registers refl

two_frames-IsLoaded : IsLoaded (table_of 0 (4 ∷ 9 ∷ []))
two_frames-IsLoaded zero e h =
    let same : fresh_entry 0 (pos 4) ≡ e = ground (arith, h) in
    subst IsPlaced same (refl, 4, refl, omega arith)
two_frames-IsLoaded (suc zero) e h =
    let same : fresh_entry (0 + 1) (pos 9) ≡ e = ground (arith, h) in
    subst IsPlaced same (refl, 9, refl, omega arith)
two_frames-IsLoaded (suc (suc i)) e h = absurd (ground (arith, h))

space_translate-translate_example :
    space_translate (table_of 0 (4 ∷ 9 ∷ [])) 600 true
    ≡ (translate (paged [] no_load (table_of 0 (4 ∷ 9 ∷ []))) 600 1 true >>= as_space)
space_translate-translate_example =
    space_translate-translate [] no_load (table_of 0 (4 ∷ 9 ∷ [])) 600 true two_frames-IsLoaded
