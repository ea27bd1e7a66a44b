-- ===== src/AddrSpace/Load.antt =====
-- AddrSpace::Load (userprog/addrspace.cc) as a whole, and what it means for the programs that are
-- loaded already.
use nachos_assignment.AddrSpace.{
  Executable, Store, fresh_entry, noff_magic_number, size_of, load, load_pages,
}
use nachos_assignment.AddrSpace.Alloc.{table_of, set_up_pages-Takes}
use nachos_assignment.AddrSpace.Copy.{IsBounded, table_of_at, length-table_of}
use nachos_assignment.AddrSpace.Segments.{copy_segments-Within}
use nachos_assignment.Bitmap.{Bitmap, div_round_up, num_clear}
use nachos_assignment.Bitmap.View.{marked, IsWf, count_clear}
use nachos_assignment.Bitmap.Loops.{num_clear_lem}
use nachos_assignment.Machine.{Machine, TranslationEntry, page_size, num_phys_pages, memory_size}
use nachos_assignment.Machine.Translate.{IsSize, frame_of, paged}
use nachos_assignment.Machine.Memory.{write_mem}
use nachos_assignment.Machine.Memory.Access.{IsRegs, write_mem-isolates}
use nachos_assignment.Threads.Semaphore.{p_round, v}
use nachos_assignment.Base.{
  ◌||◌, ℕ, ◌+◌, ◌/◌, ◌%◌, ◌^◌, ◌≤◌, ◌<◌, ◌≡◌, refl, sym, ap, ◌∙◌, subst, ◌≢◌, ◌⊎◌, inl, inr, true,
  false, Option, none, some, List, [], arith, ltb, Bool-cases, length, get_elem?, get_elem?_inside,
  among, IsDistinct, ℤ, pos, halted, Outcome, ok, err,
}

-- The kernel while no thread is in Load.
abbrev pub idle : List ℕ → Bitmap → Store
idle m b = record { main_memory = m; frames = b; addr_lock = record { value = pos 1; queue = [] } }

-- The memory is whole and has a bit for each frame.
pub record IsWhole (m : List ℕ) (b : Bitmap) : Type 0 where
  pub frames_wf : IsWf b
  pub frames_all : b.num_bits ≡ num_phys_pages
  pub memory_all : length m ≡ memory_size

-- A program in the format of Nachos, whose segments an `int` can count.
pub record IsProgram (exe : Executable) : Type 0 where
  pub magic : exe.header.noff_magic ≡ noff_magic_number
  pub from_zero : exe.header.code.virtual_addr ≡ 0
  pub countable : size_of exe.header < 2 ^ 31
  pub bounded : IsBounded exe

abbrev pub pages_of : Executable → ℕ
pages_of exe = div_round_up (size_of exe.header) page_size

-- A program got the frames `fs`, which were free, and nothing outside them changed.
pub record Loaded (exe : Executable) (m : List ℕ) (b : Bitmap) (fs m' : List ℕ) (b' : Bitmap)
    : Type 0 where
  pub whole : IsWhole m' b'
  pub count : length fs ≡ pages_of exe
  pub were_free : (f : ℕ) → among f fs ≡ true → (f < num_phys_pages) × (marked b f ≡ false)
  pub distinct : IsDistinct fs
  pub marks : (j : ℕ) → marked b' j ≡ among j fs || marked b j
  pub others : (j : ℕ) → among (j / page_size) fs ≡ false → get_elem? m' j ≡ get_elem? m j

-- What Load comes to: not enough frames are free and nothing changes, or the program is loaded.
pub data Loads (exe : Executable) (m : List ℕ) (b : Bitmap)
    (r : Outcome (Store × Option (List TranslationEntry))) : Type 0 where
  refused :
      count_clear (marked b) num_phys_pages 0 < pages_of exe
      → r ≡ ok (idle m b, none)
      → Loads exe m b r
  loaded :
      (fs m' : List ℕ) (b' : Bitmap)
      → pages_of exe ≤ count_clear (marked b) num_phys_pages 0
      → r ≡ ok (idle m' b', some (table_of 0 fs))
      → Loaded exe m b fs m' b'
      → Loads exe m b r

module _ (exe : Executable) (thread : ℕ) (m : List ℕ) (b : Bitmap) (p : IsProgram exe)
    (w : IsWhole m b) where
  counted : num_clear b ≡ ok (count_clear (marked b) num_phys_pages 0)
  counted =
      subst (λ t. num_clear b ≡ ok (count_clear (marked b) t 0)) w.frames_all
        (num_clear_lem b w.frames_wf)

  load_enough :
      pages_of exe ≤ count_clear (marked b) num_phys_pages 0
      → (fs m' : List ℕ) × (b' : Bitmap) × (load_pages exe
            (pages_of exe)
            (idle m b).addr_lock
            (idle m b)
          ≡ ok (idle m' b', some (table_of 0 fs)))
        × Loaded exe m b fs m' b'
  unfolding load_pages
  load_enough enough =
      let (fs, m1, b', e, n, t) =
        set_up_pages-Takes (pages_of exe) 0 m b w.frames_wf
          (omega (arith, w.frames_all, w.memory_all))
          (subst (λ t. pages_of exe ≤ count_clear (marked b) t 0) (sym w.frames_all) enough) in
      let in_memory : (f : ℕ) → among f fs ≡ true → f < num_phys_pages =
        λ f a. omega (arith, (t.were_free f a).0, w.frames_all) in
      let (m2, e2, c) =
        copy_segments-Within exe fs p.bounded m1
          (λ f a. omega (arith, in_memory f a, t.same_size, w.memory_all)) (omega (arith, n)) in
      (
        fs,
        m2,
        b',
        simp p.from_zero (rw (e, e2) refl),
        record {
          whole = record {
            frames_wf = t.keeps_wf;
            frames_all = t.same_bits ∙ w.frames_all;
            memory_all = c.same_size ∙ (t.same_size ∙ w.memory_all);
          };
          count = n;
          were_free = λ f a. (in_memory f a, (t.were_free f a).1);
          distinct = t.distinct;
          marks = t.marks;
          others = λ j h. c.others j h ∙ t.others j h;
        },
      )

  pub load_fits :
      pages_of exe ≤ count_clear (marked b) num_phys_pages 0
      → (fs m' : List ℕ) × (b' : Bitmap) × (load (some exe) thread (idle m b)
          ≡ ok (idle m' b', some (table_of 0 fs)))
        × Loaded exe m b fs m' b'
  unfolding load p_round v
  load_fits enough =
      let (fs, m', b', e, l) = load_enough enough in
      let long : ltb (count_clear (marked b) num_phys_pages 0) (pages_of exe) ≡ false =
        ground (arith, enough) in
      (fs, m', b', ground (arith, p.magic, p.countable, counted, long, e), l)

  -- Load of a program of countable size with its code at address 0: if fewer frames are free than
  -- it has pages, it answers FALSE and changes nothing; else every page gets a frame of its own
  -- that was free, the frames are marked, no byte outside them changes, and the lock is free again.
  pub load-Loads : Loads exe m b (load (some exe) thread (idle m b))
  unfolding load p_round v
  load-Loads = elim (Bool-cases (ltb (count_clear (marked b) num_phys_pages 0) (pages_of exe))) [
    | inl short ↦ refused (ground arith) (ground (arith, p.magic, p.countable, counted, short))
    | inr long ↦
        let (fs, m', b', e, l) = load_fits (ground arith) in loaded fs m' b' (ground arith) e l
  ]

-- The page table of a program leads to its frames only.
table_of-frame :
    (fs : List ℕ) (i : ℕ) (e : TranslationEntry)
    → ((f : ℕ) → among f fs ≡ true → f < num_phys_pages)
    → get_elem? (table_of 0 fs) i ≡ some e
    → among (frame_of e) fs ≡ true
table_of-frame fs i e small h =
    let inside = get_elem?_inside (table_of 0 fs) i e h in
    let (f, e', a) = table_of_at fs 0 i (omega (arith, inside, length-table_of fs 0)) in
    let same : fresh_entry (0 + i) (pos f) ≡ e = ground (arith, h, e') in
    let frame : f % 2 ^ 32 ≡ frame_of e = ap frame_of same in
    let fits : f % 2 ^ 32 ≡ f = omega (arith, small f a) in
    subst (λ t. among t fs ≡ true) (sym fits ∙ frame) a

Loaded-isolates :
    (exe : Executable) (m : List ℕ) (b : Bitmap) (fs m' : List ℕ) (b' : Bitmap) (j : ℕ)
    (regs : List ℤ) (va size : ℕ) (value : ℤ)
    → Loaded exe m b fs m' b'
    → marked b (j / page_size) ≡ true
    → IsSize size
    → IsRegs regs
    → (get_elem? m' j ≡ get_elem? m j)
      × ((write_mem (paged m' regs (table_of 0 fs)) va size value ≡ err halted)
          ⊎ ((after : Machine) × (write_mem (paged m' regs (table_of 0 fs)) va size value
                ≡ ok (after, true))
              × (get_elem? after.main_memory j ≡ get_elem? m j)))
Loaded-isolates exe m b fs m' b' j regs va size value l taken sized r = (
  kept,
  elim (write_mem-isolates m' regs (table_of 0 fs) va size sized r value j foreign) [
    | inl h ↦ inl h
    | inr (after, e, same) ↦ inr (after, e, same ∙ kept)
  ],
)
  where
    elsewhere : among (j / page_size) fs ≡ false
    elsewhere = elim (Bool-cases (among (j / page_size) fs)) [
      | inl a ↦ absurd (ground (arith, l.were_free (j / page_size) a, taken))
      | inr a ↦ a
    ]

    kept : get_elem? m' j ≡ get_elem? m j
    kept = l.others j elsewhere

    foreign :
        (i : ℕ) (e : TranslationEntry)
        → get_elem? (table_of 0 fs) i ≡ some e
        → j / page_size ≢ frame_of e
    foreign i e h same =
        let own = table_of-frame fs i e (λ f a. (l.were_free f a).0) h in
        absurd (ground (arith, subst (λ t. among t fs ≡ true) (sym same) own, elsewhere))

-- What a Load left in the memory, and the table that it made.
abbrev memory_after : Outcome (Store × Option (List TranslationEntry)) → List ℕ
memory_after (ok (s, t)) = s.main_memory
memory_after (err e) = []

abbrev table_after : Outcome (Store × Option (List TranslationEntry)) → List TranslationEntry
table_after (ok (s, some t)) = t
table_after _ = []

-- A byte in a frame that is marked before a program is loaded keeps its value while the program is
-- loaded, and through any one store that the loaded program makes with its page table, which halts
-- the machine or succeeds.
pub load-isolates :
    (exe : Executable) (thread : ℕ) (m : List ℕ) (b : Bitmap) (s : Store)
    (table : List TranslationEntry) (j : ℕ) (regs : List ℤ) (va size : ℕ) (value : ℤ)
    → IsProgram exe
    → IsWhole m b
    → load (some exe) thread (idle m b) ≡ ok (s, some table)
    → marked b (j / page_size) ≡ true
    → IsSize size
    → IsRegs regs
    → (get_elem? s.main_memory j ≡ get_elem? m j)
      × ((write_mem (paged s.main_memory regs table) va size value ≡ err halted)
          ⊎ ((after : Machine) × (write_mem (paged s.main_memory regs table) va size value
                ≡ ok (after, true))
              × (get_elem? after.main_memory j ≡ get_elem? m j)))
load-isolates exe thread m b s table j regs va size value p w e taken sized r =
    elim (load-Loads exe thread m b p w) [
      | refused few e' ↦ absurd (ground (arith, e, e'))
      | loaded fs m' b' enough e' l ↦
          let same = sym e' ∙ e in
          let memory : m' ≡ s.main_memory = ap memory_after same in
          let entries : table_of 0 fs ≡ table = ap table_after same in
          rw⁻¹ (memory, entries)
            (Loaded-isolates exe m b fs m' b' j regs va size value l taken sized r)
    ]
