-- ===== src/Cpu/Held.antt =====
-- Words of the memory as a user program sees them: ReadMem and WriteMem of machine/translate.cc at
-- the address of a word that the page table maps.
use nachos_assignment.Machine.{TranslationEntry, page_size, memory_size, num_phys_pages}
use nachos_assignment.Machine.Translate.{
  IsMapped, accessed, frame_of, paged, in_page, translate_mapped,
}
use nachos_assignment.Machine.Memory.{read_mem, write_mem, load_bytes, store_bytes}
use nachos_assignment.Machine.Memory.Bytes.{load_bytes-store_bytes, get_elem?-store_bytes_ne}
use nachos_assignment.Machine.Memory.Access.{place_of}
use nachos_assignment.Cpu.Words.{to_unsigned-lt}
use nachos_assignment.Base.{
  ◌&&◌, ℕ, zero, suc, ◌+◌, ◌*◌, ◌/◌, ◌%◌, ◌≤◌, ◌<◌, ◌≡◌, refl, sym, ap, ◌∙◌, subst, ◌⊎◌, inl, inr,
  Bool, true, false, some, List, arith, ◌==◌, Bool-cases, length, get_elem?, set,
  get_elem?-set_self, get_elem?-set_ne, get_elem?_inside, ℤ, to_unsigned, IsInt, to_int-to_unsigned,
  ok,
}

-- The program can read and write the word at the address `va`, which is `word` and lies at `place`
-- in the memory.
pub record Held (memory : List ℕ) (table : List TranslationEntry) (va place : ℕ) (word : ℤ)
    : Type 0 where
  pub e : TranslationEntry
  pub is_mapped : IsMapped table va 4 true e
  pub is_place : place_of e va ≡ place
  pub holds : load_bytes memory place 4 ≡ ok (to_unsigned word)
  pub is_int : IsInt word

-- An access of another page, or of the same one, keeps what is mapped.
kept_entry :
    (table : List TranslationEntry) (page va : ℕ) (e x : TranslationEntry) (writing : Bool)
    → get_elem? table page ≡ some e
    → IsMapped table va 4 true x
    → (y : TranslationEntry) × IsMapped (set table page (accessed e writing)) va 4 true y
      × (frame_of y ≡ frame_of x)
kept_entry table page va e x writing here h = elim (Bool-cases (va / page_size == page)) [
  | inl same ↦
      let eq : va / page_size ≡ page = ground arith in
      let twin : e ≡ x = ground (arith, here, h.here, eq) in
      (
        accessed e writing,
        record {
          here = rw eq (
              get_elem?-set_self table page (accessed e writing)
                (get_elem?_inside table page e here));
          is_valid = ap (λ t. t.valid) twin ∙ h.is_valid;
          permitted = ap (λ t. t.read_only && true) twin ∙ h.permitted;
          in_memory = subst (λ t. frame_of t < num_phys_pages) (sym twin) h.in_memory;
          fits = h.fits;
        },
        ap frame_of twin,
      )
  | inr other ↦ (
    x,
    record {
      here =
          get_elem?-set_ne table {i = page} {j = va / page_size} (accessed e writing)
            (λ eq. ground (arith, eq, other))
          ∙ h.here;
      is_valid = h.is_valid;
      permitted = h.permitted;
      in_memory = h.in_memory;
      fits = h.fits;
    },
    refl,
  )
]

pub Held-kept :
    (memory : List ℕ) (table : List TranslationEntry) (page va place : ℕ) (word : ℤ)
    (e : TranslationEntry) (writing : Bool)
    → get_elem? table page ≡ some e
    → Held memory table va place word
    → Held memory (set table page (accessed e writing)) va place word
Held-kept memory table page va place word e writing here h =
    let (y, mapped, frame) = kept_entry table page va e h.e writing here h.is_mapped in
    record {
      e = y;
      is_mapped = mapped;
      is_place = ap (λ t. t * page_size + va % page_size) frame ∙ h.is_place;
      holds = h.holds;
      is_int = h.is_int;
    }

-- The table after an access of the word.
abbrev pub table_after : List TranslationEntry → ℕ → TranslationEntry → Bool → List TranslationEntry
table_after table va e writing = set table (va / page_size) (accessed e writing)

pub read_held :
    (memory : List ℕ) (regs : List ℤ) (table : List TranslationEntry) (va place : ℕ) (word : ℤ)
    (h : Held memory table va place word)
    → read_mem (paged memory regs table) va 4
      ≡ ok (paged memory regs (table_after table va h.e false), true, word)
unfolding read_mem
read_held memory regs table va place word h =
    let m : IsMapped table va 4 false h.e = record {
      here = h.is_mapped.here;
      is_valid = h.is_mapped.is_valid;
      permitted = ground arith;
      in_memory = h.is_mapped.in_memory;
      fits = h.is_mapped.fits;
    } in
    rw (
      translate_mapped memory regs table va 4 false (inr (inr refl)) h.e m,
      h.is_place,
      h.holds,
      to_int-to_unsigned word h.is_int,
    )

-- What is at another place stays.
load_bytes-kept :
    (memory : List ℕ) (pa size word from count : ℕ)
    → (from + count ≤ pa) ⊎ (pa + size ≤ from)
    → load_bytes (store_bytes memory pa size word) from count ≡ load_bytes memory from count
unfolding load_bytes
load_bytes-kept memory pa size word from zero h = refl
load_bytes-kept memory pa size word from (suc count) h =
    rw
      (
        get_elem?-store_bytes_ne memory pa size word from (omega arith),
        load_bytes-kept memory pa size word (from + 1) count (omega arith),
      )
      refl

pub write_held :
    (memory : List ℕ) (regs : List ℤ) (table : List TranslationEntry) (va place : ℕ) (word : ℤ)
    (value : ℤ) (h : Held memory table va place word)
    → write_mem (paged memory regs table) va 4 value
      ≡ ok (
        paged (store_bytes memory place 4 (to_unsigned value)) regs (table_after table va h.e true),
        true,
      )
unfolding write_mem
write_held memory regs table va place word value h =
    rw (translate_mapped memory regs table va 4 true (inr (inr refl)) h.e h.is_mapped, h.is_place)
      refl

-- The word that was written, and one at another place.
pub Held-written :
    (memory : List ℕ) (table : List TranslationEntry) (va place : ℕ) (word value : ℤ)
    (h : Held memory table va place word)
    → length memory ≡ memory_size
    → IsInt value
    → Held
        (store_bytes memory place 4 (to_unsigned value))
        (table_after table va h.e true)
        va
        place
        value
Held-written memory table va place word value h full int =
    let k = Held-kept memory table (va / page_size) va place word h.e true h.is_mapped.here h in
    record {
      e = k.e;
      is_mapped = k.is_mapped;
      is_place = k.is_place;
      holds =
          load_bytes-store_bytes memory place 4 (to_unsigned value) (
            omega (
              arith,
              full,
              h.is_place,
              in_page va 4 (inr (inr refl)) h.is_mapped.fits,
              h.is_mapped.in_memory,
            ))
          ∙ ap (λ t. ok t) (omega (arith, to_unsigned-lt value));
      is_int = int;
    }

pub Held-beside :
    (memory : List ℕ) (table : List TranslationEntry) (va place va' place' : ℕ)
    (word value word' : ℤ) (h : Held memory table va place word)
    → (place' + 4 ≤ place) ⊎ (place + 4 ≤ place')
    → Held memory table va' place' word'
    → Held
        (store_bytes memory place 4 (to_unsigned value))
        (table_after table va h.e true)
        va'
        place'
        word'
Held-beside memory table va place va' place' word value word' h apart h' =
    let k = Held-kept memory table (va / page_size) va' place' word' h.e true h.is_mapped.here h' in
    record {
      e = k.e;
      is_mapped = k.is_mapped;
      is_place = k.is_place;
      holds = load_bytes-kept memory place 4 (to_unsigned value) place' 4 apart ∙ h'.holds;
      is_int = h'.is_int;
    }
