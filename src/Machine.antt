-- ===== src/Machine.antt =====
-- machine/machine.h, machine/translate.h and machine/translate.cc: the memory and the registers of
-- the simulated machine, and the translation of addresses. An address is its 32 bits as a number.
-- The host is little-endian with a signed `char`, so that WordToHost and ShortToHost change nothing.
pub mod Translate
pub mod Memory
pub mod Tests
use nachos_assignment.Base.{
  ◌&&◌, ◌||◌, not, ℕ, zero, suc, ◌+◌, ◌-◌, ◌*◌, ◌/◌, ◌%◌, ◌^◌, ◌≤◌, ◌<◌, min, max, bit_and, bit_or,
  ◌≡◌, refl, sym, ap, ap₂, ◌∙◌, subst, fun_ext, ◌≢◌, ◌↔◌, ◌⊎◌, inl, inr, Bool, true, false, Option,
  none, some, List, [], ◌∷◌, ◌++◌, map, arith, ltb, leb, ◌==◌, if◌then◌else◌, ltb→lt, lt→ltb,
  leb→le, ==_iff, tests, Bool-cases, Option-cases, every, every-test, agree, agree_eq, length,
  get_elem?, set, get_or, take, drop, replicate, length-append, length-set, get_elem?-set_self,
  get_elem?-set_ne, take-append-drop, length-take, length-drop, length-replicate, length-map,
  get_elem?-eq-get_or, get_or-set_self, get_or-set_ne, get_or-replicate, get_elem?-none,
  get_elem?-some, get_elem?_beyond, get_elem?_inside, drop_all, drop_step, ℤ, pos, negsuc, pos_part,
  neg_part, sub_ℕ, neg_ℤ, ltb_ℤ, to_unsigned, to_int, IsInt, to_int-to_unsigned, minus_one, Name,
  same_name, same_name_eq, same_name_refl, Stop, aborted, halted, undefined, Outcome, ok, err,
  ◌>>=◌, ◌>>◌, assert, deref, at, Name, same_name, same_name_eq, same_name_refl,
}

abbrev pub page_size : ℕ
page_size = 512

abbrev pub num_phys_pages : ℕ
num_phys_pages = 512

abbrev pub memory_size : ℕ
memory_size = num_phys_pages * page_size

abbrev pub num_total_regs : ℕ
num_total_regs = 40

pub data ExceptionType : Type 0 where
  no_exception : ExceptionType
  syscall_exception : ExceptionType
  page_fault_exception : ExceptionType
  read_only_exception : ExceptionType
  bus_error_exception : ExceptionType
  address_error_exception : ExceptionType
  overflow_exception : ExceptionType
  illegal_instr_exception : ExceptionType
  num_exception_types : ExceptionType

pub record TranslationEntry : Type 0 where
  pub virtual_page : ℤ
  pub physical_page : ℤ
  pub valid : Bool
  pub read_only : Bool
  pub in_use : Bool
  pub dirty : Bool

-- `page_table` holds as many entries as `pageTableSize` says; a NULL pointer is `none`.
pub record Machine : Type 0 where
  pub main_memory : List ℕ
  pub registers : List ℤ
  pub tlb : Option (List TranslationEntry)
  pub page_table : Option (List TranslationEntry)

abbrev pub is_null {ℓ} : {A : Type ℓ} → Option A → Bool
is_null none = true
is_null (some a) = false

unfoldable pub read_register : Machine → ℕ → Outcome ℤ
read_register m num = do assert (ltb num num_total_regs); at m.registers num

unfoldable pub write_register : Machine → ℕ → ℤ → Outcome Machine
write_register m num value = do
  assert (ltb num num_total_regs)
  ok (record m { registers = set m.registers num value })

-- The entry that translates a page, by its place in the table, or the exception for want of one.
pub data Lookup : Type 0 where
  entry : ℕ → TranslationEntry → Lookup
  missing : ExceptionType → Lookup

unfoldable pub in_page_table : List TranslationEntry → ℕ → Lookup
in_page_table table vpn = elim (get_elem? table vpn) [
  | none ↦ missing address_error_exception
  | some e ↦ if e.valid then entry vpn e else missing page_fault_exception
]

abbrev pub maps_page : TranslationEntry → ℕ → Bool
maps_page e vpn = e.valid && elim e.virtual_page [ pos p ↦ p == vpn | negsuc p ↦ false ]

-- The loop over the TLB, from its slot `i` on.
pub in_tlb : List TranslationEntry → ℕ → ℕ → Lookup
in_tlb [] i vpn = missing page_fault_exception
in_tlb (e ∷ rest) i vpn = if maps_page e vpn then entry i e else in_tlb rest (suc i) vpn

-- ((size == 4) && (virtAddr & 0x3)) || ((size == 2) && (virtAddr & 0x1))
abbrev pub misaligned : ℕ → ℕ → Bool
misaligned size va =
    (size == 4 && not (bit_and va 3 == 0)) || (size == 2 && not (bit_and va 1 == 0))

pub data Translation : Type 0 where
  translated : ℕ → Machine → Translation
  raised : ExceptionType → Translation

-- The end of Translate, with the entry found; `mend` stores the entry back into its table.
unfoldable pub use_entry :
    (TranslationEntry → Machine) → ℕ → ℕ → Bool → TranslationEntry → Outcome Translation
use_entry mend offset size writing e =
    let frame = to_unsigned e.physical_page in
    let marked = record e { in_use = true; dirty = e.dirty || writing } in
    if e.read_only && writing
    then ok (raised read_only_exception)
    else if leb num_phys_pages frame
    then ok (raised bus_error_exception)
    else (assert (leb (frame * page_size + offset + size) memory_size)
        >> ok (translated (frame * page_size + offset) (mend marked)))

unfoldable pub translate_by :
    (ℕ → TranslationEntry → Machine) → ℕ → ℕ → Bool → Lookup → Outcome Translation
translate_by mend offset size writing (missing x) = ok (raised x)
translate_by mend offset size writing (entry i e) = use_entry (mend i) offset size writing e

unfoldable pub translate : Machine → ℕ → ℕ → Bool → Outcome Translation
translate m va size writing =
    if misaligned size va
    then ok (raised address_error_exception)
    else (let vpn = va / page_size in
        let offset = va % page_size in
        do
          assert (is_null m.tlb || is_null m.page_table)
          assert (not (is_null m.tlb) || not (is_null m.page_table))
          elim m.tlb [
            | none ↦ deref m.page_table >>= λ table.
                translate_by (λ i e. record m { page_table = some (set table i e) }) offset size
                  writing (in_page_table table vpn)
            | some table ↦
                translate_by (λ i e. record m { tlb = some (set table i e) }) offset size writing
                  (in_tlb table 0 vpn)
          ])
