-- ===== src/Syscall/Strings/FromUser.antt =====
-- What User2System of userprog/ksyscall.h reads from the memory of a user program.
use nachos_assignment.Syscall.Strings.{address, read_user, user_to_system}
use nachos_assignment.Machine.{TranslationEntry, page_size, num_phys_pages}
use nachos_assignment.Machine.Translate.{IsMapped, accessed, frame_of, paged, translate_mapped}
use nachos_assignment.Machine.Memory.{read_mem, load_bytes, char_value}
use nachos_assignment.Base.{
  ℕ, zero, suc, ◌+◌, ◌-◌, ◌*◌, ◌/◌, ◌%◌, ◌≤◌, ◌<◌, ◌≡◌, refl, sym, ◌∙◌, subst, ◌≢◌, inl, inr, true,
  false, some, List, [], ◌∷◌, ◌++◌, arith, ◌==◌, if◌then◌else◌, Bool-cases, length, get_elem?, set,
  replicate, get_elem?-set_self, get_elem?-set_ne, get_elem?_inside, ℤ, pos, to_unsigned, same_int,
  ok,
}

-- The program may read the byte at `va`, which is `b`.
pub record IsByte (memory : List ℕ) (table : List TranslationEntry) (va b : ℕ) : Type 0 where
  pub page : TranslationEntry
  pub here : get_elem? table (va / page_size) ≡ some page
  pub is_valid : page.valid ≡ true
  pub in_memory : frame_of page < num_phys_pages
  pub byte : get_elem? memory (frame_of page * page_size + va % page_size) ≡ some b
  pub small : b < 256

read_byte :
    (memory : List ℕ) (regs : List ℤ) (table : List TranslationEntry) (va b : ℕ)
    → (h : IsByte memory table va b)
    → read_mem (paged memory regs table) va 1
      ≡ ok (
        paged memory regs (set table (va / page_size) (accessed h.page false)),
        true,
        char_value b,
      )
unfolding read_mem load_bytes
read_byte memory regs table va b h =
    let is_mapped : IsMapped table va 1 false h.page = record {
      here = h.here;
      is_valid = h.is_valid;
      permitted = ground arith;
      in_memory = h.in_memory;
      fits = omega arith;
    } in
    let alone : b + 256 * 0 ≡ b = omega arith in
    rw (translate_mapped memory regs table va 1 false (inl refl) h.page is_mapped, h.byte, alone)
      refl

-- Reading marks a page and changes no byte.
IsByte-accessed :
    (memory : List ℕ) (table : List TranslationEntry) (va other b c : ℕ)
    → (h : IsByte memory table va b) → IsByte memory table other c
    → IsByte memory (set table (va / page_size) (accessed h.page false)) other c
IsByte-accessed memory table va other b c h k =
    elim (Bool-cases (va / page_size == other / page_size)) [
      | inl e ↦
          let same : va / page_size ≡ other / page_size = ground arith in
          let inside = get_elem?_inside table (va / page_size) h.page h.here in
          let there : get_elem? table (va / page_size) ≡ some k.page =
            subst (λ t. get_elem? table t ≡ some k.page) (sym same) k.here in
          let one : h.page ≡ k.page = ground (arith, h.here, there) in
          record {
            page = accessed h.page false;
            here =
                subst
                  (λ t.
                    get_elem? (set table (va / page_size) (accessed h.page false)) t
                    ≡ some (accessed h.page false))
                  same (get_elem?-set_self table (va / page_size) (accessed h.page false) inside);
            is_valid = h.is_valid;
            in_memory = h.in_memory;
            byte =
                subst
                  (λ (p : TranslationEntry).
                    get_elem? memory (frame_of p * page_size + other % page_size) ≡ some c)
                  (sym one) k.byte;
            small = k.small;
          }
      | inr n ↦
          let apart : va / page_size ≢ other / page_size = ground arith in
          record {
            page = k.page;
            here =
                get_elem?-set_ne table {i = va / page_size} {j = other / page_size}
                  (accessed h.page false) apart
                ∙ k.here;
            is_valid = k.is_valid;
            in_memory = k.in_memory;
            byte = k.byte;
            small = k.small;
          }
    ]

-- The bytes up to the first 0, which is the last of them.
abbrev pub c_bytes : (ℕ → ℕ) → ℕ → ℕ → List ℕ
c_bytes peek zero i = []
c_bytes peek (suc left) i = peek i ∷ (if peek i == 0 then [] else c_bytes peek left (i + 1))

char_back : (b : ℕ) → b < 256 → to_unsigned (char_value b) % 256 ≡ b
char_back b h = ground arith

char_zero : (b : ℕ) → b < 256 → same_int (char_value b) (pos 0) ≡ (b == 0)
char_zero b h = ground arith

module _ (memory : List ℕ) (regs : List ℤ) (va : ℕ) (peek : ℕ → ℕ) where
  read_user_lem :
      (left i : ℕ) (table : List TranslationEntry)
      → ((j : ℕ) → i ≤ j → j < i + left → IsByte memory table (address va j) (peek j))
      → (table' : List TranslationEntry) × (read_user left i va (paged memory regs table)
          ≡ ok (paged memory regs table', c_bytes peek left i))
  unfolding read_user
  read_user_lem zero i table h = (table, refl)
  read_user_lem (suc left) i table h =
      let now = h i (omega arith) (omega arith) in
      let got = read_byte memory regs table (address va i) (peek i) now in
      let back = char_back (peek i) now.small in
      let stop = char_zero (peek i) now.small in
      let next = set table (address va i / page_size) (accessed now.page false) in
      elim (Bool-cases (peek i == 0)) [
        | inl e ↦ (next, rw (got, stop, e, back) refl)
        | inr n ↦
            let (table', rest) = read_user_lem left (i + 1) next (λ j a b.
              IsByte-accessed memory table (address va i) (address va j) (peek i) (peek j) now
                (h j (omega arith) (omega arith))) in
            (table', rw (got, stop, n, rest, back) refl)
      ]

  -- Where a program can read each of the bytes up to the limit from an address on, User2System
  -- answers with those up to the first 0, filled up with 0 to one byte more than the limit, and
  -- changes nothing but the page table.
  pub user_to_system_lem :
      (limit : ℕ) (table : List TranslationEntry)
      → ((j : ℕ) → j < limit → IsByte memory table (address va j) (peek j))
      → (table' : List TranslationEntry) × (user_to_system va limit (paged memory regs table)
          ≡ ok (
            paged memory regs table',
            c_bytes peek limit 0 ++ replicate (limit + 1 - length (c_bytes peek limit 0)) 0,
          ))
  unfolding user_to_system
  user_to_system_lem limit table h =
      let (table', e) = read_user_lem limit 0 table (λ j a b. h j (omega arith)) in
      (table', rw e refl)
