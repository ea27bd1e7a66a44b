-- ===== src/Syscall/Strings/Tests.antt =====
-- A short string in the memory of a user program.
use nachos_assignment.Syscall.Strings.{address, user_to_system}
use nachos_assignment.Syscall.Strings.FromUser.{IsByte, user_to_system_lem}
use nachos_assignment.Machine.{TranslationEntry}
use nachos_assignment.Machine.Translate.{paged}
use nachos_assignment.Base.{
  ℕ, zero, suc, ◌+◌, ◌/◌, ◌%◌, ◌<◌, ◌≡◌, refl, true, false, some, List, [], ◌∷◌, arith, get_elem?,
  get_or, pos, ok,
}

abbrev memory : List ℕ
memory = b'h' ∷ b'i' ∷ 0 ∷ b'x' ∷ []

abbrev first_page : TranslationEntry
first_page = record {
  virtual_page = pos 0;
  physical_page = pos 0;
  valid = true;
  read_only = true;
  in_use = false;
  dirty = false;
}

abbrev peek : ℕ → ℕ
peek k = get_or memory k 0

low_address-IsByte :
    (va b : ℕ)
    → va < 512
    → get_elem? memory va ≡ some b
    → b < 256
    → IsByte memory (first_page ∷ []) va b
low_address-IsByte va b low e small =
    let first : va / 512 ≡ 0 = omega arith in
    let place : 0 + va % 512 ≡ va = omega arith in
    record {
      page = first_page;
      here = rw first refl;
      is_valid = refl;
      in_memory = omega arith;
      byte = rw place e;
      small = small;
    }

readable : (j : ℕ) → j < 4 → IsByte memory (first_page ∷ []) (address 0 j) (peek j)
readable zero h = low_address-IsByte 0 b'h' (omega arith) refl (omega arith)
readable (suc zero) h = low_address-IsByte 1 b'i' (omega arith) refl (omega arith)
readable (suc (suc zero)) h = low_address-IsByte 2 0 (omega arith) refl (omega arith)
readable (suc (suc (suc zero))) h = low_address-IsByte 3 b'x' (omega arith) refl (omega arith)
readable (suc (suc (suc (suc j)))) h = absurd (omega arith)

user_to_system_lem_example :
    (table' : List TranslationEntry) × (user_to_system 0 4 (paged memory [] (first_page ∷ []))
      ≡ ok (paged memory [] table', b'h' ∷ b'i' ∷ 0 ∷ 0 ∷ 0 ∷ []))
user_to_system_lem_example = user_to_system_lem memory [] 0 peek 4 (first_page ∷ []) readable
