-- ===== src/Cpu/User.antt =====
-- The machine while a user program runs on it, as machine/mipssim.cc sees it between two accesses
-- to the memory: what every instruction relies on and keeps.
use nachos_assignment.Machine.{TranslationEntry, page_size, memory_size, num_total_regs}
use nachos_assignment.Machine.Translate.{IsSize, accessed, frame_of}
use nachos_assignment.Machine.Memory.{load_reg, load_bytes, store_bytes, value_of}
use nachos_assignment.Machine.Memory.Access.{IsRegs}
use nachos_assignment.Cpu.Words.{to_int-IsInt}
use native.Mathlib.Nat.{pow-suc}
use nachos_assignment.Base.{
  ℕ, zero, suc, ◌+◌, ◌-◌, ◌*◌, ◌/◌, ◌%◌, ◌^◌, ◌≤◌, ◌<◌, ◌≡◌, refl, sym, ap, ◌∙◌, subst, ◌≢◌, ◌⊎◌,
  inl, inr, Bool, some, List, [], ◌∷◌, arith, ltb, Bool-cases, length, get_elem?, set, length-set,
  get_elem?-set_ne, get_elem?-some, ℤ, pos, negsuc, to_unsigned, to_int, IsInt, ok,
}

-- Forty registers that hold `int`s, and a delayed load into a general one.
pub record IsRegisters (regs : List ℤ) : Type 0 where
  pub all : length regs ≡ num_total_regs
  pub ints : (k : ℕ) (v : ℤ) → get_elem? regs k ≡ some v → IsInt v
  pub target : ℤ
  pub pending : get_elem? regs load_reg ≡ some target
  pub is_register : to_unsigned target < 32

pub IsRegs-of : (regs : List ℤ) → IsRegisters regs → IsRegs regs
IsRegs-of regs r = record {
  all = r.all;
  target = r.target;
  pending = r.pending;
  is_register = omega (arith, r.is_register);
}

-- The bytes below `top` of a list, all of them bytes.
abbrev pub IsBytes : List ℕ → Type 0
IsBytes memory = (k b : ℕ) → get_elem? memory k ≡ some b → b < 256

-- No page of the table has the byte `j` of the memory.
abbrev pub IsForeign : ℕ → List TranslationEntry → Type 0
IsForeign j table =
    (k : ℕ) (e : TranslationEntry) → get_elem? table k ≡ some e → j / page_size ≢ frame_of e

-- A machine on which a program runs that has not the byte `j`, which holds `byte`.
pub record IsUser (j byte : ℕ) (memory : List ℕ) (regs : List ℤ) (table : List TranslationEntry)
    : Type 0 where
  pub full : length memory ≡ memory_size
  pub bytes : IsBytes memory
  pub untouched : get_elem? memory j ≡ some byte
  pub is_registers : IsRegisters regs
  pub foreign : IsForeign j table

-- An element of a list after a write is the one written or one that was there.
pub set-elem {ℓ} :
    {A : Type ℓ} (xs : List A) (i k : ℕ) (v w : A)
    → get_elem? (set xs i v) k ≡ some w
    → (w ≡ v) ⊎ (get_elem? xs k ≡ some w)
set-elem [] i k v w h = inr h
set-elem (x ∷ xs) zero zero v w h = inl (ground (arith, h))
set-elem (x ∷ xs) zero (suc k) v w h = inr h
set-elem (x ∷ xs) (suc i) zero v w h = inr h
set-elem (x ∷ xs) (suc i) (suc k) v w h = set-elem xs i k v w h

-- An access that marks a page keeps the frames of the table.
pub accessed-IsForeign :
    (j : ℕ) (table : List TranslationEntry) (page : ℕ) (e : TranslationEntry) (writing : Bool)
    → get_elem? table page ≡ some e
    → IsForeign j table
    → IsForeign j (set table page (accessed e writing))
accessed-IsForeign j table page e writing here f k e' h =
    elim (set-elem table page k (accessed e writing) e' h) [
      | inl same ↦ λ clash. f page e here (clash ∙ ap frame_of same)
      | inr old ↦ f k e' old
    ]

pub set-IsRegisters :
    (regs : List ℤ) (num : ℕ) (value : ℤ)
    → IsRegisters regs
    → IsInt value
    → num ≢ load_reg
    → IsRegisters (set regs num value)
set-IsRegisters regs num value r int other = record {
  all = length-set regs num value ∙ r.all;
  ints = λ k v h. elim (set-elem regs num k value v h) [
    | inl same ↦ subst IsInt (sym same) int
    | inr old ↦ r.ints k v old
  ];
  target = r.target;
  pending = get_elem?-set_ne regs {i = num} {j = load_reg} value other ∙ r.pending;
  is_register = r.is_register;
}

pub store_bytes-IsBytes :
    (memory : List ℕ) (pa size word : ℕ)
    → IsBytes memory
    → IsBytes (store_bytes memory pa size word)
unfolding store_bytes
store_bytes-IsBytes memory pa zero word h = h
store_bytes-IsBytes memory pa (suc size) word h =
    store_bytes-IsBytes (set memory pa (word % 256)) (pa + 1) size (word / 256) one
  where
    one : IsBytes (set memory pa (word % 256))
    one k b here = elim (set-elem memory pa k (word % 256) b here) [
      | inl same ↦ omega (arith, same)
      | inr old ↦ h k b old
    ]

pub load_bytes-lt :
    (memory : List ℕ) (pa size : ℕ)
    → IsBytes memory
    → pa + size ≤ length memory
    → (raw : ℕ) × (load_bytes memory pa size ≡ ok raw) × (raw < 256 ^ size)
unfolding load_bytes
load_bytes-lt memory pa zero bytes h = (0, refl, omega arith)
load_bytes-lt memory pa (suc size) bytes h =
    let (low, l) = get_elem?-some memory pa (omega arith) in
    let (high, e, small) = load_bytes-lt memory (pa + 1) size bytes (omega arith) in
    (low + 256 * high, rw (l, e) refl, omega (arith, pow-suc 256 size, bytes pa low l, small))

pub value_of-IsInt :
    (size raw : ℕ) → IsSize size → raw < 256 ^ size → (v : ℤ) × (value_of size raw ≡ ok v) × IsInt v
value_of-IsInt size raw (inl e) h =
    let h' : raw < 256 ^ 1 = subst (λ t. raw < 256 ^ t) e h in
    rw e (elim (Bool-cases (ltb raw 128)) [
      | inl small ↦ (pos raw, ground arith, ground arith)
      | inr big ↦ (negsuc (255 - raw), ground arith, ground arith)
    ])
value_of-IsInt size raw (inr (inl e)) h =
    let h' : raw < 256 ^ 2 = subst (λ t. raw < 256 ^ t) e h in
    (pos raw, ground (arith, e), ground arith)
value_of-IsInt size raw (inr (inr e)) h =
    let h' : raw < 256 ^ 4 = subst (λ t. raw < 256 ^ t) e h in
    (to_int raw, ground (arith, e), to_int-IsInt raw (omega (arith, h')))
