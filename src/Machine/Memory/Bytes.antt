-- ===== src/Machine/Memory/Bytes.antt =====
-- Words in the bytes of the memory (machine/translate.cc), written and read back.
use nachos_assignment.Machine.Memory.{load_bytes, store_bytes}
use native.Mathlib.Nat.{
  pow-suc, mod-eq_of_lt, mod-lt, one-le-pow, mul-add-mod_self_left, div-add-mod,
}
use nachos_assignment.Base.{
  ℕ, zero, suc, ◌+◌, ◌*◌, ◌/◌, ◌%◌, ◌^◌, ◌≤◌, ◌<◌, ◌≡◌, refl, sym, ap, ◌∙◌, ◌⊎◌, some, List, arith,
  length, get_elem?, set, length-set, get_elem?-set_self, get_elem?-set_ne, ok,
}

pub length-store_bytes :
    (memory : List ℕ) (pa size word : ℕ) → length (store_bytes memory pa size word) ≡ length memory
unfolding store_bytes
length-store_bytes memory pa zero word = refl
length-store_bytes memory pa (suc size) word =
    length-store_bytes (set memory pa (word % 256)) (pa + 1) size (word / 256)
    ∙ length-set memory pa (word % 256)

-- A store leaves alone what is before and behind its bytes.
pub get_elem?-store_bytes_ne :
    (memory : List ℕ) (pa size word j : ℕ)
    → (j < pa) ⊎ (pa + size ≤ j)
    → get_elem? (store_bytes memory pa size word) j ≡ get_elem? memory j
unfolding store_bytes
get_elem?-store_bytes_ne memory pa zero word j h = refl
get_elem?-store_bytes_ne memory pa (suc size) word j h =
    get_elem?-store_bytes_ne (set memory pa (word % 256)) (pa + 1) size (word / 256) j (omega arith)
    ∙ get_elem?-set_ne memory {i = pa} {j = j} (word % 256) (omega arith)

-- The lowest byte of a word beside the rest of it, on `size + 1` bytes.
byte_split : (size word : ℕ) → word % 256 + 256 * (word / 256 % 256 ^ size) ≡ word % 256 ^ suc size
byte_split size word =
    sym (
      mod-eq_of_lt
        (omega (arith, pow-suc 256 size, mod-lt (word / 256) (one-le-pow size 256 (omega arith)))))
    ∙ (sym (mul-add-mod_self_left (256 ^ suc size) (word / 256 / 256 ^ size) low)
        ∙ ap (λ (t : ℕ). t % 256 ^ suc size) whole)
  where
    low : ℕ
    low = word % 256 + 256 * (word / 256 % 256 ^ size)

    whole : 256 ^ suc size * (word / 256 / 256 ^ size) + low ≡ word
    whole = omega (
      arith,
      ap (λ (t : ℕ). t * (word / 256 / 256 ^ size)) (pow-suc 256 size),
      div-add-mod (word / 256) (256 ^ size),
    )

-- What is stored is read back, cut to the bytes written.
pub load_bytes-store_bytes :
    (memory : List ℕ) (pa size word : ℕ)
    → pa + size ≤ length memory
    → load_bytes (store_bytes memory pa size word) pa size ≡ ok (word % 256 ^ size)
unfolding load_bytes store_bytes
load_bytes-store_bytes memory pa zero word h = ground arith
load_bytes-store_bytes memory pa (suc size) word h =
    rw
      (
        first,
        load_bytes-store_bytes (set memory pa (word % 256)) (pa + 1) size (word / 256)
            (omega (arith, length-set memory pa (word % 256))),
      )
      (ap (λ (t : ℕ). ok t) (byte_split size word))
  where
    first :
        get_elem? (store_bytes (set memory pa (word % 256)) (pa + 1) size (word / 256)) pa
        ≡ some (word % 256)
    first =
        get_elem?-store_bytes_ne (set memory pa (word % 256)) (pa + 1) size (word / 256) pa
          (omega arith)
        ∙ get_elem?-set_self memory pa (word % 256) (omega arith)
