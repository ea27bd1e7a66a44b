-- ===== src/Cpu/PartWord.antt =====
-- LWL, LWR, SWL and SWR of machine/mipssim.cc at an address in a word that a user program holds.
use nachos_assignment.Machine.{TranslationEntry}
use nachos_assignment.Machine.Translate.{paged}
use nachos_assignment.Machine.Memory.{load_reg, load_value_reg, store_bytes}
use nachos_assignment.Bitmap.Bits.{bit_and-three}
use nachos_assignment.Cpu.{sub_int}
use nachos_assignment.Cpu.Effects.{done, load_part, store_part, store_cell, byte_of, word_of}
use nachos_assignment.Cpu.Words.{to_unsigned-lt}
use nachos_assignment.Cpu.Held.{Held, Held-kept, read_held, write_held, table_after}
use nachos_assignment.Base.{
  ℕ, ◌+◌, ◌*◌, ◌^◌, ◌<◌, ◌≡◌, refl, ◌∙◌, true, false, some, List, arith, if◌then◌else◌, get_elem?,
  ℤ, pos, to_unsigned, to_int, same_int, ok,
}

-- The word and the byte of an address.
byte_lem : (va : ℤ) (w c : ℕ) → to_unsigned va ≡ 4 * w + c → c < 4 → byte_of va ≡ c
byte_lem va w c e small = bit_and-three (to_unsigned va) ∙ omega (arith, e)

to_unsigned-to_int : (n : ℕ) → n < 2 ^ 32 → to_unsigned (to_int n) ≡ n
to_unsigned-to_int n h = ground arith

word_lem :
    (va : ℤ) (w c : ℕ) → to_unsigned va ≡ 4 * w + c → c < 4 → to_unsigned (word_of va) ≡ 4 * w
unfolding sub_int
word_lem va w c e small =
    let b : byte_of va ≡ c = byte_lem va w c e small in
    to_unsigned-to_int _ (omega arith) ∙ omega (arith, b, e, small, to_unsigned-lt va)

module _ (memory : List ℕ) (regs : List ℤ) (table : List TranslationEntry) (w c place : ℕ)
    (word va : ℤ) (h : Held memory table (4 * w) place word) (address : to_unsigned va ≡ 4 * w + c)
    (small : c < 4) where
  -- LWL and LWR of an address in a word.
  pub part_loads :
      (merge : ℕ → ℤ → ℤ → ℤ) (rt : ℕ) (after target loading current : ℤ)
      → get_elem? regs load_reg ≡ some target
      → get_elem? regs load_value_reg ≡ some loading
      → get_elem? regs rt ≡ some current
      → load_part merge (paged memory regs table) va rt after
        ≡ ok (
            done
              (paged memory regs (table_after table (4 * w) h.e false))
              after
              rt
              (merge c (if same_int target (pos rt) then loading else current) word))
  unfolding load_part
  part_loads merge rt after target loading current t l cur =
      rw
        (
          word_lem va w c address small,
          read_held memory regs table (4 * w) place word h,
          t,
          l,
          cur,
          byte_lem va w c address small,
        )
        refl

  pub again : Held memory (table_after table (4 * w) h.e false) (4 * w) place word
  again = Held-kept memory table _ (4 * w) place word h.e false h.is_mapped.here h

  -- SWL and SWR of an address in a word.
  pub part_stores :
      (merge : ℕ → ℤ → ℤ → ℤ) (source after : ℤ)
      → store_part merge (paged memory regs table) va source after
        ≡ ok (
            done
              (paged
                (store_bytes memory place 4 (to_unsigned (merge c word source)))
                regs
                (table_after (table_after table (4 * w) h.e false) (4 * w) again.e true))
              after
              0
              (pos 0))
  unfolding store_part store_cell
  part_stores merge source after =
      rw
        (
          word_lem va w c address small,
          read_held memory regs table (4 * w) place word h,
          byte_lem va w c address small,
          write_held memory regs _ (4 * w) place word (merge c word source) again,
        )
        refl
