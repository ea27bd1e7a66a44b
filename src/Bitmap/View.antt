-- ===== src/Bitmap/View.antt =====
-- What a bitmap of lib/bitmap.cc stands for: which of its bits are on. The well-formed bitmaps, and
-- what it is to change one bit and no other.
use nachos_assignment.Base.{
  ℕ, zero, suc, ◌+◌, ◌/◌, ◌%◌, ◌^◌, ◌<◌, ◌≡◌, Bool, ◌==◌, if◌then◌else◌, get_or, length,
}
use nachos_assignment.Bitmap.{Bitmap, bits_in_word, div_round_up}
use nachos_assignment.Bitmap.Bits.{bit}

abbrev pub word_of : Bitmap → ℕ → ℕ
word_of b k = get_or b.map k 0

unfoldable pub marked : Bitmap → ℕ → Bool
marked b i = bit (word_of b (i / bits_in_word)) (i % bits_in_word) == 1

-- There is a word for each bit, and a word has 32 bits.
pub record IsWf (b : Bitmap) : Type 0 where
  pub words : b.num_words ≡ div_round_up b.num_bits bits_in_word
  pub stored : length b.map ≡ b.num_words
  pub narrow : (k : ℕ) → word_of b k < 2 ^ 32

-- `b'` is `b` with bit `i` put to `v`.
pub record Updates (b : Bitmap) (i : ℕ) (v : Bool) (b' : Bitmap) : Type 0 where
  pub keeps_wf : IsWf b'
  pub same_size : b'.num_bits ≡ b.num_bits
  pub changed : (j : ℕ) → marked b' j ≡ (if j == i then v else marked b j)

-- How many of the `left` bits from `i` on are off.
unfoldable pub count_clear : (ℕ → Bool) → ℕ → ℕ → ℕ
count_clear on zero i = 0
count_clear on (suc left) i = (if on i then 0 else 1) + count_clear on left (i + 1)
