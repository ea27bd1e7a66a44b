-- ===== src/Bitmap.antt =====
-- lib/bitmap.h and lib/bitmap.cc: an array of bits, kept in 32-bit words. The constructor, `Mark`,
-- `Clear`, `Test`, `FindAndSet`, `NumClear` and `SelfTest`, with their ASSERTs.
pub mod Bits
pub mod View
pub mod Laws
pub mod Loops
pub mod SelfTest
pub mod Count
pub mod Tests
use nachos_assignment.Base.{
  ◌&&◌, ℕ, zero, suc, ◌+◌, ◌-◌, ◌/◌, ◌%◌, ◌^◌, bit_and, bit_or, Bool, true, false, not, List,
  Outcome, ok, err, aborted, ◌>>=◌, ◌>>◌, assert, at, ℤ, pos, negsuc, minus_one, ltb, leb, ◌==◌,
  if◌then◌else◌, set, length, replicate, Stop,
}

-- BitsInWord, with four bytes to an `unsigned int`.
abbrev pub bits_in_word : ℕ
bits_in_word = 32

-- divRoundUp(n, s) of lib/utility.h
abbrev pub div_round_up : ℕ → ℕ → ℕ
div_round_up n s = n / s + (if ltb 0 (n % s) then 1 else 0)

pub record Bitmap : Type 0 where
  pub num_bits : ℕ
  pub num_words : ℕ
  pub map : List ℕ

-- which >= 0 && which < numBits
abbrev pub in_range : Bitmap → ℤ → Bool
in_range b (pos i) = ltb i b.num_bits
in_range b (negsuc i) = false

-- The number of a bit that passed the assertion.
abbrev pub index : ℤ → ℕ
index (pos i) = i
index (negsuc i) = 0

-- 1 << (which % BitsInWord), as the `unsigned int` that it is turned into.
abbrev pub mask_of : ℕ → ℕ
mask_of i = 2 ^ (i % bits_in_word)

unfoldable pub test : Bitmap → ℤ → Outcome Bool
test b which = do
  assert (in_range b which)
  let i = index which
  word ← at b.map (i / bits_in_word)
  ok (not (bit_and word (mask_of i) == 0))

unfoldable pub mark : Bitmap → ℤ → Outcome Bitmap
mark b which = do
  assert (in_range b which)
  let i = index which
  word ← at b.map (i / bits_in_word)
  let b' = record b { map = set b.map (i / bits_in_word) (bit_or word (mask_of i)) }
  seen ← test b' which
  assert seen
  ok b'

-- `~` is taken on 32 bits.
unfoldable pub clear : Bitmap → ℤ → Outcome Bitmap
clear b which = do
  assert (in_range b which)
  let i = index which
  word ← at b.map (i / bits_in_word)
  let b' = record b {
    map = set b.map (i / bits_in_word) (bit_and word (2 ^ bits_in_word - 1 - mask_of i));
  }
  seen ← test b' which
  assert (not seen)
  ok b'

-- for (i = 0; i < n; i++) Op(i), with `left` rounds to go from `i`.
unfoldable pub sweep : (Bitmap → ℤ → Outcome Bitmap) → ℕ → ℕ → Bitmap → Outcome Bitmap
sweep op zero i b = ok b
sweep op (suc left) i b = do b' ← op b (pos i); sweep op left (i + 1) b'

-- Bitmap::Bitmap(numItems)
unfoldable pub new : ℤ → Outcome Bitmap
new (negsuc n) = err aborted
new (pos n) = do
  assert (ltb 0 n)
  let words = div_round_up n bits_in_word
  sweep clear n 0 (record { num_bits = n; num_words = words; map = replicate words 0 })

-- The loop of FindAndSet from `i`, with `left` rounds to go. The result is the bitmap and the
-- number of the bit, or -1.
unfoldable pub find_and_set_from : ℕ → ℕ → Bitmap → Outcome (Bitmap × ℤ)
find_and_set_from zero i b = ok (b, minus_one)
find_and_set_from (suc left) i b = do
  seen ← test b (pos i)
  let found : Outcome (Bitmap × ℤ) = mark b (pos i) >>= λ b'. ok (b', pos i)
  let rest = find_and_set_from left (i + 1) b
  if seen then rest else found

unfoldable pub find_and_set : Bitmap → Outcome (Bitmap × ℤ)
find_and_set b = find_and_set_from b.num_bits 0 b

unfoldable pub num_clear_from : ℕ → ℕ → ℕ → Bitmap → Outcome ℕ
num_clear_from zero i count b = ok count
num_clear_from (suc left) i count b = do
  seen ← test b (pos i)
  num_clear_from left (i + 1) (if seen then count else count + 1) b

unfoldable pub num_clear : Bitmap → Outcome ℕ
num_clear b = num_clear_from b.num_bits 0 0 b

-- x == n for an `int` x and a number n
abbrev pub is_int : ℤ → ℕ → Bool
is_int (pos i) n = i == n
is_int (negsuc i) n = false

abbrev pub is_minus_one : ℤ → Bool
is_minus_one (pos i) = false
is_minus_one (negsuc i) = i == 0

-- Bitmap::SelfTest
pub self_test : Bitmap → Outcome Bitmap
self_test b = do
  assert (leb bits_in_word b.num_bits)
  n ← num_clear b
  assert (n == b.num_bits)
  (b1, first) ← find_and_set b
  assert (is_int first 0)
  b2 ← mark b1 (pos 31)
  zeroth ← test b2 (pos 0)
  last ← test b2 (pos 31)
  assert (zeroth && last)
  (b3, second) ← find_and_set b2
  assert (is_int second 1)
  b4 ← clear b3 (pos 0)
  b5 ← clear b4 (pos 1)
  b6 ← clear b5 (pos 31)
  b7 ← sweep mark b6.num_bits 0 b6
  (b8, full) ← find_and_set b7
  assert (is_minus_one full)
  sweep clear b8.num_bits 0 b8
