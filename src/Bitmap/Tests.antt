-- ===== src/Bitmap/Tests.antt =====
-- Runs of lib/bitmap.cc on small bitmaps, and the theorems at them.
use nachos_assignment.Bitmap.{
  num_clear_from, find_and_set_from, Bitmap, test, mark, clear, find_and_set, num_clear, self_test,
}
use nachos_assignment.Bitmap.View.{marked, IsWf, count_clear}
use nachos_assignment.Bitmap.Loops.{Finds, find_and_set-Finds, num_clear_lem}
use nachos_assignment.Bitmap.SelfTest.{IsEmpty, self_test_passes}
use nachos_assignment.Bitmap.Bits.{bit}
use nachos_assignment.Base.{
  ℕ, zero, suc, ◌^◌, ◌<◌, ◌≡◌, refl, true, false, [], ◌∷◌, arith, every, every-test, agree,
  agree_eq, get_or, pos, minus_one, aborted, ok, err,
}

-- Bits 0, 2 and 33 of 40.
abbrev sparse : Bitmap
sparse = record { num_bits = 40; num_words = 2; map = 5 ∷ 2 ∷ [] }

abbrev blank_40 : Bitmap
blank_40 = record { num_bits = 40; num_words = 2; map = 0 ∷ 0 ∷ [] }

two_words : (a b k : ℕ) → a < 2 ^ 32 → b < 2 ^ 32 → get_or (a ∷ b ∷ []) k 0 < 2 ^ 32
two_words a b zero ha hb = ha
two_words a b (suc zero) ha hb = hb
two_words a b (suc (suc k)) ha hb = omega arith

sparse-IsWf : IsWf sparse
sparse-IsWf = record {
  words = refl;
  stored = refl;
  narrow = λ k. two_words 5 2 k (omega arith) (omega arith);
}

blank_40-IsWf : IsWf blank_40
blank_40-IsWf = record {
  words = refl;
  stored = refl;
  narrow = λ k. two_words 0 0 k (omega arith) (omega arith);
}

marks_across_words : mark sparse (pos 39) ≡ ok (record sparse { map = 5 ∷ 130 ∷ [] })
unfolding mark test
marks_across_words = refl

clears_across_words : clear sparse (pos 33) ≡ ok (record sparse { map = 5 ∷ 0 ∷ [] })
unfolding clear test
clears_across_words = refl

refuses_minus_one : mark sparse minus_one ≡ err aborted
unfolding mark
refuses_minus_one = refl

finds_the_gap : find_and_set sparse ≡ ok (record sparse { map = 7 ∷ 2 ∷ [] }, pos 1)
unfolding find_and_set find_and_set_from mark test
finds_the_gap = refl

counts_the_rest : num_clear sparse ≡ ok 37
unfolding num_clear num_clear_from test
counts_the_rest = refl

blank_is_empty : (j : ℕ) → j < 40 → marked blank_40 j ≡ false
blank_is_empty j h =
    agree_eq (marked blank_40 j) false
      (every-test (λ i. agree (marked blank_40 i) false) 40 j all_clear h)
  where
    all_clear : every (λ i. agree (marked blank_40 i) false) 40 ≡ true
    all_clear = unfold every marked bit in refl

find_and_set-Finds_example : Finds sparse 0 40 (find_and_set sparse)
find_and_set-Finds_example = find_and_set-Finds sparse sparse-IsWf

num_clear_lem_example : num_clear sparse ≡ ok (count_clear (marked sparse) 40 0)
num_clear_lem_example = num_clear_lem sparse sparse-IsWf

self_test_passes_example :
    (b' : Bitmap) × (self_test blank_40 ≡ ok b') × (b'.num_bits ≡ 40) × IsEmpty b'
self_test_passes_example = self_test_passes blank_40 blank_40-IsWf (omega arith) blank_is_empty
