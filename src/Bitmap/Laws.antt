-- ===== src/Bitmap/Laws.antt =====
-- `Test`, `Mark` and `Clear` of lib/bitmap.cc against the view of a bitmap.
use nachos_assignment.Base.{
  ℕ, ◌-◌, ◌/◌, ◌%◌, ◌^◌, ◌≤◌, ◌<◌, ◌≡◌, inl, inr, refl, true, false, bit_and, bit_or, some, ok, err,
  aborted, Bool-cases, ◌∙◌, ℤ, pos, arith, ◌==◌, if◌then◌else◌, get_elem?, set, length, length-set,
  get_elem?-eq-get_or, get_or-set_self, get_or-set_ne,
}
use nachos_assignment.Bitmap.{Bitmap, bits_in_word, mask_of, in_range, test, mark, clear}
use nachos_assignment.Bitmap.Bits.{
  bit-le-one, bit-bit_or, bit-bit_and, bit-pow, bit-complement, bit_and-pow, bit_or-lt, bit_and-le,
}
use nachos_assignment.Bitmap.View.{word_of, marked, IsWf, Updates}
use native.Mathlib.Nat.{le_refl, one-le-pow, pow-le-pow_right}

mask_of-lt : (i : ℕ) → mask_of i < 2 ^ 32
mask_of-lt i = omega (arith, mask_le)
  where
    mask_le : 2 ^ (i % 32) ≤ 2 ^ 31
    mask_le = pow-le-pow_right {n = 2} (omega arith) {j = 31} (omega arith)

-- The word that holds a bit in range is there.
word_stored :
    (b : Bitmap) (i : ℕ)
    → IsWf b
    → i < b.num_bits
    → get_elem? b.map (i / bits_in_word) ≡ some (word_of b (i / bits_in_word))
word_stored b i wf h = get_elem?-eq-get_or b.map (i / 32) 0 (ground (arith, wf.words, wf.stored))

-- In range `Test` answers whether the bit is on.
pub test-marked : (b : Bitmap) (i : ℕ) → IsWf b → i < b.num_bits → test b (pos i) ≡ ok (marked b i)
unfolding test marked
test-marked b i wf h = ground (
  arith,
  word_stored b i wf h,
  bit_and-pow (word_of b (i / 32)) (i % 32),
  bit-le-one (word_of b (i / 32)) (i % 32),
  one-le-pow (i % 32) 2,
)

-- A store of one word.
abbrev put : Bitmap → ℕ → ℕ → Bitmap
put b k w = record b { map = set b.map k w }

word_of-put :
    (b : Bitmap) (k w m : ℕ)
    → k < length b.map
    → word_of (put b k w) m ≡ (if m == k then w else word_of b m)
word_of-put b k w m h = elim (Bool-cases (m == k)) [
  | inl e ↦ rw e (let same : m ≡ k = ground arith in rw same (get_or-set_self b.map k w 0 h))
  | inr ne ↦ rw ne (get_or-set_ne b.map k m w 0 (λ e. ground arith))
]

put-IsWf : (b : Bitmap) (k w : ℕ) → IsWf b → k < length b.map → w < 2 ^ 32 → IsWf (put b k w)
put-IsWf b k w wf h fits = record {
  words = wf.words;
  stored = length-set b.map k w ∙ wf.stored;
  narrow = λ m. ground (arith, word_of-put b k w m h, wf.narrow m);
}

marked-put_or :
    (b : Bitmap) (i j : ℕ)
    → i / 32 < length b.map
    → marked (put b (i / 32) (bit_or (word_of b (i / 32)) (mask_of i))) j
      ≡ (if j == i then true else marked b j)
unfolding marked
marked-put_or b i j h = ground (
  arith,
  word_of-put b (i / 32) (bit_or (word_of b (i / 32)) (mask_of i)) (j / 32) h,
  bit-bit_or (word_of b (i / 32)) (mask_of i) (j % 32),
  bit-pow (i % 32) (j % 32),
  bit-le-one (word_of b (j / 32)) (j % 32),
)

marked-put_and :
    (b : Bitmap) (i j : ℕ)
    → i / 32 < length b.map
    → marked (put b (i / 32) (bit_and (word_of b (i / 32)) (2 ^ 32 - 1 - mask_of i))) j
      ≡ (if j == i then false else marked b j)
unfolding marked
marked-put_and b i j h = ground (
  arith,
  word_of-put b (i / 32) (bit_and (word_of b (i / 32)) (2 ^ 32 - 1 - mask_of i)) (j / 32) h,
  bit-bit_and (word_of b (i / 32)) (2 ^ 32 - 1 - mask_of i) (j % 32),
  bit-complement 32 (mask_of i) (j % 32) (mask_of-lt i),
  bit-pow (i % 32) (j % 32),
  bit-le-one (word_of b (j / 32)) (j % 32),
)

-- On a well-formed bitmap Mark in range passes its assertions, turns its bit on, changes no other,
-- and keeps the bitmap well formed.
pub mark-Updates :
    (b : Bitmap) (i : ℕ)
    → IsWf b
    → i < b.num_bits
    → (b' : Bitmap) × (mark b (pos i) ≡ ok b') × Updates b i true b'
unfolding mark
mark-Updates b i wf h = (b', returns, updates)
  where
    inside : i / 32 < length b.map
    inside = ground (arith, wf.words, wf.stored)

    b' : Bitmap
    b' = put b (i / 32) (bit_or (word_of b (i / 32)) (mask_of i))

    updates : Updates b i true b'
    updates = record {
      keeps_wf =
          put-IsWf b (i / 32) _ wf inside
            (bit_or-lt 32 _ (mask_of i) (wf.narrow (i / 32)) (mask_of-lt i));
      same_size = refl;
      changed = λ j. marked-put_or b i j inside;
    }

    returns : mark b (pos i) ≡ ok b'
    returns =
        ground (arith, word_stored b i wf h, test-marked b' i updates.keeps_wf h, updates.changed i)

-- On a well-formed bitmap Clear in range passes its assertions, turns its bit off, changes no
-- other, and keeps the bitmap well formed.
pub clear-Updates :
    (b : Bitmap) (i : ℕ)
    → IsWf b
    → i < b.num_bits
    → (b' : Bitmap) × (clear b (pos i) ≡ ok b') × Updates b i false b'
unfolding clear
clear-Updates b i wf h = (b', returns, updates)
  where
    inside : i / 32 < length b.map
    inside = ground (arith, wf.words, wf.stored)

    b' : Bitmap
    b' = put b (i / 32) (bit_and (word_of b (i / 32)) (2 ^ 32 - 1 - mask_of i))

    fits : bit_and (word_of b (i / 32)) (2 ^ 32 - 1 - mask_of i) < 2 ^ 32
    fits = omega (
      arith,
      bit_and-le _ (word_of b (i / 32)) (2 ^ 32 - 1 - mask_of i) (le_refl _),
      wf.narrow (i / 32),
    )

    updates : Updates b i false b'
    updates = record {
      keeps_wf = put-IsWf b (i / 32) _ wf inside fits;
      same_size = refl;
      changed = λ j. marked-put_and b i j inside;
    }

    returns : clear b (pos i) ≡ ok b'
    returns =
        ground (arith, word_stored b i wf h, test-marked b' i updates.keeps_wf h, updates.changed i)

-- Outside its range every operation on one bit fails its assertion.
pub out_of_range :
    (b : Bitmap) (which : ℤ)
    → in_range b which ≡ false
    → (test b which ≡ err aborted) × (mark b which ≡ err aborted) × (clear b which ≡ err aborted)
unfolding test mark clear
out_of_range b which h = (rw h, rw h, rw h)
