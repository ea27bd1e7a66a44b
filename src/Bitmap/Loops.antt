-- ===== src/Bitmap/Loops.antt =====
-- The loops of lib/bitmap.cc over the bits: the constructor's, `FindAndSet` and `NumClear`.
use nachos_assignment.Bitmap.{
  Bitmap, bits_in_word, div_round_up, clear, sweep, new, find_and_set_from, find_and_set,
  num_clear_from, num_clear,
}
use nachos_assignment.Bitmap.View.{marked, IsWf, Updates, count_clear}
use nachos_assignment.Bitmap.Laws.{test-marked, mark-Updates, clear-Updates}
use nachos_assignment.Base.{
  ◌&&◌, ℕ, zero, suc, ◌+◌, ◌≤◌, ◌<◌, ◌≡◌, refl, ◌∙◌, ◌⊎◌, inl, inr, Bool, true, false, arith, ltb,
  leb, if◌then◌else◌, lt→ltb, Bool-cases, replicate, length-replicate, get_or-replicate, ℤ, pos,
  minus_one, Outcome, ok,
}

-- `b'` is `b` with the `left` bits from `i` on put to `v`.
pub record Sweeps (b : Bitmap) (i left : ℕ) (v : Bool) (b' : Bitmap) : Type 0 where
  pub keeps_wf : IsWf b'
  pub same_size : b'.num_bits ≡ b.num_bits
  pub changed : (j : ℕ) → marked b' j ≡ (if leb i j && ltb j (i + left) then v else marked b j)

Sweeps-step :
    {b b' b'' : Bitmap} (i left : ℕ) (v : Bool)
    → Updates b i v b'
    → Sweeps b' (i + 1) left v b''
    → Sweeps b i (suc left) v b''
Sweeps-step i left v u s = record {
  keeps_wf = s.keeps_wf;
  same_size = s.same_size ∙ u.same_size;
  changed = λ j. ground (arith, s.changed j, u.changed j);
}

-- A loop over an operation that puts its bit to `v` puts the whole range to `v`.
module _ (op : Bitmap → ℤ → Outcome Bitmap) (v : Bool)
    (one : (b : Bitmap) (i : ℕ)
      → IsWf b
      → i < b.num_bits
      → (b' : Bitmap) × (op b (pos i) ≡ ok b') × Updates b i v b') where
  pub sweep-Sweeps :
      (left i : ℕ) (b : Bitmap)
      → IsWf b
      → i + left ≤ b.num_bits
      → (b' : Bitmap) × (sweep op left i b ≡ ok b') × Sweeps b i left v b'
  unfolding sweep
  sweep-Sweeps zero i b wf h =
      (b, refl, record { keeps_wf = wf; same_size = refl; changed = λ j. ground arith })
  sweep-Sweeps (suc left) i b wf h =
      let (b', e, u) = one b i wf (omega arith) in
      let (b'', e', s) = sweep-Sweeps left (i + 1) b' u.keeps_wf (omega (arith, u.same_size)) in
      (b'', rw e e', Sweeps-step i left v u s)

-- The words that the constructor allocates.
blank : ℕ → Bitmap
blank n = record {
  num_bits = n;
  num_words = div_round_up n bits_in_word;
  map = replicate (div_round_up n bits_in_word) 0;
}

blank-IsWf : (n : ℕ) → IsWf (blank n)
unfolding blank
blank-IsWf n = record {
  words = refl;
  stored = length-replicate (div_round_up n bits_in_word) 0;
  narrow = λ k. rw (get_or-replicate {A = ℕ} (div_round_up n bits_in_word) k 0) (omega arith);
}

-- A new bitmap of n > 0 bits is well formed, has n bits, and every bit of it is off.
pub new_lem :
    (n : ℕ)
    → 0 < n
    → (b : Bitmap) × (new (pos n) ≡ ok b)
      × IsWf b
      × (b.num_bits ≡ n)
      × ((j : ℕ) → j < n → marked b j ≡ false)
unfolding new blank
new_lem n h =
    let (b, e, s) =
      sweep-Sweeps clear false clear-Updates n 0 (blank n) (blank-IsWf n) (omega arith) in
    (b, rw (lt→ltb 0 n h) e, s.keeps_wf, s.same_size, λ j k. ground (arith, s.changed j))

-- What a search for a bit that is off, from `lo` up to `hi`, comes back with: the first such bit,
-- which is now on, or -1 and the bitmap as it was if all of them are on.
pub record FindsFirst (b : Bitmap) (lo hi : ℕ) (r : Outcome (Bitmap × ℤ)) : Type 0 where
  pub found : ℕ
  pub bitmap : Bitmap
  pub returns : r ≡ ok (bitmap, pos found)
  pub at_least : lo ≤ found
  pub below : found < hi
  pub was_clear : marked b found ≡ false
  pub first : (j : ℕ) → lo ≤ j → j < found → marked b j ≡ true
  pub updates : Updates b found true bitmap

pub record FindsNone (b : Bitmap) (lo hi : ℕ) (r : Outcome (Bitmap × ℤ)) : Type 0 where
  pub returns : r ≡ ok (b, minus_one)
  pub all_marked : (j : ℕ) → lo ≤ j → j < hi → marked b j ≡ true

abbrev pub Finds : Bitmap → ℕ → ℕ → Outcome (Bitmap × ℤ) → Type 0
Finds b lo hi r = FindsFirst b lo hi r ⊎ FindsNone b lo hi r

Finds-step :
    (b : Bitmap) (lo hi : ℕ) (r : Outcome (Bitmap × ℤ))
    → marked b lo ≡ true
    → Finds b (lo + 1) hi r
    → Finds b lo hi r
Finds-step b lo hi r on (inl f) = inl (record {
  found = f.found;
  bitmap = f.bitmap;
  returns = f.returns;
  at_least = omega (arith, f.at_least);
  below = f.below;
  was_clear = f.was_clear;
  first = λ j p q. ground (arith, f.first j);
  updates = f.updates;
})
Finds-step b lo hi r on (inr f) =
    inr (record { returns = f.returns; all_marked = λ j p q. ground (arith, f.all_marked j) })

find_and_set_from-Finds :
    (left i hi : ℕ) (b : Bitmap)
    → IsWf b
    → i + left ≡ hi
    → hi ≤ b.num_bits
    → Finds b i hi (find_and_set_from left i b)
unfolding find_and_set_from
find_and_set_from-Finds zero i hi b wf e h =
    inr (record { returns = refl; all_marked = λ j p q. absurd (omega arith) })
find_and_set_from-Finds (suc left) i hi b wf e h = elim (Bool-cases (marked b i)) [
  | inl on ↦
      rw (test-marked b i wf (omega arith), on)
        (Finds-step b i hi _ on (find_and_set_from-Finds left (i + 1) hi b wf (omega arith) h))
  | inr off ↦
      let (b', e', u) = mark-Updates b i wf (omega arith) in
      inl (record {
        found = i;
        bitmap = b';
        returns = rw (test-marked b i wf (omega arith), off, e');
        at_least = omega arith;
        below = omega arith;
        was_clear = off;
        first = λ j p q. absurd (omega arith);
        updates = u;
      })
]

-- On a well-formed bitmap FindAndSet takes the lowest bit that is off and turns it on and no other,
-- or, if there is none, answers -1 and changes nothing.
pub find_and_set-Finds : (b : Bitmap) → IsWf b → Finds b 0 b.num_bits (find_and_set b)
unfolding find_and_set
find_and_set-Finds b wf =
    find_and_set_from-Finds b.num_bits 0 b.num_bits b wf (omega arith) (omega arith)

num_clear_from_lem :
    (left i count : ℕ) (b : Bitmap)
    → IsWf b
    → i + left ≤ b.num_bits
    → num_clear_from left i count b ≡ ok (count + count_clear (marked b) left i)
unfolding num_clear_from count_clear
num_clear_from_lem zero i count b wf h = ground arith
num_clear_from_lem (suc left) i count b wf h = ground (
  arith,
  test-marked b i wf (omega arith),
  num_clear_from_lem left (i + 1) (if marked b i then count else count + 1) b wf (omega arith),
)

-- On a well-formed bitmap NumClear counts the bits that are off.
pub num_clear_lem : (b : Bitmap) → IsWf b → num_clear b ≡ ok (count_clear (marked b) b.num_bits 0)
unfolding num_clear
num_clear_lem b wf = ground (arith, num_clear_from_lem b.num_bits 0 0 b wf (omega arith))
