-- ===== src/Bitmap/SelfTest.antt =====
-- Bitmap::SelfTest of lib/bitmap.cc passes on every new bitmap that is big enough for it.
use nachos_assignment.Bitmap.{Bitmap, test, mark, clear, sweep, find_and_set, num_clear, self_test}
use nachos_assignment.Bitmap.View.{marked, IsWf, Updates, count_clear}
use nachos_assignment.Bitmap.Laws.{test-marked, mark-Updates, clear-Updates}
use nachos_assignment.Bitmap.Loops.{sweep-Sweeps, find_and_set-Finds, num_clear_lem}
use nachos_assignment.Base.{
  ◌||◌, ℕ, zero, suc, ◌+◌, ◌≤◌, ◌<◌, ◌≡◌, refl, ap, ◌∙◌, subst, ◌≢◌, inl, inr, Bool, true, false,
  arith, ◌==◌, if◌then◌else◌, pos, minus_one, ok,
}

count_clear_all :
    (on : ℕ → Bool) (left i hi : ℕ)
    → i + left ≤ hi
    → ((j : ℕ) → j < hi → on j ≡ false)
    → count_clear on left i ≡ left
unfolding count_clear
count_clear_all on zero i hi h off = refl
count_clear_all on (suc left) i hi h off =
    ground (arith, off i, count_clear_all on left (i + 1) hi (omega arith) off)

-- A search in a bitmap with a bit off finds the first one.
find_first :
    (b : Bitmap) (k : ℕ)
    → IsWf b
    → k < b.num_bits
    → marked b k ≡ false
    → ((j : ℕ) → j < k → marked b j ≡ true)
    → (b' : Bitmap) × (find_and_set b ≡ ok (b', pos k)) × Updates b k true b'
find_first b k wf h off on = elim (find_and_set-Finds b wf) [
  | inl f ↦
      let same : f.found ≡ k = ground (arith, f.first k, on f.found, f.was_clear) in
      (
        f.bitmap,
        f.returns ∙ ap (λ (t : ℕ). ok (f.bitmap, pos t)) same,
        subst (λ t. Updates b t true f.bitmap) same f.updates,
      )
  | inr f ↦ absurd (ground (arith, f.all_marked k))
]

find_none :
    (b : Bitmap)
    → IsWf b
    → ((j : ℕ) → j < b.num_bits → marked b j ≡ true)
    → find_and_set b ≡ ok (b, minus_one)
find_none b wf on = elim (find_and_set-Finds b wf) [
  | inl f ↦ absurd (ground (arith, on f.found, f.was_clear, f.below))
  | inr f ↦ f.returns
]

abbrev pub IsEmpty : Bitmap → Type 0
IsEmpty b = (j : ℕ) → j < b.num_bits → marked b j ≡ false

-- The bitmaps that `SelfTest` goes through, with what each call answers.
record Marking (b b1 b2 b3 : Bitmap) : Type 0 where
  finds_first : find_and_set b ≡ ok (b1, pos 0)
  marks_last : mark b1 (pos 31) ≡ ok b2
  first_on : test b2 (pos 0) ≡ ok true
  last_on : test b2 (pos 31) ≡ ok true
  finds_second : find_and_set b2 ≡ ok (b3, pos 1)
  keeps_wf : IsWf b3
  same_size : b3.num_bits ≡ b.num_bits
  others : (j : ℕ) → j < b.num_bits → j ≢ 0 → j ≢ 1 → j ≢ 31 → marked b3 j ≡ false

record Clearing (b b4 b5 b6 : Bitmap) : Type 0 where
  clears_first : clear b (pos 0) ≡ ok b4
  clears_second : clear b4 (pos 1) ≡ ok b5
  clears_last : clear b5 (pos 31) ≡ ok b6
  keeps_wf : IsWf b6
  same_size : b6.num_bits ≡ b.num_bits
  changed : (j : ℕ) → marked b6 j ≡ (if j == 0 || (j == 1 || j == 31) then false else marked b j)

record Filling (b b7 b9 : Bitmap) : Type 0 where
  fills : sweep mark b.num_bits 0 b ≡ ok b7
  is_full : find_and_set b7 ≡ ok (b7, minus_one)
  empties : sweep clear b7.num_bits 0 b7 ≡ ok b9
  same_size : b9.num_bits ≡ b.num_bits
  empty : IsEmpty b9

marking :
    (b : Bitmap) → IsWf b → 32 ≤ b.num_bits → IsEmpty b → (b1 b2 b3 : Bitmap) × Marking b b1 b2 b3
marking b wf big empty =
    let (b1, e1, u1) =
      find_first b 0 wf (omega arith) (empty 0 (omega arith)) (λ j h. absurd (omega arith)) in
    let (b2, e2, u2) = mark-Updates b1 31 u1.keeps_wf (omega (arith, u1.same_size)) in
    let size2 : b2.num_bits ≡ b.num_bits = u2.same_size ∙ u1.same_size in
    let (b3, e3, u3) =
      find_first b2 1 u2.keeps_wf (omega (arith, size2))
        (ground (arith, u2.changed 1, u1.changed 1, empty 1))
        (λ j h. ground (arith, u2.changed j, u1.changed j)) in
    (
      b1,
      b2,
      b3,
      record {
        finds_first = e1;
        marks_last = e2;
        first_on = ground (arith, test-marked b2 0 u2.keeps_wf, u2.changed 0, u1.changed 0, size2);
        last_on = ground (arith, test-marked b2 31 u2.keeps_wf, u2.changed 31, size2);
        finds_second = e3;
        keeps_wf = u3.keeps_wf;
        same_size = u3.same_size ∙ size2;
        others = λ j h n0 n1 n31. ground (arith, u3.changed j, u2.changed j, u1.changed j, empty j);
      },
    )

clearing : (b : Bitmap) → IsWf b → 32 ≤ b.num_bits → (b4 b5 b6 : Bitmap) × Clearing b b4 b5 b6
clearing b wf big =
    let (b4, e4, u4) = clear-Updates b 0 wf (omega arith) in
    let (b5, e5, u5) = clear-Updates b4 1 u4.keeps_wf (omega (arith, u4.same_size)) in
    let size5 : b5.num_bits ≡ b.num_bits = u5.same_size ∙ u4.same_size in
    let (b6, e6, u6) = clear-Updates b5 31 u5.keeps_wf (omega (arith, size5)) in
    (
      b4,
      b5,
      b6,
      record {
        clears_first = e4;
        clears_second = e5;
        clears_last = e6;
        keeps_wf = u6.keeps_wf;
        same_size = u6.same_size ∙ size5;
        changed = λ j. ground (arith, u6.changed j, u5.changed j, u4.changed j);
      },
    )

filling : (b : Bitmap) → IsWf b → (b7 b9 : Bitmap) × Filling b b7 b9
filling b wf =
    let (b7, e7, s7) = sweep-Sweeps mark true mark-Updates b.num_bits 0 b wf (omega arith) in
    let (b9, e9, s9) =
      sweep-Sweeps clear false clear-Updates b7.num_bits 0 b7 s7.keeps_wf (omega arith) in
    (
      b7,
      b9,
      record {
        fills = e7;
        is_full = find_none b7 s7.keeps_wf (λ j h. ground (arith, s7.changed j, s7.same_size));
        empties = e9;
        same_size = s9.same_size ∙ s7.same_size;
        empty = λ j h. ground (arith, s9.changed j, s9.same_size);
      },
    )

self_test_runs :
    {b b1 b2 b3 b4 b5 b6 b7 b9 : Bitmap}
    → num_clear b ≡ ok b.num_bits
    → 32 ≤ b.num_bits
    → Marking b b1 b2 b3
    → Clearing b3 b4 b5 b6
    → Filling b6 b7 b9
    → self_test b ≡ ok b9
unfolding self_test
self_test_runs {b} count big m c f = ground (
  arith, m.finds_first, m.marks_last, m.first_on, m.last_on, m.finds_second, c.clears_first,
  c.clears_second, c.clears_last, f.fills, f.is_full, f.empties,
)

-- Every assertion of SelfTest holds on a well-formed empty bitmap of 32 bits or more, and the
-- bitmap it leaves has the same size and is empty again.
pub self_test_passes :
    (b : Bitmap)
    → IsWf b
    → 32 ≤ b.num_bits
    → IsEmpty b
    → (b' : Bitmap) × (self_test b ≡ ok b') × (b'.num_bits ≡ b.num_bits) × IsEmpty b'
self_test_passes b wf big empty =
    let (b1, b2, b3, m) = marking b wf big empty in
    let (b4, b5, b6, c) = clearing b3 m.keeps_wf (omega (arith, m.same_size)) in
    let (b7, b9, f) = filling b6 c.keeps_wf in
    (b9, self_test_runs counted big m c f, f.same_size ∙ (c.same_size ∙ m.same_size), f.empty)
  where
    counted : num_clear b ≡ ok b.num_bits
    counted =
        num_clear_lem b wf
        ∙ ap (λ (t : ℕ). ok t)
            (count_clear_all (marked b) b.num_bits 0 b.num_bits (omega arith) empty)
