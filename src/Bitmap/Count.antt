-- ===== src/Bitmap/Count.antt =====
-- Counting the bits of a bitmap (lib/bitmap.cc) that are off.
use nachos_assignment.Bitmap.View.{count_clear}
use nachos_assignment.Base.{
  ℕ, zero, suc, ◌+◌, ◌≤◌, ◌<◌, ◌≡◌, refl, inl, inr, Bool, true, false, arith, ◌==◌, if◌then◌else◌,
  Bool-cases,
}

pub count_clear-full :
    (on : ℕ → Bool) (left i : ℕ)
    → ((j : ℕ) → i ≤ j → j < i + left → on j ≡ true)
    → count_clear on left i ≡ 0
unfolding count_clear
count_clear-full on zero i h = refl
count_clear-full on (suc left) i h = ground (
  arith,
  h i (omega arith) (omega arith),
  count_clear-full on left (i + 1) (λ j a b. h j (omega arith) (omega arith)),
)

count_clear_same :
    (on on' : ℕ → Bool) (left i : ℕ)
    → ((j : ℕ) → i ≤ j → on j ≡ on' j)
    → count_clear on left i ≡ count_clear on' left i
unfolding count_clear
count_clear_same on on' zero i h = refl
count_clear_same on on' (suc left) i h =
    rw (h i (omega arith), count_clear_same on on' left (i + 1) (λ j a. h j (omega arith))) refl

-- Turning on a bit that is off leaves one less of those.
pub count_clear_taken :
    (on on' : ℕ → Bool) (k left i : ℕ)
    → ((j : ℕ) → on' j ≡ (if j == k then true else on j))
    → on k ≡ false
    → i ≤ k
    → k < i + left
    → count_clear on left i ≡ suc (count_clear on' left i)
unfolding count_clear
count_clear_taken on on' k zero i h off a b = absurd (omega arith)
count_clear_taken on on' k (suc left) i h off a b = elim (Bool-cases (i == k)) [
  | inl e ↦
      let same : i ≡ k = ground arith in
      let later = count_clear_same on on' left (i + 1) (λ j c. ground (arith, h j)) in
      let here : on i ≡ false = rw same off in
      let there : on' i ≡ true = ground (arith, h i) in rw (here, there, later) (omega arith)
  | inr ne ↦
      let later = count_clear_taken on on' k left (i + 1) h off (ground arith) (omega arith) in
      let same : on' i ≡ on i = ground (arith, h i) in rw (later, same) (omega arith)
]
