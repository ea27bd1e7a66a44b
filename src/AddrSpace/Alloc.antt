-- ===== src/AddrSpace/Alloc.antt =====
-- The loop of AddrSpace::Load (userprog/addrspace.cc) that takes frames for the pages of a program
-- and clears them.
use nachos_assignment.AddrSpace.{page_at, fresh_entry, set_up_pages}
use nachos_assignment.AddrSpace.Bytes.{Stores, put_bytes-Stores}
use nachos_assignment.Bitmap.{Bitmap}
use nachos_assignment.Bitmap.View.{marked, IsWf, Updates, count_clear}
use nachos_assignment.Bitmap.Loops.{find_and_set-Finds}
use nachos_assignment.Bitmap.Count.{count_clear-full, count_clear_taken}
use nachos_assignment.Machine.{TranslationEntry, page_size}
use nachos_assignment.Base.{
  ◌||◌, ℕ, zero, suc, ◌+◌, ◌*◌, ◌/◌, ◌%◌, ◌≤◌, ◌<◌, ◌≡◌, refl, sym, ap, ◌∙◌, subst, ◌≢◌, inl, inr,
  true, false, some, List, [], ◌∷◌, arith, ◌==◌, Bool-cases, length, get_elem?, replicate,
  length-replicate, get_elem?-eq-get_or, get_or-replicate, among, IsDistinct, pos, ok,
}

-- The page table for frames, from page `i` on.
abbrev pub table_of : ℕ → List ℕ → List TranslationEntry
table_of i [] = []
table_of i (f ∷ fs) = fresh_entry i (pos f) ∷ table_of (i + 1) fs

-- The frames `fs` are taken from the free ones and cleared; nothing else changes.
pub record Takes (m : List ℕ) (b : Bitmap) (fs m' : List ℕ) (b' : Bitmap) : Type 0 where
  pub keeps_wf : IsWf b'
  pub same_bits : b'.num_bits ≡ b.num_bits
  pub same_size : length m' ≡ length m
  pub were_free : (f : ℕ) → among f fs ≡ true → (f < b.num_bits) × (marked b f ≡ false)
  pub distinct : IsDistinct fs
  pub marks : (j : ℕ) → marked b' j ≡ among j fs || marked b j
  pub zeroed : (j : ℕ) → among (j / page_size) fs ≡ true → get_elem? m' j ≡ some 0
  pub others : (j : ℕ) → among (j / page_size) fs ≡ false → get_elem? m' j ≡ get_elem? m j

Takes-none : (m : List ℕ) (b : Bitmap) → IsWf b → Takes m b [] m b
unfolding among
Takes-none m b wf = record {
  keeps_wf = wf;
  same_bits = refl;
  same_size = refl;
  were_free = λ f h. ground arith;
  distinct = tt;
  marks = λ j. refl;
  zeroed = λ j h. ground arith;
  others = λ j h. refl;
}

zero_there : (k : ℕ) → k < page_size → get_elem? {A = ℕ} (replicate page_size 0) k ≡ some 0
zero_there k h =
    get_elem?-eq-get_or (replicate page_size 0) k 0
      (omega (arith, length-replicate {A = ℕ} page_size 0))
    ∙ ap (λ t. some t) (get_or-replicate page_size k 0)

module _ (m : List ℕ) (b : Bitmap) (f : ℕ) (m1 : List ℕ) (b1 : Bitmap) (inside : f < b.num_bits)
    (free : marked b f ≡ false) (u : Updates b f true b1)
    (s : Stores m (f * page_size) (replicate page_size 0) m1) where
  page_zero : (j : ℕ) → j / page_size ≡ f → get_elem? m1 j ≡ some 0
  page_zero j e =
      let place : f * page_size + j % page_size ≡ j = omega (arith, e) in
      subst (λ t. get_elem? m1 t ≡ some 0) place
        (s.inside (j % page_size) (omega (arith, length-replicate {A = ℕ} page_size 0))
          ∙ zero_there (j % page_size) (omega arith))

  page_other : (j : ℕ) → j / page_size ≢ f → get_elem? m1 j ≡ get_elem? m j
  page_other j e = s.outside j (omega (arith, e, length-replicate {A = ℕ} page_size 0))

  Takes-step : (fs m' : List ℕ) (b' : Bitmap) → Takes m1 b1 fs m' b' → Takes m b (f ∷ fs) m' b'
  unfolding among
  Takes-step fs m' b' t = record {
    keeps_wf = t.keeps_wf;
    same_bits = t.same_bits ∙ u.same_size;
    same_size = t.same_size ∙ s.same_size;
    were_free = λ g h. elim (Bool-cases (g == f)) [
      | inl e ↦ let same : g ≡ f = ground arith in rw same (inside, free)
      | inr ne ↦
          let (lt, off) = t.were_free g (ground arith) in
          (omega (arith, lt, u.same_size), ground (arith, off, u.changed g))
    ];
    distinct = (new, t.distinct);
    marks = λ j. ground (arith, t.marks j, u.changed j);
    zeroed = λ j h. elim (Bool-cases (j / page_size == f)) [
      | inl e ↦
          let same : j / page_size ≡ f = ground arith in t.others j (rw same new) ∙ page_zero j same
      | inr ne ↦ t.zeroed j (ground arith)
    ];
    others = λ j h. t.others j (ground arith) ∙ page_other j (ground arith);
  }
    where
      new : among f fs ≡ false
      new = elim (Bool-cases (among f fs)) [
        | inl e ↦ absurd (ground (arith, t.were_free f e, u.changed f))
        | inr e ↦ e
      ]

at_zero : (f : ℕ) → 0 + f * page_size ≡ f * page_size
at_zero f = omega arith

-- With enough free frames the loop takes frames that were free, each once, clears them, and touches
-- no other frame.
pub set_up_pages-Takes :
    (left i : ℕ) (m : List ℕ) (b : Bitmap)
    → IsWf b
    → b.num_bits * page_size ≤ length m
    → left ≤ count_clear (marked b) b.num_bits 0
    → (fs m' : List ℕ) × (b' : Bitmap) × (set_up_pages 0 left i m b ≡ ok (table_of i fs, m', b'))
      × (length fs ≡ left)
      × Takes m b fs m' b'
unfolding set_up_pages page_at
set_up_pages-Takes zero i m b wf room enough = ([], m, b, refl, refl, Takes-none m b wf)
set_up_pages-Takes (suc left) i m b wf room enough = elim (find_and_set-Finds b wf) [
  | inr full ↦ absurd (
      omega (
        arith,
        count_clear-full (marked b) b.num_bits 0 (λ j l h. full.all_marked j l (omega arith)),
      ))
  | inl f ↦
      let (m1, e1, s) =
        put_bytes-Stores (replicate page_size 0) m (f.found * page_size)
          (omega (arith, f.below, length-replicate {A = ℕ} page_size 0)) in
      let counted =
        count_clear_taken (marked b) (marked f.bitmap) f.found b.num_bits 0 f.updates.changed
          f.was_clear f.at_least (omega (arith, f.below)) in
      let (fs, m', b', e, n, t) =
        set_up_pages-Takes left (i + 1) m1 f.bitmap f.updates.keeps_wf
          (omega (arith, s.same_size, f.updates.same_size))
          (subst (λ t. left ≤ count_clear (marked f.bitmap) t 0) (sym f.updates.same_size)
            (omega (arith, counted))) in
      (
        f.found ∷ fs,
        m',
        b',
        rw (f.returns, at_zero f.found, e1, e) refl,
        omega (arith, n),
        Takes-step m b f.found m1 f.bitmap f.below f.was_clear f.updates s fs m' b' t,
      )
]
