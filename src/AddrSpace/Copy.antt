-- ===== src/AddrSpace/Copy.antt =====
-- The copying of the segments in AddrSpace::Load (userprog/addrspace.cc): it stays in the pages of the
-- page table, and so in the frames of the program.
use nachos_assignment.AddrSpace.{
  Executable, page_at, fresh_entry, last_page_size, copy_to_page, copy_pages,
}
use nachos_assignment.AddrSpace.Bytes.{put_bytes-Stores}
use nachos_assignment.AddrSpace.Alloc.{table_of}
use nachos_assignment.Bitmap.{div_round_up}
use nachos_assignment.Machine.{page_size}
use nachos_assignment.Base.{
  ℕ, zero, suc, ◌+◌, ◌*◌, ◌/◌, ◌≤◌, ◌<◌, ◌≡◌, refl, ap, ◌∙◌, subst, ◌≢◌, inl, inr, true, false,
  some, List, [], ◌∷◌, arith, ◌==◌, if◌then◌else◌, Bool-cases, length, get_elem?, among, pos, ok,
}

-- `m'` differs from `m` in the frames `fs` only.
pub record Within (fs m m' : List ℕ) : Type 0 where
  pub same_size : length m' ≡ length m
  pub others : (j : ℕ) → among (j / page_size) fs ≡ false → get_elem? m' j ≡ get_elem? m j

pub Within-refl : (fs m : List ℕ) → Within fs m m
Within-refl fs m = record { same_size = refl; others = λ j h. refl }

pub Within-trans : {fs m m1 m2 : List ℕ} → Within fs m m1 → Within fs m1 m2 → Within fs m m2
Within-trans a b = record {
  same_size = b.same_size ∙ a.same_size;
  others = λ j h. b.others j h ∙ a.others j h;
}

pub table_of_at :
    (fs : List ℕ) (i k : ℕ)
    → k < length fs
    → (f : ℕ) × (get_elem? (table_of i fs) k ≡ some (fresh_entry (i + k) (pos f)))
      × (among f fs ≡ true)
unfolding among
table_of_at [] i k h = absurd (omega arith)
table_of_at (f ∷ fs) i zero h =
    let same : i + 0 ≡ i = omega arith in (f, rw same refl, ground arith)
table_of_at (f ∷ fs) i (suc k) h =
    let (g, e, a) = table_of_at fs (i + 1) k (omega arith) in
    let same : i + suc k ≡ i + 1 + k = omega arith in (g, rw same e, ground (arith, a))

pub length-table_of : (fs : List ℕ) (i : ℕ) → length (table_of i fs) ≡ length fs
length-table_of [] i = refl
length-table_of (f ∷ fs) i = ap suc (length-table_of fs (i + 1))

pub div_round_up_page : (n : ℕ) → div_round_up n page_size ≡ (n + 511) / page_size
div_round_up_page n = ground arith

pub last_page_size-le : (n : ℕ) → last_page_size n ≤ page_size
last_page_size-le zero = omega arith
last_page_size-le (suc n) = omega arith

-- A read of a file delivers at most what is asked for.
abbrev pub IsBounded : Executable → Type 0
IsBounded exe = (position count : ℕ) → length (exe.read_at position count) ≤ count

-- All frames lie in the memory.
abbrev pub HasRoom : List ℕ → List ℕ → Type 0
HasRoom fs m = (f : ℕ) → among f fs ≡ true → suc f * page_size ≤ length m

module _ (exe : Executable) (fs : List ℕ) (bounded : IsBounded exe) where
  pub HasRoom-Within : (m m' : List ℕ) → HasRoom fs m → Within fs m m' → HasRoom fs m'
  HasRoom-Within m m' room w f a = omega (arith, room f a, w.same_size)

  pub copy_to_page-Within :
      (i offset count in_file : ℕ) (m : List ℕ)
      → HasRoom fs m
      → i < length fs
      → offset + count ≤ page_size
      → (m' : List ℕ) × (copy_to_page exe (table_of 0 fs) 0 i offset count in_file m ≡ ok m')
        × Within fs m m'
  unfolding copy_to_page page_at
  copy_to_page-Within i offset count in_file m room h fits =
      let (f, e, a) = table_of_at fs 0 i h in
      let short = bounded in_file count in
      let (m', e', s) =
        put_bytes-Stores (exe.read_at in_file count) m (0 + f * page_size + offset)
          (omega (arith, room f a, short)) in
      (
        m',
        rw e e',
        record {
          same_size = s.same_size;
          others = λ j out. s.outside j (elim (Bool-cases (j / page_size == f)) [
            | inl same ↦
                let e2 : j / page_size ≡ f = ground arith in
                absurd (ground (arith, subst (λ t. among t fs ≡ false) e2 out, a))
            | inr other ↦ let ne : j / page_size ≢ f = ground arith in omega (arith, ne, short)
          ]);
        },
      )

  pub copy_pages-Within :
      (left last i in_file : ℕ) (m : List ℕ)
      → HasRoom fs m
      → last ≤ page_size
      → i + left ≤ length fs
      → (m' : List ℕ) × (copy_pages exe (table_of 0 fs) 0 last left i in_file m ≡ ok m')
        × Within fs m m'
  unfolding copy_pages
  copy_pages-Within zero last i in_file m room short h = (m, refl, Within-refl fs m)
  copy_pages-Within (suc left) last i in_file m room short h =
      let (m1, e1, w1) =
        copy_to_page-Within i 0 (if left == 0 then last else page_size) in_file m room (omega arith)
          (ground arith) in
      let (m2, e2, w2) =
        copy_pages-Within left last (i + 1) (in_file + page_size) m1 (HasRoom-Within m m1 room w1)
          short (omega arith) in
      (m2, rw e1 e2, Within-trans w1 w2)
