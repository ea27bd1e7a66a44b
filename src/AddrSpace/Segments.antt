-- ===== src/AddrSpace/Segments.antt =====
-- The copying of whole segments in AddrSpace::Load (userprog/addrspace.cc): they fit into the pages
-- that the program is given.
use nachos_assignment.AddrSpace.{
  Segment, Executable, last_page_size, copy_to_page, Copied, copy_code, copy_data, copy_segments,
  size_of,
}
use nachos_assignment.AddrSpace.Alloc.{table_of}
use nachos_assignment.AddrSpace.Copy.{
  Within, Within-refl, Within-trans, IsBounded, HasRoom, HasRoom-Within, copy_to_page-Within,
  copy_pages-Within, div_round_up_page, last_page_size-le,
}
use nachos_assignment.Bitmap.{div_round_up}
use nachos_assignment.Machine.{page_size}
use nachos_assignment.Base.{
  ◌&&◌, not, ℕ, ◌+◌, ◌-◌, ◌≤◌, ◌<◌, min, ◌≡◌, refl, subst, inl, inr, List, arith, ltb, ◌==◌,
  if◌then◌else◌, Bool-cases, length, Outcome, ok,
}

module _ (exe : Executable) (fs : List ℕ) (bounded : IsBounded exe) where
  -- A segment is copied within the frames, in pages below `top`.
  pub record Goes (m : List ℕ) (top : ℕ) (r : Outcome Copied) : Type 0 where
    pub copied : Copied
    pub returns : r ≡ ok copied
    pub within : Within fs m copied.memory
    pub short : copied.last ≤ page_size
    pub below : copied.next ≤ top
    pub started : 0 < copied.pages → 0 < copied.next

  copy_code-Goes :
      (m : List ℕ)
      → HasRoom fs m
      → div_round_up exe.header.code.size page_size ≤ length fs
      → Goes m (div_round_up exe.header.code.size page_size) (copy_code exe (table_of 0 fs) 0 m)
  unfolding copy_code
  copy_code-Goes m room h =
      let size = exe.header.code.size in
      let short = last_page_size-le size in
      elim (Bool-cases (ltb 0 size)) [
        | inl full ↦
            let (m1, e1, w1) =
              copy_pages-Within exe fs bounded (div_round_up size page_size) (last_page_size size) 0
                exe.header.code.in_file_addr m room short (omega arith) in
            record {
              copied = record {
                next = div_round_up size page_size;
                last = last_page_size size;
                pages = div_round_up size page_size;
                memory = m1;
              };
              returns = rw (full, e1) refl;
              within = w1;
              short = short;
              below = omega arith;
              started = λ p. p;
            }
        | inr empty ↦
            let nothing : size ≡ 0 = ground arith in
            record {
              copied = record {
                next = 0;
                last = last_page_size size;
                pages = div_round_up size page_size;
                memory = m;
              };
              returns = rw empty refl;
              within = Within-refl fs m;
              short = short;
              below = omega arith;
              started = λ p. absurd (ground (arith, p, nothing));
            }
      ]

  -- The first part of a data segment.
  first_part-Within :
      (seg : Segment) (c : Copied)
      → HasRoom fs c.memory
      → c.last ≤ page_size
      → c.next ≤ length fs
      → (0 < c.pages → 0 < c.next)
      → (m' : List ℕ) × ((if ltb 0 seg.size && (not (c.last == page_size) && ltb 0 c.pages)
            then copy_to_page exe
                (table_of 0 fs)
                0
                (c.next - 1)
                c.last
                (min (page_size - c.last) seg.size)
                seg.in_file_addr
                c.memory
            else ok c.memory)
          ≡ ok m')
        × Within fs c.memory m'
  first_part-Within seg c room short h started =
      elim (Bool-cases (ltb 0 seg.size && (not (c.last == page_size) && ltb 0 c.pages))) [
        | inl some_room ↦
            let pages : 0 < c.pages = ground arith in
            let (m1, e1, w1) =
              copy_to_page-Within exe fs bounded (c.next - 1) c.last
                (min (page_size - c.last) seg.size) seg.in_file_addr c.memory room
                (omega (arith, started pages)) (omega arith) in
            (m1, rw some_room e1, w1)
        | inr no_room ↦ (c.memory, rw no_room refl, Within-refl fs c.memory)
      ]

  copy_data-Goes :
      (seg : Segment) (c : Copied)
      → HasRoom fs c.memory
      → c.last ≤ page_size
      → c.next + div_round_up seg.size page_size ≤ length fs
      → (0 < c.pages → 0 < c.next)
      → Goes c.memory
          (c.next + div_round_up seg.size page_size)
          (copy_data exe (table_of 0 fs) 0 seg c)
  unfolding copy_data
  copy_data-Goes seg c room short h started =
      let first = min (page_size - c.last) seg.size in
      let pages = div_round_up (seg.size - first) page_size in
      let last = last_page_size (seg.size - first) in
      let fewer : pages ≤ div_round_up seg.size page_size =
        omega (arith, div_round_up_page (seg.size - first), div_round_up_page seg.size) in
      let (m1, e1, w1) = first_part-Within seg c room short (omega arith) started in
      elim (Bool-cases (ltb 0 seg.size)) [
        | inl full ↦
            let (m2, e2, w2) =
              copy_pages-Within exe fs bounded pages last c.next (seg.in_file_addr + first) m1
                (HasRoom-Within exe fs bounded c.memory m1 room w1)
                (last_page_size-le (seg.size - first)) (omega (arith, fewer)) in
            record {
              copied = record { next = c.next + pages; last = last; pages = pages; memory = m2 };
              returns = rw (e1, full, e2) refl;
              within = Within-trans w1 w2;
              short = last_page_size-le (seg.size - first);
              below = omega (arith, fewer);
              started = λ p. omega (arith, p);
            }
        | inr empty ↦
            let nothing : seg.size ≡ 0 = ground arith in
            record {
              copied = record { next = c.next; last = last; pages = pages; memory = m1 };
              returns = rw (e1, empty) refl;
              within = w1;
              short = last_page_size-le (seg.size - first);
              below = omega arith;
              started =
                  λ p. absurd (omega (arith, p, div_round_up_page (seg.size - first), nothing));
            }
      ]

  -- The segments of a program fit into its pages, and copying them touches no other frame.
  pub copy_segments-Within :
      (m : List ℕ)
      → HasRoom fs m
      → div_round_up (size_of exe.header) page_size ≤ length fs
      → (m' : List ℕ) × (copy_segments exe (table_of 0 fs) 0 m ≡ ok m') × Within fs m m'
  unfolding copy_segments
  copy_segments-Within m room h =
      let h' = subst (λ t. t ≤ length fs) (div_round_up_page (size_of exe.header)) h in
      let code_pages = div_round_up_page exe.header.code.size in
      let ro_pages = div_round_up_page exe.header.readonly_data.size in
      let data_pages = div_round_up_page exe.header.init_data.size in
      let code = copy_code-Goes m room (omega (arith, code_pages, h')) in
      let room1 = HasRoom-Within exe fs bounded m code.copied.memory room code.within in
      let ro =
        copy_data-Goes exe.header.readonly_data code.copied room1 code.short
          (omega (arith, code.below, code_pages, ro_pages, h')) code.started in
      let room2 =
        HasRoom-Within exe fs bounded code.copied.memory ro.copied.memory room1 ro.within in
      let data_copied =
        copy_data-Goes exe.header.init_data ro.copied room2 ro.short
          (omega (arith, code.below, ro.below, code_pages, ro_pages, data_pages, h')) ro.started in
      (
        data_copied.copied.memory,
        rw (code.returns, ro.returns, data_copied.returns) refl,
        Within-trans code.within (Within-trans ro.within data_copied.within),
      )
