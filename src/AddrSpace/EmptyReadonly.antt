-- ===== src/AddrSpace/EmptyReadonly.antt =====
-- AddrSpace::Load (userprog/addrspace.cc) on a program without read-only data: where its initial data
-- goes.
use nachos_assignment.AddrSpace.{
  Segment, Executable, copy_pages, Copied, copy_code, copy_data, copy_segments,
}
use nachos_assignment.Machine.{TranslationEntry, page_size}
use nachos_assignment.Base.{
  ℕ, ◌+◌, ◌-◌, ◌≤◌, min, ◌≡◌, refl, ap, fun_ext, inl, inr, List, arith, ltb, Bool-cases, Outcome,
  ok, ◌>>=◌,
}

module _ (exe : Executable) (table : List TranslationEntry) (base : ℕ) where
  -- An empty segment counts as a last page of 0 bytes and as 0 pages.
  abbrev after_empty : Copied → Copied
  after_empty c = record c { last = 0; pages = 0 }

  no_readonly :
      (seg : Segment) (c : Copied)
      → seg.size ≡ 0
      → copy_data exe table base seg c ≡ ok (after_empty c)
  unfolding copy_data
  no_readonly seg c e =
      let rest : seg.size - min (page_size - c.last) seg.size ≡ 0 = omega (arith, e) in
      rw (rest, e) refl

  no_data :
      (seg : Segment) (c : Copied)
      → seg.size ≤ page_size
      → (d : Copied) × (copy_data exe table base seg (after_empty c) ≡ ok d) × (d.memory ≡ c.memory)
  unfolding copy_data copy_pages
  no_data seg c small =
      let rest : seg.size - min 512 seg.size ≡ 0 = omega arith in
      elim (Bool-cases (ltb 0 seg.size)) [
        | inl full ↦ (
          record { next = c.next + 0; last = 0; pages = 0; memory = c.memory },
          rw (rest, full) refl,
          refl,
        )
        | inr empty ↦ (
          record { next = c.next; last = 0; pages = 0; memory = c.memory },
          rw (rest, empty) refl,
          refl,
        )
      ]

  -- For a program without read-only data and with at most a page of initial data, the copying of
  -- the segments leaves the memory as it is after the code: the initial data is not copied.
  pub copy_segments_loses_data :
      (m : List ℕ)
      → exe.header.readonly_data.size ≡ 0
      → exe.header.init_data.size ≤ page_size
      → copy_segments exe table base m ≡ (copy_code exe table base m >>= λ c. ok c.memory)
  unfolding copy_segments
  copy_segments_loses_data m none_there small =
      ap (λ (k : Copied → Outcome (List ℕ)). copy_code exe table base m >>= k) (fun_ext after_code)
    where
      after_code :
          (c : Copied)
          → (copy_data exe table base exe.header.readonly_data c >>= λ r.
              copy_data exe table base exe.header.init_data r >>= λ d. ok d.memory)
            ≡ ok c.memory
      after_code c =
          let (d, e, same) = no_data exe.header.init_data c small in
          rw (no_readonly exe.header.readonly_data c none_there, e) (ap (λ t. ok t) same)
