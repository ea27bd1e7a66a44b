-- ===== src/PTable/Orphans.antt =====
-- The table of threads/ptable.cc after a child has gone.
use nachos_assignment.PTable.{max_process, max_process, remove, PTable}
use nachos_assignment.PTable.Invariant.{is_process, IsCoherent}
use nachos_assignment.Bitmap.{Bitmap}
use nachos_assignment.Bitmap.View.{marked, Updates}
use nachos_assignment.Bitmap.Laws.{clear-Updates}
use nachos_assignment.PTable.Block.{Pcb}
use nachos_assignment.Threads.Semaphore.{free_lock}
use nachos_assignment.Base.{
  ℕ, ◌<◌, ◌≡◌, refl, sym, ap, ◌∙◌, subst, ◌≢◌, ◌⊎◌, inl, inr, false, Option, none, some, List,
  arith, ◌==◌, Bool-cases, get_elem?, set, length-set, get_elem?-set_self, get_elem?-set_ne,
  get_elem?_inside, set-set_self, ok,
}
use nachos_assignment.PTable.Family.{IsChild, dad, family}

-- `t'` is `t` without the process `c`; besides, the count of the waits of `p` may differ.
pub record Gone (t : PTable) (p c : ℕ) (t' : PTable) : Type 0 where
  pub keeps : IsCoherent t'
  pub unmarked : marked t'.bm c ≡ false
  pub empty : get_elem? t'.pcb c ≡ some none
  pub other_marks : (j : ℕ) → j ≢ c → marked t'.bm j ≡ marked t.bm j
  pub other_blocks : (j : ℕ) → j ≢ c → j ≢ p → get_elem? t'.pcb j ≡ get_elem? t.pcb j
  pub parent_stays :
      (pp : Pcb)
      → get_elem? t.pcb p ≡ some (some pp)
      → (n : ℕ) × (get_elem? t'.pcb p ≡ some (some (record pp { multex = free_lock; numwait = n })))

module _ (t : PTable) (p c : ℕ) (pp pc : Pcb) (h : IsChild t p c pp pc) where
  abbrev heir : ℕ → Pcb
  heir n = dad t p c pp pc n

  -- The blocks after the child is removed.
  orphaned : ℕ → List (Option Pcb)
  orphaned n = set (set t.pcb p (some (heir n))) c none

  orphaned_child : (n : ℕ) → get_elem? (orphaned n) c ≡ some none
  unfolding orphaned
  orphaned_child n = get_elem?-set_self (set t.pcb p (some (heir n))) c none (
      omega (arith, get_elem?_inside t.pcb c (some pc) h.child, length-set t.pcb p (some (heir n))))

  orphaned_parent : (n : ℕ) → get_elem? (orphaned n) p ≡ some (some (heir n))
  unfolding orphaned
  orphaned_parent n =
      get_elem?-set_ne (set t.pcb p (some (heir n))) {i = c} {j = p} none (λ e. h.apart (sym e))
      ∙ get_elem?-set_self t.pcb p (some (heir n)) (get_elem?_inside t.pcb p (some pp) h.parent)

  orphaned_other : (n j : ℕ) → j ≢ c → j ≢ p → get_elem? (orphaned n) j ≡ get_elem? t.pcb j
  unfolding orphaned
  orphaned_other n j nc np =
      get_elem?-set_ne (set t.pcb p (some (heir n))) {i = c} {j = j} none (λ e. nc (sym e))
      ∙ get_elem?-set_ne t.pcb {i = p} {j = j} (some (heir n)) (λ e. np (sym e))

  -- A number is the child's, the parent's or another.
  whose : (j : ℕ) → (j ≡ c) ⊎ ((j ≡ p) ⊎ ((j ≢ c) × (j ≢ p)))
  whose j = elim (Bool-cases (j == c)) [
    | inl e ↦ inl (ground arith)
    | inr nc ↦ elim (Bool-cases (j == p)) [
      | inl e ↦ inr (inl (ground arith))
      | inr np ↦ inr (inr (ground arith, ground arith))
    ]
  ]

  orphaned_step :
      (n : ℕ) (bm : Bitmap)
      → IsCoherent t
      → Updates t.bm c false bm
      → (i : ℕ) → i < max_process
      → marked bm i ≡ is_process (get_elem? (orphaned n) i)
  orphaned_step n bm coherent u i small = elim (whose i) [
    | inl e ↦ rw (e, orphaned_child n) (ground (arith, u.changed c))
    | inr (inl e) ↦
        let before = coherent.in_step p (subst (λ k. k < max_process) e small) in
        rw (e, orphaned_parent n) (ground (arith, u.changed p, before, h.parent, h.apart))
    | inr (inr (nc, np)) ↦
        rw (orphaned_other n i nc np) (ground (arith, u.changed i, coherent.in_step i small, nc))
  ]

  orphaned_unlocked :
      (n : ℕ)
      → IsCoherent t
      → (i : ℕ) (q : Pcb) → get_elem? (orphaned n) i ≡ some (some q)
      → q.multex ≡ free_lock
  orphaned_unlocked n coherent i q there = elim (whose i) [
    | inl e ↦
        let here = subst (λ k. get_elem? (orphaned n) k ≡ some (some q)) e there in
        absurd (ground (arith, here, orphaned_child n))
    | inr (inl e) ↦
        let here = subst (λ k. get_elem? (orphaned n) k ≡ some (some q)) e there in
        let same : heir n ≡ q = ground (arith, here, orphaned_parent n) in
        sym (ap (λ (b : Pcb). b.multex) same)
    | inr (inr (nc, np)) ↦ coherent.blocks_unlocked i q (sym (orphaned_other n i nc np) ∙ there)
  ]

  -- Once the child is removed nothing is left of it, and only its parent's block has changed.
  pub removed :
      (n : ℕ) (k : Pcb)
      → IsCoherent t
      → (t' : PTable) × (remove (family t p c pp pc (heir n) k) c ≡ ok t') × Gone t p c t'
  unfolding remove orphaned
  removed n k coherent =
      let small = get_elem?_inside t.pcb c (some pc) h.child in
      let in_c : c < max_process = omega (arith, small, coherent.slots) in
      let (bm, e, u) = clear-Updates t.bm c coherent.bitmap (omega (arith, in_c, coherent.bits)) in
      let there =
        get_elem?-set_self (set t.pcb p (some (heir n))) c (some k)
          (omega (arith, small, length-set t.pcb p (some (heir n)))) in
      (
        record t { bm = bm; pcb = orphaned n },
        rw (e, there, set-set_self (set t.pcb p (some (heir n))) c (some k) none) refl,
        record {
          keeps = record {
            bitmap = u.keeps_wf;
            bits = u.same_size ∙ coherent.bits;
            slots =
                length-set (set t.pcb p (some (heir n))) c none
                ∙ (length-set t.pcb p (some (heir n)) ∙ coherent.slots);
            in_step = orphaned_step n bm coherent u;
            unlocked = coherent.unlocked;
            blocks_unlocked = orphaned_unlocked n coherent;
          };
          unmarked = ground (arith, u.changed c);
          empty = orphaned_child n;
          other_marks = λ j nc. ground (arith, u.changed j, nc);
          other_blocks = orphaned_other n;
          parent_stays = λ q there.
              let same : pp ≡ q = ground (arith, there, h.parent) in
              (
                n,
                orphaned_parent n
                    ∙ ap (λ (b : Pcb). some (some (record b { multex = free_lock; numwait = n })))
                        same,
              );
        },
      )
