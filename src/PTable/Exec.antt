-- ===== src/PTable/Exec.antt =====
-- ExecUpdate of threads/ptable.cc: a program becomes a process.
use nachos_assignment.PTable.{max_process, PTable, exec_in_slot, exec_update}
use nachos_assignment.PTable.Block.{Pcb, max_filename_length, exec, set_file_name}
use nachos_assignment.PTable.Block
use nachos_assignment.PTable.Invariant.{is_process, IsCoherent}
use nachos_assignment.Bitmap.{Bitmap, find_and_set}
use nachos_assignment.Bitmap.View.{marked, Updates}
use nachos_assignment.Bitmap.Loops.{FindsFirst, find_and_set-Finds}
use nachos_assignment.Threads.Semaphore.{p_round, v, free_lock}
use nachos_assignment.Base.{
  ℕ, ◌<◌, ◌≡◌, refl, sym, ap, ◌∙◌, subst, ◌≢◌, inl, inr, true, false, some, arith, ◌==◌, Bool-cases,
  length, get_elem?, set, length-set, get_elem?-set_self, get_elem?-set_ne, get_elem?-some, ℤ, pos,
  minus_one, Name, same_name, Outcome, ok, Name, same_name,
}

-- The control block of a new process.
abbrev pub child_of : ℕ → ℕ → Name → Pcb
child_of i current name = record (Block.new i current) { file_name = name; parent_id = pos current }

-- `t'` is `t` with a new process `i`.
pub record Starts (t : PTable) (i current : ℕ) (name : Name) (t' : PTable) : Type 0 where
  pub keeps : IsCoherent t'
  pub block : get_elem? t'.pcb i ≡ some (some (child_of i current name))
  pub others : (j : ℕ) → j ≢ i → get_elem? t'.pcb j ≡ get_elem? t.pcb j

-- What Exec comes to: a program may not start itself, no number is free, or the program gets the
-- lowest free number.
pub data Executes (t : PTable) (name : Name) (current : ℕ) (current_name : Name)
    (r : Outcome (PTable × ℤ)) : Type 0 where
  itself :
      same_name name current_name ≡ true
      → r ≡ ok (t, minus_one)
      → Executes t name current current_name r
  full :
      ((i : ℕ) → i < max_process → is_process (get_elem? t.pcb i) ≡ true)
      → r ≡ ok (t, minus_one)
      → Executes t name current current_name r
  started :
      (i : ℕ) (t' : PTable)
      → i < max_process
      → is_process (get_elem? t.pcb i) ≡ false
      → ((j : ℕ) → j < i → is_process (get_elem? t.pcb j) ≡ true)
      → r ≡ ok (t', pos i)
      → Starts t i current name t'
      → Executes t name current current_name r

module _ (t : PTable) (name : Name) (current : ℕ) (coherent : IsCoherent t)
    (short : length name < max_filename_length) where
  unchanged : record t { bmsem = free_lock } ≡ t
  unchanged = ap (λ s. record t { bmsem = s }) (sym coherent.unlocked)

  named_block : (i : ℕ) → exec (Block.new i current) name current ≡ ok (child_of i current name)
  unfolding exec set_file_name p_round v
  named_block i = ground (arith, short)

  abbrev with_child : ℕ → Bitmap → PTable
  with_child i bm = record t {
    bm = bm;
    pcb = set t.pcb i (some (child_of i current name));
    bmsem = free_lock;
  }

  started_at :
      (i : ℕ) (bm : Bitmap)
      → i < max_process
      → Updates t.bm i true bm
      → Starts t i current name (with_child i bm)
  started_at i bm small u = record {
    keeps = record {
      bitmap = u.keeps_wf;
      bits = u.same_size ∙ coherent.bits;
      slots = length-set t.pcb i _ ∙ coherent.slots;
      in_step = in_step;
      unlocked = refl;
      blocks_unlocked = unlocked;
    };
    block = here;
    others = λ j n. get_elem?-set_ne t.pcb {i = i} {j = j} _ (λ e. n (sym e));
  }
    where
      here : get_elem? (with_child i bm).pcb i ≡ some (some (child_of i current name))
      here = get_elem?-set_self t.pcb i _ (omega (arith, small, coherent.slots))

      in_step :
          (j : ℕ) → j < max_process → marked bm j ≡ is_process (get_elem? (with_child i bm).pcb j)
      in_step j below = elim (Bool-cases (j == i)) [
        | inl e ↦ let same : j ≡ i = ground arith in rw (same, here) (ground (arith, u.changed i))
        | inr n ↦
            let apart : i ≢ j = ground arith in
            rw (get_elem?-set_ne t.pcb {i = i} {j = j} (some (child_of i current name)) apart)
              (ground (arith, u.changed j, coherent.in_step j below))
      ]

      unlocked :
          (j : ℕ) (q : Pcb)
          → get_elem? (with_child i bm).pcb j ≡ some (some q)
          → q.multex ≡ free_lock
      unlocked j q there = elim (Bool-cases (j == i)) [
        | inl e ↦
            let same : j ≡ i = ground arith in
            let there' =
              subst (λ k. get_elem? (with_child i bm).pcb k ≡ some (some q)) same there in
            let block : child_of i current name ≡ q = ground (arith, there', here) in
            sym (ap (λ (b : Pcb). b.multex) block)
        | inr n ↦
            let apart : i ≢ j = ground arith in
            coherent.blocks_unlocked j q
              (sym (get_elem?-set_ne t.pcb {i = i} {j = j} _ apart) ∙ there)
      ]

  in_free_slot :
      (f : FindsFirst t.bm 0 t.bm.num_bits (find_and_set t.bm))
      → exec_in_slot t name current free_lock (f.bitmap, pos f.found)
        ≡ ok (with_child f.found f.bitmap, pos f.found)
  unfolding exec_in_slot
  in_free_slot f =
      let small : f.found < length t.pcb = omega (arith, f.below, coherent.bits, coherent.slots) in
      let (old, e) = get_elem?-some t.pcb f.found small in rw (e, named_block f.found) refl

  -- A refusal on the table with its lock written out is one on the table.
  refuses :
      (current_name : Name)
      → exec_update (record t { bmsem = free_lock }) (some name) current current_name
        ≡ ok (record t { bmsem = free_lock }, minus_one)
      → exec_update t (some name) current current_name ≡ ok (t, minus_one)
  refuses current_name e =
      subst (λ s. exec_update s (some name) current current_name ≡ ok (s, minus_one)) unchanged e

  -- On a coherent table, Exec of a program whose name has less than 100 bytes answers -1 without a
  -- change if the program would start itself or no number is free; else the new process has the
  -- lowest free number and the caller as its parent, no other process changes, and the table stays
  -- coherent.
  pub exec_update-Executes :
      (current_name : Name)
      → Executes t name current current_name (exec_update t (some name) current current_name)
  unfolding exec_update p_round v exec_in_slot
  exec_update-Executes current_name = elim (Bool-cases (same_name name current_name)) [
    | inl e ↦ itself e (refuses current_name (rw e refl))
    | inr ne ↦ elim (find_and_set-Finds t.bm coherent.bitmap) [
      | inl f ↦
          let small : f.found < max_process = omega (arith, f.below, coherent.bits) in
          started f.found (with_child f.found f.bitmap) small
            (ground (arith, coherent.in_step f.found small, f.was_clear))
            (λ j below. ground (
              arith,
              coherent.in_step j (omega (arith, below, small)),
              f.first j (omega arith) below,
            ))
            (subst
              (λ s.
                exec_update s (some name) current current_name
                ≡ ok (with_child f.found f.bitmap, pos f.found))
              unchanged (rw (ne, f.returns) (in_free_slot f)))
            (started_at f.found f.bitmap small f.updates)
      | inr f ↦
          full
            (λ i below.
              sym (coherent.in_step i below)
              ∙ f.all_marked i (omega arith) (omega (arith, below, coherent.bits)))
            (refuses current_name (rw (ne, f.returns) refl))
    ]
  ]
