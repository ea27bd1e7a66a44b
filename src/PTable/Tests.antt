-- ===== src/PTable/Tests.antt =====
-- A table with the main process and one child of it, for the theorems on threads/ptable.cc.
use nachos_assignment.PTable.Refusals.{of_another, exit_without_parent, join_update_refuses}
use nachos_assignment.PTable.{
  PTable, exec_update, joined, join_sleeps, join_wait, join_update, exited, exit_sleeps, exit_wait,
  exit_update,
}
use nachos_assignment.PTable.Block.{Pcb}
use nachos_assignment.PTable.Block
use nachos_assignment.PTable.Invariant.{is_process, IsCoherent}
use nachos_assignment.PTable.Family.{IsChild}
use nachos_assignment.PTable.Orphans.{Gone}
use nachos_assignment.PTable.Handshake.{join-exit, exit-join}
use nachos_assignment.PTable.Exec.{Executes, exec_update-Executes}
use nachos_assignment.Bitmap.View.{marked}
use nachos_assignment.Bitmap.Bits.{bit}
use nachos_assignment.Threads.Semaphore.{free_lock}
use nachos_assignment.Base.{
  ℕ, zero, suc, ◌^◌, ◌<◌, ◌≡◌, refl, sym, ap, Bool, true, none, some, [], ◌∷◌, arith, every,
  every-test, agree, agree_eq, get_elem?, get_or, replicate, pos, minus_one, undefined, ok, err,
}

abbrev main_block : Pcb
main_block = Block.new 0 0

abbrev child_block : Pcb
child_block = record (Block.new 1 0) { file_name = b'a' ∷ [] }

abbrev table : PTable
table = record {
  psize = 10;
  bm = record { num_bits = 10; num_words = 1; map = 3 ∷ [] };
  pcb = some main_block ∷ some child_block ∷ replicate 8 none;
  bmsem = free_lock;
}

one_word : (k : ℕ) → get_or (3 ∷ []) k 0 < 2 ^ 32
one_word zero = omega arith
one_word (suc k) = omega arith

nobody : (n i : ℕ) (q : Pcb) → get_elem? (replicate n none) i ≡ some (some q) → ⊥
nobody zero i q h = ground (arith, h)
nobody (suc n) zero q h = ground (arith, h)
nobody (suc n) (suc i) q h = nobody n i q h

unlocked : (i : ℕ) (q : Pcb) → get_elem? table.pcb i ≡ some (some q) → q.multex ≡ free_lock
unlocked zero q h =
    let same : main_block ≡ q = ground (arith, h) in sym (ap (λ (b : Pcb). b.multex) same)
unlocked (suc zero) q h =
    let same : child_block ≡ q = ground (arith, h) in sym (ap (λ (b : Pcb). b.multex) same)
unlocked (suc (suc i)) q h = absurd (nobody 8 i q h)

table-IsCoherent : IsCoherent table
table-IsCoherent = record {
  bitmap = record { words = refl; stored = refl; narrow = one_word };
  bits = refl;
  slots = refl;
  in_step = λ i h. agree_eq _ _ (every-test agrees 10 i all_agree h);
  unlocked = refl;
  blocks_unlocked = unlocked;
}
  where
    agrees : ℕ → Bool
    agrees i = agree (marked table.bm i) (is_process (get_elem? table.pcb i))

    all_agree : every agrees 10 ≡ true
    all_agree = unfold every marked bit in refl

running-IsChild : IsChild table 0 1 main_block child_block
running-IsChild = record {
  parent = refl;
  child = refl;
  apart = omega arith;
  not_main = omega arith;
  parent_is = refl;
  join_new = refl;
  exit_new = refl;
  waits_few = omega arith;
}

join-exit_example :
    (t1 t2 t3 t4 : PTable) × (join_update table (pos 1) 0 ≡ ok (join_sleeps t1))
    × (exit_update t1 (pos 7) 1 ≡ ok (exit_sleeps t2, some 0))
    × (join_wait t2 (pos 1) 0 ≡ ok (joined t3 (pos 7) (some 1)))
    × (exit_wait t3 (pos 7) 1 ≡ ok (exited t4 (pos 7)))
    × Gone table 0 1 t4
join-exit_example =
    join-exit table 0 1 main_block child_block table-IsCoherent running-IsChild (pos 7)

exit-join_example :
    (t1 t2 t3 : PTable) × (exit_update table (pos 7) 1 ≡ ok (exit_sleeps t1, none))
    × (join_update t1 (pos 1) 0 ≡ ok (joined t2 (pos 7) (some 1)))
    × (exit_wait t2 (pos 7) 1 ≡ ok (exited t3 (pos 7)))
    × Gone table 0 1 t3
exit-join_example =
    exit-join table 0 1 main_block child_block table-IsCoherent running-IsChild (pos 7)

exec_update-Executes_example :
    Executes table (b'b' ∷ []) 1 (b'a' ∷ []) (exec_update table (some (b'b' ∷ [])) 1 (b'a' ∷ []))
exec_update-Executes_example =
    exec_update-Executes table (b'b' ∷ []) 1 table-IsCoherent (omega arith) (b'a' ∷ [])

-- Process 2 is a child of process 1, which has gone.
abbrev late_block : Pcb
late_block = record (Block.new 2 1) { file_name = b'c' ∷ [] }

abbrev late_table : PTable
late_table = record {
  psize = 10;
  bm = record { num_bits = 10; num_words = 1; map = 5 ∷ [] };
  pcb = some main_block ∷ none ∷ some late_block ∷ replicate 7 none;
  bmsem = free_lock;
}

late_unlocked :
    (i : ℕ) (q : Pcb) → get_elem? late_table.pcb i ≡ some (some q) → q.multex ≡ free_lock
late_unlocked zero q h =
    let same : main_block ≡ q = ground (arith, h) in sym (ap (λ (b : Pcb). b.multex) same)
late_unlocked (suc zero) q h = absurd (nobody 1 0 q h)
late_unlocked (suc (suc zero)) q h =
    let same : late_block ≡ q = ground (arith, h) in sym (ap (λ (b : Pcb). b.multex) same)
late_unlocked (suc (suc (suc i))) q h = absurd (nobody 7 i q h)

late_word : (k : ℕ) → get_or (5 ∷ []) k 0 < 2 ^ 32
late_word zero = omega arith
late_word (suc k) = omega arith

late_table-IsCoherent : IsCoherent late_table
late_table-IsCoherent = record {
  bitmap = record { words = refl; stored = refl; narrow = late_word };
  bits = refl;
  slots = refl;
  in_step = λ i h. agree_eq _ _ (every-test agrees 10 i all_agree h);
  unlocked = refl;
  blocks_unlocked = late_unlocked;
}
  where
    agrees : ℕ → Bool
    agrees i = agree (marked late_table.bm i) (is_process (get_elem? late_table.pcb i))

    all_agree : every agrees 10 ≡ true
    all_agree = unfold every marked bit in refl

exit_without_parent_example : exit_update late_table (pos 0) 2 ≡ err undefined
exit_without_parent_example =
    exit_without_parent late_table 1 2 late_block (pos 0) late_table-IsCoherent refl refl refl
      (omega arith)

join_update_refuses_example : join_update table (pos 1) 1 ≡ ok (joined table minus_one none)
join_update_refuses_example =
    join_update_refuses table (pos 1) 1 table-IsCoherent (of_another 1 child_block refl refl)
