-- ===== src/PTable/Invariant.antt =====
-- When a table of threads/ptable.cc is in order between two calls.
use nachos_assignment.PTable.{max_process, PTable, is_exist}
use nachos_assignment.PTable.Block.{Pcb}
use nachos_assignment.Bitmap.View.{marked, IsWf}
use nachos_assignment.Bitmap.Laws.{test-marked}
use nachos_assignment.Threads.Semaphore.{free_lock}
use nachos_assignment.Base.{
  ℕ, ◌<◌, ◌≡◌, Bool, true, false, Option, some, arith, length, get_elem?, get_elem?_inside, pos, ok,
}

abbrev pub is_process : Option (Option Pcb) → Bool
is_process (some (some p)) = true
is_process _ = false

-- A number is marked exactly when it has a control block, and nobody is in a protected section.
pub record IsCoherent (t : PTable) : Type 0 where
  pub bitmap : IsWf t.bm
  pub bits : t.bm.num_bits ≡ max_process
  pub slots : length t.pcb ≡ max_process
  pub in_step : (i : ℕ) → i < max_process → marked t.bm i ≡ is_process (get_elem? t.pcb i)
  pub unlocked : t.bmsem ≡ free_lock
  pub blocks_unlocked : (i : ℕ) (p : Pcb) → get_elem? t.pcb i ≡ some (some p) → p.multex ≡ free_lock

pub is_exist_known :
    (t : PTable) (i : ℕ) (p : Pcb)
    → IsCoherent t
    → get_elem? t.pcb i ≡ some (some p)
    → is_exist t (pos i) ≡ ok true
unfolding is_exist
is_exist_known t i p c h =
    let inside : i < max_process = omega (arith, get_elem?_inside t.pcb i (some p) h, c.slots) in
    let read = test-marked t.bm i c.bitmap (omega (arith, inside, c.bits)) in
    ground (arith, read, c.in_step i inside, h)
