-- ===== src/PTable/Refusals.antt =====
-- Calls of JoinUpdate and ExitUpdate of threads/ptable.cc that do not get through.
use nachos_assignment.PTable.{
  max_process, PTable, slot, put, is_exist, joined, join_update, exit_known, exit_update,
}
use nachos_assignment.PTable.Block.{Pcb}
use nachos_assignment.PTable.Invariant.{IsCoherent, is_exist_known}
use nachos_assignment.Bitmap.Laws.{test-marked}
use nachos_assignment.Base.{
  ℕ, ◌≤◌, ◌<◌, ◌≡◌, refl, sym, subst, ◌≢◌, false, none, some, arith, ◌==◌, get_elem?,
  get_elem?-set_ne, get_elem?_inside, ℤ, pos, negsuc, same_int, minus_one, undefined, ok, err,
}

-- No process has the number, or the caller is not its parent.
pub data IsForeign (t : PTable) (current : ℕ) : ℤ → Type 0 where
  negative : (n : ℕ) → IsForeign t current (negsuc n)
  beyond : (i : ℕ) → max_process ≤ i → IsForeign t current (pos i)
  unused : (i : ℕ) → get_elem? t.pcb i ≡ some none → IsForeign t current (pos i)
  of_another :
      (i : ℕ) (p : Pcb)
      → get_elem? t.pcb i ≡ some (some p)
      → same_int (pos current) p.parent_id ≡ false
      → IsForeign t current (pos i)

is_exist_unused :
    (t : PTable) (i : ℕ)
    → IsCoherent t
    → get_elem? t.pcb i ≡ some none
    → is_exist t (pos i) ≡ ok false
unfolding is_exist
is_exist_unused t i c h =
    let small : i < max_process = omega (arith, get_elem?_inside t.pcb i none h, c.slots) in
    let read = test-marked t.bm i c.bitmap (omega (arith, small, c.bits)) in
    ground (arith, read, c.in_step i small, h)

-- On a coherent table, Join of a number that has no process, or of a process that is not a child of
-- the caller, answers -1, changes nothing and wakes nobody.
pub join_update_refuses :
    (t : PTable) (id : ℤ) (current : ℕ)
    → IsCoherent t
    → IsForeign t current id
    → join_update t id current ≡ ok (joined t minus_one none)
unfolding join_update is_exist slot
join_update_refuses t (negsuc n) current c h = refl
join_update_refuses t (pos i) current c (beyond _ h) = ground (arith, h)
join_update_refuses t (pos i) current c (unused _ h) = rw (is_exist_unused t i c h) refl
join_update_refuses t (pos i) current c (of_another _ p h other) =
    rw (is_exist_known t i p c h, h, other) refl

-- On a coherent table, the exit of a process whose parent has no control block any more follows the
-- pointer to it, which is undefined.
pub exit_without_parent :
    (t : PTable) (p c : ℕ) (pc : Pcb) (code : ℤ)
    → IsCoherent t
    → get_elem? t.pcb c ≡ some (some pc)
    → pc.parent_id ≡ pos p
    → get_elem? t.pcb p ≡ some none
    → 0 < c
    → exit_update t code c ≡ err undefined
unfolding exit_update exit_known
exit_without_parent t p c pc code coherent child parent_is gone positive =
    rw (running, is_exist_known t c pc coherent child, own, missing (record pc { exitcode = code }))
      refl
  where
    running : (c == 0) ≡ false
    running = ground (arith, positive)

    apart : c ≢ p
    apart e =
        absurd (ground (arith, subst (λ k. get_elem? t.pcb k ≡ some none) (sym e) gone, child))

    own : slot t (pos c) ≡ ok pc
    own = unfold slot in rw child refl

    missing : (x : Pcb) → slot (put t (pos c) x) pc.parent_id ≡ err undefined
    missing x =
        subst (λ k. slot (put t (pos c) x) k ≡ err undefined) (sym parent_is)
          (unfold slot put in rw (get_elem?-set_ne t.pcb {i = c} {j = p} (some x) apart, gone) refl)
