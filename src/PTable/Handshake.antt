-- ===== src/PTable/Handshake.antt =====
-- Join and Exit of threads/ptable.cc between a parent and its child, in both orders.
use nachos_assignment.PTable.{
  exited, exit_wait, joined, join_wait, exit_sleeps, join_sleeps, exit_update, join_update, PTable,
}
use nachos_assignment.PTable.Orphans.{Gone, removed}
use nachos_assignment.PTable.Block.{Pcb}
use nachos_assignment.PTable.Invariant.{IsCoherent}
use nachos_assignment.PTable.Family.{
  exit_wait_passes, join_wait_passes, join_wait_sleeps, exit_update_sleeps, join_update_waits,
  IsChild, dad, kid, family,
}
use nachos_assignment.Threads.Semaphore.{Semaphore, v, free_lock}
use nachos_assignment.Threads.Semaphore
use nachos_assignment.Base.{
  ℕ, ◌+◌, ◌-◌, ◌≡◌, refl, sym, ap, ap₂, ◌∙◌, none, some, [], ◌∷◌, arith, set, set-get_elem?, ℤ, pos,
  ok,
}

module _ (t : PTable) (p c : ℕ) (pp pc : Pcb) (coherent : IsCoherent t)
    (h : IsChild t p c pp pc) where
  -- A table with the parent and the child at some point of the two calls.
  abbrev at_point : ℕ → Semaphore → Semaphore → ℤ → PTable
  at_point n join exit x = family t p c pp pc (dad t p c pp pc n) (kid t p c pp pc join exit x)

  dad_is : pp ≡ dad t p c pp pc pp.numwait
  dad_is = ap (λ s. record pp { multex = s }) (coherent.blocks_unlocked p pp h.parent)

  kid_is : pc ≡ kid t p c pp pc (Semaphore.new (pos 0)) (Semaphore.new (pos 0)) pc.exitcode
  kid_is =
      ap (λ s. record pc { joinsem = s }) h.join_new
      ∙ (ap (λ s. record pc { joinsem = Semaphore.new (pos 0); exitsem = s }) h.exit_new
          ∙ ap
              (λ i. record pc {
                joinsem = Semaphore.new (pos 0);
                exitsem = Semaphore.new (pos 0);
                parent_id = i;
              })
              h.parent_is)

  start : t ≡ at_point pp.numwait (Semaphore.new (pos 0)) (Semaphore.new (pos 0)) pc.exitcode
  start =
      sym (
        ap (λ l. record t { pcb = l })
          (ap (λ l. set l c (some pc)) (set-get_elem? t.pcb p (some pp) h.parent)
            ∙ set-get_elem? t.pcb c (some pc) h.child))
      ∙ ap₂ (λ (a b : Pcb). family t p c pp pc a b) dad_is kid_is

  abbrev queued : ℕ → Semaphore
  queued thread = record { value = pos 0; queue = thread ∷ [] }

  -- On a coherent table, if the parent joins before its new child exits: the parent sleeps, the
  -- exit of the child wakes it, it answers with the exit code of the child and wakes it, and the
  -- child is removed from a table that stays coherent and is otherwise unchanged but for the count
  -- of the waits of the parent.
  pub join-exit :
      (code : ℤ)
      → (t1 t2 t3 t4 : PTable) × (join_update t (pos c) p ≡ ok (join_sleeps t1))
        × (exit_update t1 code c ≡ ok (exit_sleeps t2, some p))
        × (join_wait t2 (pos c) p ≡ ok (joined t3 code (some c)))
        × (exit_wait t3 code c ≡ ok (exited t4 code))
        × Gone t p c t4
  unfolding v
  join-exit code =
      let n = pp.numwait in
      let x = pc.exitcode in
      let zero_sem = Semaphore.new (pos 0) in
      let (t4, gone, after) =
        removed t p c pp pc h (n + 1 - 1) (kid t p c pp pc zero_sem zero_sem code) coherent in
      (
        at_point (n + 1) (queued p) zero_sem x,
        at_point (n + 1 - 1) (Semaphore.new (pos 1)) (queued c) code,
        at_point (n + 1 - 1) zero_sem (Semaphore.new (pos 1)) code,
        t4,
        ap (λ s. join_update s (pos c) p) start
            ∙ (join_update_waits t p c pp pc h n (kid t p c pp pc zero_sem zero_sem x) coherent
                  h.waits_few refl
                ∙ join_wait_sleeps t p c pp pc h (dad t p c pp pc (n + 1)) zero_sem x),
        exit_update_sleeps t p c pp pc h (n + 1) (queued p) (Semaphore.new (pos 1)) (some p) x code
            coherent refl,
        join_wait_passes t p c pp pc h (dad t p c pp pc (n + 1 - 1)) [] (queued c)
            (Semaphore.new (pos 1)) (some c) code refl,
        exit_wait_passes t p c pp pc h (dad t p c pp pc (n + 1 - 1)) zero_sem code code
            ∙ rw gone refl,
        after,
      )

  -- On a coherent table, if the new child exits before its parent joins: the child sleeps, the join
  -- does not, answers with the exit code of the child and wakes it, and the child is removed from a
  -- table that stays coherent and is otherwise unchanged but for the count of the waits of the
  -- parent.
  pub exit-join :
      (code : ℤ)
      → (t1 t2 t3 : PTable) × (exit_update t code c ≡ ok (exit_sleeps t1, none))
        × (join_update t1 (pos c) p ≡ ok (joined t2 code (some c)))
        × (exit_wait t2 code c ≡ ok (exited t3 code))
        × Gone t p c t3
  unfolding v
  exit-join code =
      let n = pp.numwait in
      let x = pc.exitcode in
      let zero_sem = Semaphore.new (pos 0) in
      let one_sem = Semaphore.new (pos 1) in
      let (t3, gone, after) =
        removed t p c pp pc h (n - 1 + 1) (kid t p c pp pc zero_sem zero_sem code) coherent in
      (
        at_point (n - 1) one_sem (queued c) code,
        at_point (n - 1 + 1) zero_sem one_sem code,
        t3,
        ap (λ s. exit_update s code c) start
            ∙ exit_update_sleeps t p c pp pc h n zero_sem one_sem none x code coherent refl,
        join_update_waits t p c pp pc h (n - 1) (kid t p c pp pc one_sem (queued c) code) coherent
              (omega (arith, h.waits_few)) refl
            ∙ join_wait_passes t p c pp pc h (dad t p c pp pc (n - 1 + 1)) [] (queued c) one_sem
                (some c) code refl,
        exit_wait_passes t p c pp pc h (dad t p c pp pc (n - 1 + 1)) zero_sem code code
            ∙ rw gone refl,
        after,
      )
