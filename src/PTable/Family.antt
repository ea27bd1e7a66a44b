-- ===== src/PTable/Family.antt =====
-- Join and Exit of threads/ptable.cc step by step, on a parent and its child.
use nachos_assignment.PTable.{
  exited, remove, exit_sleeps, is_exist, joined, exit_wait, exit_known, join_end, join_child,
  join_sleeps, join_wait, exit_update, join_update, PTable, slot, put,
}
use nachos_assignment.PTable.Invariant.{IsCoherent, is_exist_known}
use nachos_assignment.PTable.Block.{Pcb, dec_num_wait, inc_num_wait}
use nachos_assignment.Threads.Semaphore.{Semaphore, p_round, v, append, is_in_list, free_lock}
use nachos_assignment.Threads.Semaphore
use nachos_assignment.Base.{
  ℕ, ◌+◌, ◌-◌, ◌^◌, ◌<◌, ◌≡◌, refl, sym, ap, ◌∙◌, ◌≢◌, false, Option, some, List, [], ◌∷◌, arith,
  ◌==◌, get_elem?, set, length-set, get_elem?-set_self, get_elem?-set_ne, get_elem?_inside,
  set-set_self, set-set_ne, ℤ, pos, ok, ◌>>=◌,
}

-- `c` is a running child of `p`, which nobody has joined.
pub record IsChild (t : PTable) (p c : ℕ) (pp pc : Pcb) : Type 0 where
  pub parent : get_elem? t.pcb p ≡ some (some pp)
  pub child : get_elem? t.pcb c ≡ some (some pc)
  pub apart : p ≢ c
  pub not_main : 0 < c
  pub parent_is : pc.parent_id ≡ pos p
  pub join_new : pc.joinsem ≡ Semaphore.new (pos 0)
  pub exit_new : pc.exitsem ≡ Semaphore.new (pos 0)
  pub waits_few : pp.numwait + 1 < 2 ^ 31

module _ (t : PTable) (p c : ℕ) (pp pc : Pcb) where
  abbrev pub dad : ℕ → Pcb
  dad n = record pp { multex = free_lock; numwait = n }

  abbrev pub kid : Semaphore → Semaphore → ℤ → Pcb
  kid join exit code = record pc {
    joinsem = join;
    exitsem = exit;
    exitcode = code;
    parent_id = pos p;
  }

  -- The table with other blocks for the parent and the child.
  abbrev pub family : Pcb → Pcb → PTable
  family a b = record t { pcb = set (set t.pcb p (some a)) c (some b) }

  module _ (h : IsChild t p c pp pc) where
    pub slot_child : (a b : Pcb) → slot (family a b) (pos c) ≡ ok b
    unfolding slot
    slot_child a b =
        let inside = get_elem?_inside t.pcb c (some pc) h.child in
        rw
          (get_elem?-set_self (set t.pcb p (some a)) c (some b)
            (omega (arith, inside, length-set t.pcb p (some a))))
          refl

    pub slot_parent : (a b : Pcb) → slot (family a b) (pos p) ≡ ok a
    unfolding slot
    slot_parent a b =
        let inside = get_elem?_inside t.pcb p (some pp) h.parent in
        rw
          (
            get_elem?-set_ne (set t.pcb p (some a)) {i = c} {j = p} (some b) (λ e. h.apart (sym e)),
            get_elem?-set_self t.pcb p (some a) inside,
          )
          refl

    pub put_child : (a b b' : Pcb) → put (family a b) (pos c) b' ≡ family a b'
    unfolding put
    put_child a b b' =
        ap (λ l. record t { pcb = l }) (set-set_self (set t.pcb p (some a)) c (some b) (some b'))

    pub put_parent : (a a' b : Pcb) → put (family a b) (pos p) a' ≡ family a' b
    unfolding put
    put_parent a a' b =
        ap (λ l. record t { pcb = l })
          (set-set_ne (set t.pcb p (some a)) c p (some b) (some a') (λ e. h.apart (sym e))
            ∙ ap (λ l. set l c (some b)) (set-set_self t.pcb p (some a) (some a')))

    abbrev pub zero_sem : Semaphore
    zero_sem = Semaphore.new (pos 0)

    -- A semaphore with one thread in its queue.
    abbrev pub held_by : ℕ → Semaphore
    held_by thread = record { value = pos 0; queue = thread ∷ [] }

    abbrev pub one_sem : Semaphore
    one_sem = Semaphore.new (pos 1)

    -- A round of JoinWait by the parent, on a child that has not called Exit, and on one that has.
    pub join_wait_sleeps :
        (a : Pcb) (e : Semaphore) (x : ℤ)
        → join_wait (family a (kid zero_sem e x)) (pos c) p
          ≡ ok (join_sleeps (family a (kid (held_by p) e x)))
    unfolding join_wait p_round append is_in_list
    join_wait_sleeps a e x =
        rw (slot_child a (kid zero_sem e x), put_child a (kid zero_sem e x) (kid (held_by p) e x))
          refl

    pub join_wait_passes :
        (a : Pcb) (q : List ℕ) (e e' : Semaphore) (woken : Option ℕ) (x : ℤ)
        → v e ≡ ok (e', woken)
        → join_wait (family a (kid (record { value = pos 1; queue = q }) e x)) (pos c) p
          ≡ ok (joined (family a (kid (record { value = pos 0; queue = q }) e' x)) x woken)
    unfolding join_wait p_round join_end
    join_wait_passes a q e e' woken x ev =
        rw
          (
            slot_child a (kid (record { value = pos 1; queue = q }) e x),
            put_child a (kid (record { value = pos 1; queue = q }) e x)
                (kid (record { value = pos 0; queue = q }) e x),
            slot_child a (kid (record { value = pos 0; queue = q }) e x),
            ev,
            put_child a (kid (record { value = pos 0; queue = q }) e x)
                (kid (record { value = pos 0; queue = q }) e' x),
          )
          refl

    -- JoinUpdate by the parent comes to a round of JoinWait.
    pub join_update_waits :
        (n : ℕ) (k : Pcb)
        → IsCoherent t
        → n + 1 < 2 ^ 31
        → k.parent_id ≡ pos p
        → join_update (family (dad n) k) (pos c) p ≡ join_wait (family (dad (n + 1)) k) (pos c) p
    unfolding join_update join_child inc_num_wait is_exist p_round v
    join_update_waits n k coherent few of_p =
        let known = is_exist_known t c pc coherent h.child in
        rw (known, slot_child (dad n) k)
          (ground (arith, of_p, slot_parent (dad n) k, put_parent (dad n) (dad (n + 1)) k, few))

    dec_dad : (n thread : ℕ) → dec_num_wait (dad n) thread ≡ ok (dad (n - 1))
    unfolding dec_num_wait p_round v
    dec_dad n thread = refl

    -- A round of ExitWait by the child, when nobody has let it go, and when its parent has.
    pub exit_wait_sleeps :
        (a : Pcb) (j : Semaphore) (x code : ℤ)
        → exit_wait (family a (kid j zero_sem x)) code c
          ≡ ok (exit_sleeps (family a (kid j (held_by c) x)))
    unfolding exit_wait p_round append is_in_list
    exit_wait_sleeps a j x code =
        rw (slot_child a (kid j zero_sem x), put_child a (kid j zero_sem x) (kid j (held_by c) x))
          refl

    pub exit_wait_passes :
        (a : Pcb) (j : Semaphore) (x code : ℤ)
        → exit_wait (family a (kid j one_sem x)) code c
          ≡ (remove (family a (kid j zero_sem x)) c >>= λ t'. ok (exited t' code))
    unfolding exit_wait p_round
    exit_wait_passes a j x code =
        rw (slot_child a (kid j one_sem x), put_child a (kid j one_sem x) (kid j zero_sem x)) refl

    -- ExitUpdate by the child, up to its sleep in ExitWait.
    pub exit_update_sleeps :
        (n : ℕ) (j j' : Semaphore) (woken : Option ℕ) (x code : ℤ)
        → IsCoherent t
        → v j ≡ ok (j', woken)
        → exit_update (family (dad n) (kid j zero_sem x)) code c
          ≡ ok (exit_sleeps (family (dad (n - 1)) (kid j' (held_by c) code)), woken)
    unfolding exit_update exit_known is_exist
    exit_update_sleeps n j j' woken x code coherent ev =
        let known = is_exist_known t c pc coherent h.child in
        let running : (c == 0) ≡ false = ground (arith, h.not_main) in
        rw
          (
            known,
            running,
            slot_child (dad n) (kid j zero_sem x),
            put_child (dad n) (kid j zero_sem x) (kid j zero_sem code),
            slot_parent (dad n) (kid j zero_sem code),
            dec_dad n c,
            put_parent (dad n) (dad (n - 1)) (kid j zero_sem code),
            slot_child (dad (n - 1)) (kid j zero_sem code),
            ev,
            put_child (dad (n - 1)) (kid j zero_sem code) (kid j' zero_sem code),
            exit_wait_sleeps (dad (n - 1)) j' code code,
          )
          refl
