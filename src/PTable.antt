-- ===== src/PTable.antt =====
-- threads/ptable.h and threads/ptable.cc: the table of the processes, with Exec, Join and Exit. A call
-- that can sleep in P is cut there: what follows is run when its thread goes on.
pub mod Block
pub mod Invariant
pub mod Exec
pub mod Family
pub mod Orphans
pub mod Handshake
pub mod Refusals
pub mod Tests
use nachos_assignment.Bitmap.{Bitmap, index, test, mark, clear, find_and_set}
use nachos_assignment.Bitmap
use nachos_assignment.PTable.Block.{Pcb, inc_num_wait, dec_num_wait, exec}
use nachos_assignment.PTable.Block
use nachos_assignment.Threads.Semaphore.{Semaphore, Round, passes, sleeps, p_round, v, lock}
use nachos_assignment.Threads.Semaphore
use nachos_assignment.Base.{
  ◌&&◌, ◌||◌, not, ℕ, zero, suc, ◌+◌, ◌-◌, ◌*◌, ◌/◌, ◌%◌, ◌^◌, ◌≤◌, ◌<◌, min, max, bit_and, bit_or,
  ◌≡◌, refl, sym, ap, ap₂, ◌∙◌, subst, fun_ext, ◌≢◌, ◌↔◌, ◌⊎◌, inl, inr, Bool, true, false, Option,
  none, some, List, [], ◌∷◌, ◌++◌, map, arith, ltb, leb, ◌==◌, if◌then◌else◌, ltb→lt, lt→ltb,
  leb→le, ==_iff, tests, Bool-cases, Option-cases, every, every-test, agree, agree_eq, length,
  get_elem?, set, get_or, take, drop, replicate, length-append, length-set, get_elem?-set_self,
  get_elem?-set_ne, take-append-drop, length-take, length-drop, length-replicate, length-map,
  get_elem?-eq-get_or, get_or-set_self, get_or-set_ne, get_or-replicate, get_elem?-none,
  get_elem?-some, get_elem?_beyond, get_elem?_inside, drop_all, drop_step, set-set_self, set-set_ne,
  set-get_elem?, among, IsDistinct, ℤ, pos, negsuc, pos_part, neg_part, sub_ℕ, neg_ℤ, ltb_ℤ,
  to_unsigned, to_int, IsInt, to_int-to_unsigned, ◌+ℤ◌, ◌-ℤ◌, same_int, minus_one, Name, same_name,
  same_name_eq, same_name_refl, Stop, aborted, halted, undefined, Outcome, ok, err, check_int,
  ◌>>=◌, ◌>>◌, assert, deref, at, Name, same_name, same_name_eq, same_name_refl,
}

abbrev pub max_process : ℕ
max_process = 10

-- A pointer of `pcb` that is NULL, or whose control block has been destroyed, is `none`: to follow
-- either is undefined.
pub record PTable : Type 0 where
  pub psize : ℕ
  pub bm : Bitmap
  pub pcb : List (Option Pcb)
  pub bmsem : Semaphore

-- PTable::PTable(size); nothing is set for a negative size.
unfoldable pub new : ℕ → Outcome PTable
new size = do
  bm ← Bitmap.new (pos size)
  bm' ← mark bm (pos 0)
  ok (record {
    psize = size;
    bm = bm';
    pcb =
        set (replicate max_process none) 0
          (some (record (Block.new 0 0) { parent_id = minus_one }));
    bmsem = Semaphore.new (pos 1);
  })

-- pcb[id], followed
unfoldable pub slot : PTable → ℤ → Outcome Pcb
slot t (pos i) = do p ← at t.pcb i; deref p
slot t (negsuc i) = err undefined

unfoldable pub put : PTable → ℤ → Pcb → PTable
put t id p = record t { pcb = set t.pcb (index id) (some p) }

unfoldable pub is_exist : PTable → ℤ → Outcome Bool
is_exist t (negsuc i) = ok false
is_exist t (pos i) = if leb max_process i then ok false else test t.bm (pos i)

-- `delete` destroys the control block, whose destructor ends the running thread of the process.
unfoldable pub remove : PTable → ℕ → Outcome PTable
remove t pid = do
  bm ← clear t.bm (pos pid)
  _ ← at t.pcb pid
  ok (record t { bm = bm; pcb = set t.pcb pid none })

-- The end of ExecUpdate, once GetFreeSlot has answered; `released` is bmsem after its V.
unfoldable pub exec_in_slot : PTable → Name → ℕ → Semaphore → Bitmap × ℤ → Outcome (PTable × ℤ)
exec_in_slot t name current released (bm, negsuc i) =
    ok (record t { bm = bm; bmsem = released }, minus_one)
exec_in_slot t name current released (bm, pos i) = do
  _ ← at t.pcb i
  p ← exec (Block.new i current) name current
  ok (record t { bm = bm; pcb = set t.pcb i (some p); bmsem = released }, pos i)

-- PTable::ExecUpdate(filename) by the process `current`, whose thread has the name `current_name`.
-- A process number as the answer means that the thread of that process is ready to run.
unfoldable pub exec_update : PTable → Option Name → ℕ → Name → Outcome (PTable × ℤ)
exec_update t filename current current_name = do
  s ← lock t.bmsem current
  r ← v s
  let released = r.0
  let refused = ok (record t { bmsem = released }, minus_one)
  elim filename [
    | none ↦ refused
    | some name ↦
        let fresh = find_and_set t.bm >>= exec_in_slot t name current released in
        if same_name name current_name then refused else fresh
  ]

-- How far a call of JoinUpdate comes: it has its answer, with the thread that it wakes, or it sleeps.
pub data Joining : Type 0 where
  joined : PTable → ℤ → Option ℕ → Joining
  join_sleeps : PTable → Joining

-- The end of JoinUpdate: the exit code of the child, which is let go.
unfoldable pub join_end : PTable → ℤ → Outcome Joining
join_end t id = do
  child ← slot t id
  after ← v child.exitsem
  ok (joined (put t id (record child { exitsem = after.0 })) child.exitcode after.1)

-- JoinWait and what follows, when its thread runs: a round of the loop of P.
unfoldable pub join_wait : PTable → ℤ → ℕ → Outcome Joining
join_wait t id current = do
  child ← slot t id
  r ← p_round child.joinsem current
  elim r [
    | sleeps s ↦ ok (join_sleeps (put t id (record child { joinsem = s })))
    | passes s ↦ join_end (put t id (record child { joinsem = s })) id
  ]

unfoldable pub join_child : PTable → ℤ → ℕ → Pcb → Outcome Joining
join_child t id current child = do
  parent ← slot t child.parent_id
  parent' ← inc_num_wait parent current
  join_wait (put t child.parent_id parent') id current

-- PTable::JoinUpdate(id) by the process `current`
unfoldable pub join_update : PTable → ℤ → ℕ → Outcome Joining
join_update t id current = do
  known ← is_exist t id
  let own = slot t id >>= λ child.
      let wait = join_child t id current child in
      if same_int (pos current) child.parent_id then wait else ok (joined t minus_one none)
  if known then own else ok (joined t minus_one none)

-- How far a call of ExitUpdate comes: its process is removed, and its thread ends with that, or it
-- sleeps.
pub data Exiting : Type 0 where
  exited : PTable → ℤ → Exiting
  exit_sleeps : PTable → Exiting

-- ExitWait and what follows, when its thread runs.
unfoldable pub exit_wait : PTable → ℤ → ℕ → Outcome Exiting
exit_wait t exitcode current = do
  p ← slot t (pos current)
  r ← p_round p.exitsem current
  elim r [
    | sleeps s ↦ ok (exit_sleeps (put t (pos current) (record p { exitsem = s })))
    | passes s ↦ remove (put t (pos current) (record p { exitsem = s })) current >>= λ t'.
        ok (exited t' exitcode)
  ]

-- The part of ExitUpdate for a process that exists, with the thread that it wakes.
unfoldable pub exit_known : PTable → ℤ → ℕ → Outcome (Exiting × Option ℕ)
exit_known t exitcode current = do
  p ← slot t (pos current)
  let t1 = put t (pos current) (record p { exitcode = exitcode })
  parent ← slot t1 p.parent_id
  parent' ← dec_num_wait parent current
  let t2 = put t1 p.parent_id parent'
  p' ← slot t2 (pos current)
  after ← v p'.joinsem
  end ← exit_wait (put t2 (pos current) (record p' { joinsem = after.0 })) exitcode current
  ok (end, after.1)

-- PTable::ExitUpdate(exitcode) by the process `current`; the exit of the main process halts.
unfoldable pub exit_update : PTable → ℤ → ℕ → Outcome (Exiting × Option ℕ)
exit_update t exitcode current = do
  let rest = is_exist t (pos current) >>= λ known.
      let run = exit_known t exitcode current in
      if known then run else ok (exited t minus_one, none)
  if current == 0 then err halted else rest
