-- ===== src/PTable/Block.antt =====
-- threads/pcb.h and threads/pcb.cc: the control block of a process. The thread of a process goes by
-- the number of the process. The files of a process and boolBG, which nothing reads, are left out.
use nachos_assignment.Threads.Semaphore.{Semaphore, lock, v}
use nachos_assignment.Threads.Semaphore
use nachos_assignment.Base.{
  check_int, ℕ, ◌+◌, ◌-◌, [], ltb, ◌==◌, if◌then◌else◌, length, ℤ, pos, minus_one, Name, undefined,
  Outcome, ok, err, ◌>>=◌, ◌>>◌, Name,
}

-- The bytes of PCB::FileName, the closing 0 included.
abbrev pub max_filename_length : ℕ
max_filename_length = 100

pub record Pcb : Type 0 where
  pub joinsem : Semaphore
  pub exitsem : Semaphore
  pub multex : Semaphore
  pub exitcode : ℤ
  pub numwait : ℕ
  pub file_name : Name
  pub parent_id : ℤ

-- PCB::PCB(id), made by the process `current`
abbrev pub new : ℕ → ℕ → Pcb
new id current = record {
  joinsem = Semaphore.new (pos 0);
  exitsem = Semaphore.new (pos 0);
  multex = Semaphore.new (pos 1);
  exitcode = pos 0;
  numwait = 0;
  file_name = [];
  parent_id = if id == 0 then minus_one else pos current;
}

-- The sections that `multex` protects, run by a thread.
unfoldable pub inc_num_wait : Pcb → ℕ → Outcome Pcb
inc_num_wait p thread = do
  s ← lock p.multex thread
  check_int (p.numwait + 1)
  r ← v s
  ok (record p { multex = r.0; numwait = p.numwait + 1 })

unfoldable pub dec_num_wait : Pcb → ℕ → Outcome Pcb
dec_num_wait p thread = do
  s ← lock p.multex thread
  r ← v s
  ok (record p { multex = r.0; numwait = p.numwait - 1 })

-- PCB::SetFileName copies past its array where the name is too long for it.
unfoldable pub set_file_name : Pcb → Name → Outcome Pcb
set_file_name p name =
    if ltb (length name) max_filename_length
    then ok (record p { file_name = name })
    else err undefined

-- PCB::Exec(filename, id), up to the Fork of the thread of the new process.
unfoldable pub exec : Pcb → Name → ℕ → Outcome Pcb
exec p name current = do
  s ← lock p.multex current
  named ← set_file_name p name
  r ← v s
  ok (record named { multex = r.0; parent_id = pos current })
