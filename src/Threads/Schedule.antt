-- ===== src/Threads/Schedule.antt =====
-- The threads that use one semaphore of threads/synch.cc, as threads/scheduler.cc runs them: which
-- thread runs P or V next is not fixed, but a thread that V has woken waits on the ready list, and
-- those on the list run in its order (ReadyToRun appends, FindNextToRun takes the front).
use nachos_assignment.Threads.Semaphore.{
  Semaphore, Round, passes, sleeps, p_round, v, is_in_list, append,
}
use nachos_assignment.Threads.Semaphore
use nachos_assignment.Base.{
  ℕ, ◌+◌, ◌≡◌, false, Option, none, some, List, [], ◌∷◌, pos, Outcome, ok, ◌>>=◌,
}

-- `woken` holds the threads on the ready list that go on in the loop of P. `passed` counts the
-- calls of P that have ended, `posted` the calls of V.
pub record System : Type 0 where
  pub sem : Semaphore
  pub woken : List ℕ
  pub passed : ℕ
  pub posted : ℕ

abbrev pub initial : ℕ → System
initial n = record { sem = Semaphore.new (pos n); woken = []; passed = 0; posted = 0 }

-- A thread runs one round of the loop of P, up to its end or up to Thread::Sleep.
unfoldable pub p_step : System → ℕ → Outcome System
p_step s t = p_round s.sem t >>= λ r. elim r [
  | passes sem ↦ ok (record s { sem = sem; passed = s.passed + 1 })
  | sleeps sem ↦ ok (record s { sem = sem })
]

-- Scheduler::ReadyToRun of the thread that V takes off the queue.
unfoldable pub ready_to_run : List ℕ → Option ℕ → Outcome (List ℕ)
ready_to_run ready none = ok ready
ready_to_run ready (some t) = append ready t

-- Scheduler::FindNextToRun, with the list that is left.
unfoldable pub find_next_to_run : List ℕ → Option ℕ × List ℕ
find_next_to_run [] = (none, [])
find_next_to_run (t ∷ rest) = (some t, rest)

-- A thread runs V.
unfoldable pub v_step : System → Outcome System
v_step s = do
  r ← v s.sem
  woken ← ready_to_run s.woken r.1
  ok (record { sem = r.0; woken = woken; passed = s.passed; posted = s.posted + 1 })

-- A thread that is neither asleep nor woken calls P; the first woken thread goes on; or a thread
-- calls V.
pub data Step (s u : System) : Type 0 where
  enters :
      (t : ℕ)
      → is_in_list t s.sem.queue ≡ false
      → is_in_list t s.woken ≡ false
      → p_step s t ≡ ok u
      → Step s u
  resumes :
      (t : ℕ) (rest : List ℕ)
      → find_next_to_run s.woken ≡ (some t, rest)
      → p_step (record s { woken = rest }) t ≡ ok u
      → Step s u
  signals : v_step s ≡ ok u → Step s u

pub data Reach (n : ℕ) : System → Type 0 where
  start : Reach n (initial n)
  next : {s u : System} → Reach n s → Step s u → Reach n u

-- The scheduler runs the threads of its ready list, `ready`, one after the other, each up to the
-- end of P or up to Thread::Sleep.
unfoldable pub run_ready : List ℕ → System → Outcome System
run_ready [] s = ok s
run_ready (t ∷ rest) s = p_step (record s { woken = rest }) t >>= run_ready rest
