-- ===== src/Threads/Lock.antt =====
-- Lock of threads/synch.h and threads/synch.cc, and the threads that use one lock.
use nachos_assignment.Threads.Semaphore.{
  Semaphore, Round, passes, sleeps, p_round, v, is_in_list, append,
}
use nachos_assignment.Threads.Semaphore
use nachos_assignment.Threads.Schedule.{ready_to_run, find_next_to_run}
use nachos_assignment.Base.{
  ℕ, ◌≡◌, Bool, true, false, Option, none, some, List, [], ◌∷◌, ◌==◌, if◌then◌else◌, pos, Outcome,
  ok, ◌>>=◌, ◌>>◌, assert,
}

pub record Lock : Type 0 where
  pub semaphore : Semaphore
  pub lock_holder : Option ℕ

-- Lock::Lock(debugName)
abbrev pub new : Lock
new = record { semaphore = Semaphore.new (pos 1); lock_holder = none }

-- One round of the loop of P in Acquire: the thread gets the lock, or it sleeps.
pub data Acquiring : Type 0 where
  acquired waits : Lock → Acquiring

unfoldable pub acquire_round : Lock → ℕ → Outcome Acquiring
acquire_round l current = p_round l.semaphore current >>= λ r. elim r [
  | passes s ↦ ok (acquired (record { semaphore = s; lock_holder = some current }))
  | sleeps s ↦ ok (waits (record l { semaphore = s }))
]

unfoldable pub is_held_by : Lock → ℕ → Bool
is_held_by l current = elim l.lock_holder [ none ↦ false | some t ↦ t == current ]

-- Release by the current thread, with the thread that V wakes.
unfoldable pub release : Lock → ℕ → Outcome (Lock × Option ℕ)
release l current = do
  assert (is_held_by l current)
  r ← v l.semaphore
  ok (record { semaphore = r.0; lock_holder = none }, r.1)

-- `woken` holds the threads on the ready list that go on in Acquire, `inside` those that have come
-- back from Acquire and have not called Release since.
pub record Users : Type 0 where
  pub lock : Lock
  pub woken : List ℕ
  pub inside : List ℕ

abbrev pub unused : Users
unused = record { lock = new; woken = []; inside = [] }

abbrev pub without : ℕ → List ℕ → List ℕ
without t [] = []
without t (x ∷ xs) = let rest = without t xs in if t == x then rest else x ∷ rest

unfoldable pub acquire_step : Users → ℕ → Outcome Users
acquire_step u t = acquire_round u.lock t >>= λ r. elim r [
  | acquired l ↦ ok (record { lock = l; woken = u.woken; inside = t ∷ u.inside })
  | waits l ↦ ok (record u { lock = l })
]

unfoldable pub release_step : Users → ℕ → Outcome Users
release_step u t = do
  r ← release u.lock t
  ready ← ready_to_run u.woken r.1
  ok (record { lock = r.0; woken = ready; inside = without t u.inside })

-- A thread that is neither asleep nor woken calls Acquire; the first woken thread goes on; or a
-- thread that is inside calls Release.
pub data Step (u w : Users) : Type 0 where
  enters :
      (t : ℕ)
      → is_in_list t u.lock.semaphore.queue ≡ false
      → is_in_list t u.woken ≡ false
      → acquire_step u t ≡ ok w
      → Step u w
  resumes :
      (t : ℕ) (rest : List ℕ)
      → find_next_to_run u.woken ≡ (some t, rest)
      → acquire_step (record u { woken = rest }) t ≡ ok w
      → Step u w
  leaves : (t : ℕ) → is_in_list t u.inside ≡ true → release_step u t ≡ ok w → Step u w

pub data Reach : Users → Type 0 where
  start : Reach unused
  next : {u w : Users} → Reach u → Step u w → Reach w
