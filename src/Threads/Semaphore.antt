-- ===== src/Threads/Semaphore.antt =====
-- Semaphore of threads/synch.h and threads/synch.cc: what one thread does to it without letting go
-- of the CPU. A thread is a number.
use nachos_assignment.Base.{
  ◌||◌, not, ℕ, ◌+◌, ◌^◌, Bool, false, Option, none, some, List, [], ◌∷◌, ◌++◌, ltb, ◌==◌,
  if◌then◌else◌, ℤ, pos, negsuc, pos_part, neg_part, sub_ℕ, Stop, undefined, Outcome, ok, err,
  check_int, ◌>>=◌, ◌>>◌, assert,
}

-- `queue` holds the threads that sleep in P, the longest sleeper first.
pub record Semaphore : Type 0 where
  pub value : ℤ
  pub queue : List ℕ

-- Semaphore::Semaphore(debugName, initialValue)
abbrev pub new : ℤ → Semaphore
new v = record { value = v; queue = [] }

-- IsInList of lib/list.cc
unfoldable pub is_in_list : ℕ → List ℕ → Bool
is_in_list t [] = false
is_in_list t (x ∷ xs) = t == x || is_in_list t xs

-- List::Append of lib/list.cc, with its assertion that the item is not in the list.
unfoldable pub append : List ℕ → ℕ → Outcome (List ℕ)
append xs t = do assert (not (is_in_list t xs)); ok (xs ++ t ∷ [])

-- One round of the loop of P by thread `t`: the value is taken, or `t` queues up and sleeps.
pub data Round : Type 0 where
  passes sleeps : Semaphore → Round

abbrev pub is_zero : ℤ → Bool
is_zero (pos n) = n == 0
is_zero (negsuc n) = false

-- value--, which leaves an `int` only if the value is the least one.
abbrev pub count_down : ℤ → Outcome ℤ
count_down value =
    if ltb (neg_part value) (2 ^ 31)
    then ok (sub_ℕ (pos_part value) (neg_part value + 1))
    else err undefined

-- value++
abbrev pub count_up : ℤ → Outcome ℤ
count_up value = do check_int (pos_part value + 1); ok (sub_ℕ (pos_part value + 1) (neg_part value))

unfoldable pub p_round : Semaphore → ℕ → Outcome Round
p_round s t =
    if is_zero s.value
    then (append s.queue t >>= λ q. ok (sleeps (record s { queue = q })))
    else (count_down s.value >>= λ left. ok (passes (record s { value = left })))

-- V wakes the longest sleeper, if any, and counts up. The thread woken is handed to
-- Scheduler::ReadyToRun.
unfoldable pub v : Semaphore → Outcome (Semaphore × Option ℕ)
v s = do
  more ← count_up s.value
  elim s.queue [
    | [] ↦ ok (record s { value = more }, none)
    | t ∷ rest ↦ ok (record { value = more; queue = rest }, some t)
  ]

-- P by a thread that finds the semaphore free, or sleeps for good.
abbrev pub lock : Semaphore → ℕ → Outcome Semaphore
lock s thread =
    p_round s thread >>= λ r. elim r [ passes s' ↦ ok s' | sleeps s' ↦ err Stop.waiting ]

-- A semaphore that protects data, while no thread is in.
abbrev pub free_lock : Semaphore
free_lock = new (pos 1)
