-- ===== src/STable.antt =====
-- threads/stable.h, threads/stable.cc and threads/sem.h: the semaphores that user programs name.
pub mod Slots
pub mod Invariant
pub mod Laws
pub mod Blocking
pub mod Tests
use nachos_assignment.Bitmap.{Bitmap, test, find_and_set}
use nachos_assignment.Bitmap
use nachos_assignment.Threads.Semaphore.{Semaphore, Round, passes, sleeps, p_round, v}
use nachos_assignment.Threads.Semaphore
use nachos_assignment.Base.{
  ◌&&◌, ◌||◌, not, ℕ, zero, suc, ◌+◌, ◌-◌, ◌*◌, ◌/◌, ◌%◌, ◌^◌, ◌≤◌, ◌<◌, min, max, bit_and, bit_or,
  ◌≡◌, refl, sym, ap, ap₂, ◌∙◌, subst, fun_ext, ◌≢◌, ◌↔◌, ◌⊎◌, inl, inr, Bool, true, false, Option,
  none, some, List, [], ◌∷◌, ◌++◌, map, arith, ltb, leb, ◌==◌, if◌then◌else◌, ltb→lt, lt→ltb,
  leb→le, ==_iff, tests, Bool-cases, Option-cases, length, get_elem?, set, get_or, take, drop,
  replicate, length-append, length-set, get_elem?-set_self, get_elem?-set_ne, take-append-drop,
  length-take, length-drop, length-replicate, length-map, get_elem?-eq-get_or, get_or-set_self,
  get_or-set_ne, get_or-replicate, get_elem?-none, ℤ, pos, negsuc, pos_part, neg_part, sub_ℕ, neg_ℤ,
  ltb_ℤ, minus_one, Name, same_name, same_name_eq, same_name_refl, Stop, aborted, halted, undefined,
  Outcome, ok, err, ◌>>=◌, ◌>>◌, assert, deref, at, Name, same_name, same_name_eq, same_name_refl,
}

abbrev pub max_semaphore : ℕ
max_semaphore = 10

-- The bytes of Sem::name, the closing 0 included.
abbrev pub max_sem_name : ℕ
max_sem_name = 50

pub record Sem : Type 0 where
  pub name : Name
  pub sem : Semaphore

pub record STable : Type 0 where
  pub bm : Bitmap
  pub sem_tab : List (Option Sem)

-- STable::STable()
pub new : Outcome STable
new = do
  bm ← Bitmap.new (pos max_semaphore)
  ok (record { bm = bm; sem_tab = replicate max_semaphore none })

-- bm->Test(i) && strcmp(name, semTab[i]->GetName()) == 0
pub is_named : STable → ℕ → Name → Outcome Bool
is_named t i name = do
  used ← test t.bm (pos i)
  elim used [
    | false ↦ ok false
    | true ↦ at t.sem_tab i >>= λ slot. deref slot >>= λ s. ok (same_name name s.name)
  ]

-- The loops of Create, Wait and Signal: the slot of the semaphore of that name, from `i` on with
-- `left` slots to go.
pub find_from : ℕ → ℕ → STable → Name → Outcome (Option ℕ)
find_from zero i t name = ok none
find_from (suc left) i t name = do
  hit ← is_named t i name
  elim hit [ true ↦ ok (some i) | false ↦ find_from left (i + 1) t name ]

pub find : STable → Name → Outcome (Option ℕ)
find t name = find_from max_semaphore 0 t name

-- Sem::Sem(name, i); strcpy writes past its array where the name is too long for it.
pub new_sem : Name → ℤ → Outcome Sem
new_sem name init =
    if ltb (length name) max_sem_name
    then ok (record { name = name; sem = Semaphore.new init })
    else err undefined

-- The end of Create, once FindFreeSlot has answered.
pub place : STable → Name → ℤ → Bitmap × ℤ → Outcome (STable × ℤ)
place t name sem_val (bm, negsuc i) = ok (record t { bm = bm }, minus_one)
place t name sem_val (bm, pos i) = do
  s ← new_sem name sem_val
  ok (record { bm = bm; sem_tab = set t.sem_tab i (some s) }, pos 0)

-- The table that the call leaves, and its answer.
pub create : STable → Name → ℤ → Outcome (STable × ℤ)
create t name sem_val = do
  found ← find t name
  elim found [ some i ↦ ok (t, minus_one) | none ↦ find_and_set t.bm >>= place t name sem_val ]

-- What a call of Wait comes to for its thread: it goes on with an answer, or it sleeps in P.
pub data Waiting : Type 0 where
  goes_on : STable → ℤ → Waiting
  asleep : STable → Waiting

pub store : STable → ℕ → Sem → Semaphore → STable
store t i s sem = record t { sem_tab = set t.sem_tab i (some (record s { sem = sem })) }

pub wait : STable → Name → ℕ → Outcome Waiting
wait t name thread = do
  found ← find t name
  elim found [
    | none ↦ ok (goes_on t minus_one)
    | some i ↦ at t.sem_tab i >>= λ slot. deref slot >>= λ s. p_round s.sem thread >>= λ r. elim r [
      | passes sem ↦ ok (goes_on (store t i s sem) (pos 0))
      | sleeps sem ↦ ok (asleep (store t i s sem))
    ]
  ]

-- The answer of Signal, with the thread that it wakes.
pub signal : STable → Name → Outcome (STable × ℤ × Option ℕ)
signal t name = do
  found ← find t name
  elim found [
    | none ↦ ok (t, minus_one, none)
    | some i ↦ at t.sem_tab i >>= λ slot.
        deref slot >>= λ s. v s.sem >>= λ (sem, woken). ok (store t i s sem, pos 0, woken)
  ]
