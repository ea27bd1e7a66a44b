-- ===== src/STable/Tests.antt =====
-- Runs of threads/stable.cc on a table with one semaphore, and the theorems at it.
use nachos_assignment.STable.{
  STable, create, wait, signal, find, find_from, is_named, place, new_sem, store, asleep,
}
use nachos_assignment.STable.Slots.{sem_named}
use nachos_assignment.STable.Invariant.{IsCoherent, is_used}
use nachos_assignment.STable.Laws.{Creates, create-Creates, create_overflow, named}
use nachos_assignment.STable.Blocking.{Waits, wait-Waits, Signals, signal-Signals}
use nachos_assignment.Bitmap.{mark, test, find_and_set, find_and_set_from}
use nachos_assignment.Bitmap.View.{marked}
use nachos_assignment.Bitmap.Bits.{bit}
use nachos_assignment.Threads.Semaphore.{Semaphore, p_round, v}
use nachos_assignment.Threads.Semaphore
use nachos_assignment.Base.{
  ℕ, zero, suc, ◌^◌, ◌<◌, ◌≡◌, refl, Bool, true, false, none, some, [], ◌∷◌, arith, every,
  every-test, agree, agree_eq, get_elem?, get_or, replicate, pos, Name, same_name, undefined, ok,
  err, Name, same_name,
}

-- The name "ping".
abbrev ping : Name
ping = b'p' ∷ b'i' ∷ b'n' ∷ b'g' ∷ []

abbrev pong : Name
pong = b'p' ∷ b'o' ∷ b'n' ∷ b'g' ∷ []

-- One semaphore of value 0, in which thread 4 sleeps.
abbrev table : STable
table = record {
  bm = record { num_bits = 10; num_words = 1; map = 1 ∷ [] };
  sem_tab =
      some (record { name = ping; sem = record { value = pos 0; queue = 4 ∷ [] } })
      ∷ replicate 9 none;
}

one_word : (k : ℕ) → get_or (1 ∷ []) k 0 < 2 ^ 32
one_word zero = omega arith
one_word (suc k) = omega arith

table-IsCoherent : IsCoherent table
table-IsCoherent = record {
  bitmap = record { words = refl; stored = refl; narrow = one_word };
  bits = refl;
  slots = refl;
  in_step = λ i h. agree_eq _ _ (every-test agrees 10 i all_agree h);
}
  where
    agrees : ℕ → Bool
    agrees i = agree (marked table.bm i) (is_used (get_elem? table.sem_tab i))

    all_agree : every agrees 10 ≡ true
    all_agree = unfold every marked bit in refl

creates_second : (t : STable) × (create table pong (pos 3) ≡ ok (t, pos 0))
unfolding create find find_from is_named place new_sem find_and_set find_and_set_from mark test
    same_name
creates_second = (_, refl)

sleeps_on_zero : (t : STable) × (wait table ping 5 ≡ ok (asleep t))
unfolding wait find find_from is_named test same_name store p_round Semaphore.append
    Semaphore.is_in_list
sleeps_on_zero = (_, refl)

wakes_longest : (t : STable) × (signal table ping ≡ ok (t, pos 0, some 4))
unfolding signal find find_from is_named test same_name store v
wakes_longest = (_, refl)

create-Creates_example : Creates table pong (pos 3) (create table pong (pos 3))
create-Creates_example = create-Creates table pong (pos 3) table-IsCoherent (omega arith)

-- A name of 50 letters.
abbrev long_name : Name
long_name = replicate 50 b'a'

create_overflow_example : create table long_name (pos 1) ≡ err undefined
unfolding sem_named same_name
create_overflow_example =
    create_overflow table long_name (pos 1) table-IsCoherent (omega arith) refl 1 (omega arith) refl

five_awake : (s : Semaphore) → named table ping ≡ some s → Semaphore.is_in_list 5 s.queue ≡ false
unfolding sem_named same_name Semaphore.is_in_list
five_awake s h = ground arith

wait-Waits_example : Waits table ping 5 (wait table ping 5)
wait-Waits_example = wait-Waits table ping 5 table-IsCoherent five_awake

signal-Signals_example : Signals table ping (signal table ping)
signal-Signals_example = signal-Signals table ping table-IsCoherent
