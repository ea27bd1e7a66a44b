-- ===== src/Threads/Tests.antt =====
-- Threads on a semaphore that starts at 0, for the theorems on threads/synch.cc and
-- threads/scheduler.cc, and two threads on a lock.
use nachos_assignment.Threads.Semaphore.{p_round, v, is_in_list, append}
use nachos_assignment.Threads.Schedule.{
  System, p_step, v_step, ready_to_run, run_ready, enters, signals, Reach, start, next,
}
use nachos_assignment.Threads.Progress.{Settles, settles}
use nachos_assignment.Threads.Lock.{Users, unused, acquire_round, acquire_step, release_step}
use nachos_assignment.Threads.Lock
use nachos_assignment.Threads.Exclusion.{inside_alone}
use nachos_assignment.Base.{◌≡◌, refl, some, [], ◌∷◌, pos, ok}

-- Threads 1 and 2 sleep.
abbrev both_asleep : System
both_asleep = record {
  sem = record { value = pos 0; queue = 1 ∷ 2 ∷ [] };
  woken = [];
  passed = 0;
  posted = 0;
}

-- Thread 1 has been woken, but thread 3 has come first.
abbrev overtaken : System
overtaken = record {
  sem = record { value = pos 0; queue = 2 ∷ [] };
  woken = 1 ∷ [];
  passed = 1;
  posted = 1;
}

both_asleep-Reach : Reach 0 both_asleep
unfolding p_step p_round append is_in_list
both_asleep-Reach = next (next start (enters 1 refl refl refl)) (enters 2 refl refl refl)

overtaken-Reach : Reach 0 overtaken
unfolding p_step p_round append is_in_list v_step v ready_to_run
overtaken-Reach = next (next both_asleep-Reach (signals refl)) (enters 3 refl refl refl)

settles_example : Settles 0 1 (run_ready (1 ∷ []) overtaken)
settles_example = settles 0 overtaken overtaken-Reach

-- Thread 1 finds the value gone and queues up behind thread 2.
thread_1_sleeps_again :
    run_ready (1 ∷ []) overtaken
    ≡ ok (record {
      sem = record { value = pos 0; queue = 2 ∷ 1 ∷ [] };
      woken = [];
      passed = 1;
      posted = 1;
    })
unfolding run_ready p_step p_round append is_in_list
thread_1_sleeps_again = refl

-- Thread 1 is inside, thread 2 sleeps.
abbrev contended : Users
contended = record {
  lock = record { semaphore = record { value = pos 0; queue = 2 ∷ [] }; lock_holder = some 1 };
  woken = [];
  inside = 1 ∷ [];
}

contended-Reach : Lock.Reach contended
unfolding acquire_step acquire_round p_round append is_in_list
contended-Reach =
    Lock.next (Lock.next Lock.start (Lock.enters 1 refl refl refl)) (Lock.enters 2 refl refl refl)

inside_alone_example :
    (contended.inside ≡ 1 ∷ [])
    × (contended.lock.lock_holder ≡ some 1)
    × (w : Users) × (release_step contended 1 ≡ ok w)
    × (w.inside ≡ [])
unfolding is_in_list
inside_alone_example = inside_alone contended 1 contended-Reach refl
