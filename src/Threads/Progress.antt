-- ===== src/Threads/Progress.antt =====
-- What the ready list of threads/scheduler.cc makes of the threads that V of threads/synch.cc has
-- woken.
use nachos_assignment.Threads.Schedule.{find_next_to_run, System, run_ready, resumes, Reach, next}
use nachos_assignment.Threads.Wakeups.{
  Went, took, slept, p_step-Went, Reach-IsSound, count, count_self, absent-count,
}
use nachos_assignment.Base.{
  ℕ, ◌+◌, ◌≤◌, ◌≡◌, refl, ap, subst, ◌⊎◌, inl, inr, some, List, [], ◌∷◌, arith, length, Outcome, ok,
}

-- A state that is reached, in which no thread is left to be run and the books are kept: then nobody
-- sleeps, or as many calls of P have ended as the values that there were and that V added.
pub record Settles (n posted : ℕ) (r : Outcome System) : Type 0 where
  pub last : System
  pub ends : r ≡ ok last
  pub reached : Reach n last
  pub idle : last.woken ≡ []
  pub no_post : last.posted ≡ posted
  pub at_most : last.passed ≤ n + posted
  pub no_lost_wakeup : (last.sem.queue ≡ []) ⊎ (last.passed ≡ n + posted)

Went-keeps : (s u : System) (t : ℕ) → Went s u t → (u.woken ≡ s.woken) × (u.posted ≡ s.posted)
Went-keeps s u t (took left e same) = (ap (λ x. x.woken) same, ap (λ x. x.posted) same)
Went-keeps s u t (slept e same) = (ap (λ x. x.woken) same, ap (λ x. x.posted) same)

front_lem :
    (l : List ℕ) (t : ℕ) (rest : List ℕ) → l ≡ t ∷ rest → find_next_to_run l ≡ (some t, rest)
unfolding find_next_to_run
front_lem l t rest e = rw e refl

run_ready-Settles :
    (n : ℕ) (ready : List ℕ) (s : System)
    → Reach n s
    → s.woken ≡ ready
    → Settles n s.posted (run_ready ready s)
unfolding run_ready
run_ready-Settles n [] s r e =
    let sound = Reach-IsSound n s r in
    record {
      last = s;
      ends = refl;
      reached = r;
      idle = e;
      no_post = refl;
      at_most = omega (arith, sound.balance);
      no_lost_wakeup = elim sound.wakes [
        | inl free ↦ inl free
        | inr enough ↦ inr (omega (arith, sound.balance, enough, ap length e))
      ];
    }
run_ready-Settles n (t ∷ rest) s r e =
    let sound = Reach-IsSound n s r in
    let alone : count t s.sem.queue ≡ 0 = omega (
      arith,
      subst (λ l. count t s.sem.queue + count t l ≤ 1) e (sound.apart t),
      count_self t rest,
    ) in
    let (u, went, w) =
      p_step-Went (record s { woken = rest }) t sound.value sound.holds
        (absent-count t s.sem.queue alone) in
    let (kept, unposted) = Went-keeps (record s { woken = rest }) u t w in
    rw went (
      subst (λ p. Settles n p (run_ready rest u)) unposted
        (run_ready-Settles n rest u (next r (resumes t rest (front_lem s.woken t rest e) went))
          kept))

-- For a semaphore that starts at a value that is not negative, whatever calls of P and V have run
-- in whatever order: the woken threads all come to the end of P or to sleep again, no assertion
-- fails, and then nobody sleeps or the semaphore has nothing left: as many calls of P have ended as
-- it had at first and V has added, and never more.
pub settles : (n : ℕ) (s : System) → Reach n s → Settles n s.posted (run_ready s.woken s)
settles n s r = run_ready-Settles n s.woken s r refl
