-- ===== src/Threads/Exclusion.antt =====
-- Lock of threads/synch.cc lets one thread in at a time.
use nachos_assignment.Threads.Semaphore.{p_round, v, is_in_list, append}
use nachos_assignment.Threads.Schedule.{ready_to_run}
use nachos_assignment.Threads.Wakeups.{
  count, count-append, count-absent, absent-count, count_self, count-joins, found_first, count-tail,
  ok-injective,
}
use nachos_assignment.Threads.Lock.{
  Lock, acquire_round, is_held_by, release, Users, acquire_step, release_step, Step, enters,
  resumes, leaves, Reach, start, next,
}
use nachos_assignment.Base.{
  ℕ, ◌+◌, ◌≤◌, ◌≡◌, refl, sym, ap, ◌∙◌, subst, true, false, Option, none, some, List, [], ◌∷◌, ◌++◌,
  arith, ◌==◌, ℤ, pos, ok,
}

-- The lock is free and nobody is inside, or it has a holder, who is inside alone.
pub data IsExclusive (lock : Lock) (inside : List ℕ) : Type 0 where
  free :
      lock.semaphore.value ≡ pos 1 → lock.lock_holder ≡ none → inside ≡ [] → IsExclusive lock inside
  taken :
      (t : ℕ)
      → lock.semaphore.value ≡ pos 0
      → lock.lock_holder ≡ some t
      → inside ≡ t ∷ []
      → IsExclusive lock inside

-- With no thread at two places of the queue and of the ready list.
pub record IsGuarded (u : Users) : Type 0 where
  pub exclusive : IsExclusive u.lock u.inside
  pub apart : (k : ℕ) → count k u.lock.semaphore.queue + count k u.woken ≤ 1

-- A round of Acquire by a thread that is at no other place.
acquire_step-IsGuarded :
    (u : Users) (t : ℕ)
    → IsExclusive u.lock u.inside
    → ((k : ℕ) → count k u.lock.semaphore.queue + count k (t ∷ u.woken) ≤ 1)
    → (w : Users) × (acquire_step u t ≡ ok w) × IsGuarded w
unfolding acquire_step acquire_round p_round append
acquire_step-IsGuarded u t (free value holder inside) apart = (
  record {
    lock = record {
      semaphore = record { value = pos 0; queue = u.lock.semaphore.queue };
      lock_holder = some t;
    };
    woken = u.woken;
    inside = t ∷ u.inside;
  },
  simp (value) refl,
  record {
    exclusive = taken t refl refl (ap (λ l. t ∷ l) inside);
    apart = λ k. omega (arith, apart k, count-tail k t u.woken);
  },
)
acquire_step-IsGuarded u t (taken holder value held inside) apart =
    let absent : is_in_list t u.lock.semaphore.queue ≡ false =
      absent-count t u.lock.semaphore.queue (omega (arith, apart t, count_self t u.woken)) in
    (
      record u {
        lock = record u.lock {
          semaphore = record u.lock.semaphore { queue = u.lock.semaphore.queue ++ t ∷ [] };
        };
      },
      simp (value, absent),
      record {
        exclusive = taken holder value held inside;
        apart = λ k. omega (
          arith,
          apart k,
          count-append k u.lock.semaphore.queue (t ∷ []),
          count-append k (t ∷ []) u.woken,
        );
      },
    )

-- The holder releases a lock: the value is back, and the thread that sleeps longest is woken.
holder_releases :
    (t : ℕ) (value : ℤ) (queue woken inside : List ℕ) (holder : Option ℕ)
    → value ≡ pos 0
    → holder ≡ some t
    → inside ≡ t ∷ []
    → ((k : ℕ) → count k queue + count k woken ≤ 1)
    → (w : Users) × (release_step
          (record {
            lock = record {
              semaphore = record { value = value; queue = queue };
              lock_holder = holder;
            };
            woken = woken;
            inside = inside;
          })
          t
        ≡ ok w)
      × (w.inside ≡ [])
      × IsGuarded w
unfolding release_step release is_held_by v ready_to_run append count
holder_releases t value [] woken inside holder zero_left held alone apart =
    let self : (t == t) ≡ true = ground arith in
    (
      record {
        lock = record { semaphore = record { value = pos 1; queue = [] }; lock_holder = none };
        woken = woken;
        inside = [];
      },
      simp (zero_left, held, alone, self),
      refl,
      record { exclusive = free refl refl refl; apart = apart },
    )
holder_releases t value (x ∷ rest) woken inside holder zero_left held alone apart =
    let self : (t == t) ≡ true = ground arith in
    let absent : is_in_list x woken ≡ false =
      absent-count x woken (omega (arith, apart x, count_self x rest)) in
    (
      record {
        lock = record { semaphore = record { value = pos 1; queue = rest }; lock_holder = none };
        woken = woken ++ x ∷ [];
        inside = [];
      },
      simp (zero_left, held, alone, self, absent),
      refl,
      record {
        exclusive = free refl refl refl;
        apart = λ k.
            omega (arith, apart k, count-append k woken (x ∷ []), count-append k (x ∷ []) rest);
      },
    )

-- Release by a thread that is inside.
only_one : (t x : ℕ) → is_in_list t (x ∷ []) ≡ true → x ≡ t
unfolding is_in_list
only_one t x h = ground (arith, h)

pub release_step-IsGuarded :
    (u : Users) (t : ℕ)
    → IsGuarded u
    → is_in_list t u.inside ≡ true
    → (w : Users) × (release_step u t ≡ ok w)
      × (w.inside ≡ [])
      × (u.inside ≡ t ∷ [])
      × (u.lock.lock_holder ≡ some t)
      × IsGuarded w
unfolding is_in_list
release_step-IsGuarded u t g member = elim g.exclusive [
  | free value held nobody ↦
      absurd (ground (arith, subst (λ l. is_in_list t l ≡ true) nobody member))
  | taken holder value held alone ↦
      let same : holder ≡ t = only_one t holder (subst (λ l. is_in_list t l ≡ true) alone member) in
      let held' : u.lock.lock_holder ≡ some t = held ∙ ap (λ k. some k) same in
      let alone' : u.inside ≡ t ∷ [] = alone ∙ ap (λ k. k ∷ []) same in
      let (w, e, left, kept) =
        holder_releases t u.lock.semaphore.value u.lock.semaphore.queue u.woken u.inside
          u.lock.lock_holder value held' alone' g.apart in
      (w, e, left, alone', held', kept)
]

pub Step-IsGuarded : (u w : Users) → IsGuarded u → Step u w → IsGuarded w
Step-IsGuarded u w g (enters t awake absent went) =
    let (w', e, kept) = acquire_step-IsGuarded u t g.exclusive (λ k.
      count-joins k t u.lock.semaphore.queue u.woken (count-absent t u.lock.semaphore.queue awake)
        (count-absent t u.woken absent) (g.apart k)) in
    subst IsGuarded (ok-injective (sym e ∙ went)) kept
Step-IsGuarded u w g (resumes t rest found went) =
    let (w', e, kept) =
      acquire_step-IsGuarded (record u { woken = rest }) t g.exclusive
        (λ k.
          subst (λ l. count k u.lock.semaphore.queue + count k l ≤ 1)
            (found_first u.woken t rest found) (g.apart k)) in
    subst IsGuarded (ok-injective (sym e ∙ went)) kept
Step-IsGuarded u w g (leaves t member went) =
    let (w', e, _, _, _, kept) = release_step-IsGuarded u t g member in
    subst IsGuarded (ok-injective (sym e ∙ went)) kept

pub Reach-IsGuarded : (u : Users) → Reach u → IsGuarded u
unfolding count
Reach-IsGuarded _ start = record { exclusive = free refl refl refl; apart = λ k. omega arith }
Reach-IsGuarded w (next {u} r st) = Step-IsGuarded u w (Reach-IsGuarded u r) st

-- However threads have called Acquire and Release of a new lock: a thread that has come back from
-- Acquire and has not called Release is alone in that, is the holder of the lock, and its Release
-- fails no assertion and lets it out.
pub inside_alone :
    (u : Users) (t : ℕ)
    → Reach u
    → is_in_list t u.inside ≡ true
    → (u.inside ≡ t ∷ [])
      × (u.lock.lock_holder ≡ some t)
      × (w : Users) × (release_step u t ≡ ok w)
      × (w.inside ≡ [])
inside_alone u t r member =
    let (w, e, left, alone, held, kept) = release_step-IsGuarded u t (Reach-IsGuarded u r) member in
    (alone, held, w, e, left)
