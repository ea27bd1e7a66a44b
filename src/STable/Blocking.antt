-- ===== src/STable/Blocking.antt =====
-- Wait and Signal of threads/stable.cc against the semaphores that names stand for.
use nachos_assignment.STable.{STable, store, wait, signal, Waiting, goes_on, asleep}
use nachos_assignment.STable.Slots.{
  slot_named, Holds, slot_named-Holds, slot_named-none, sem_named-set_old,
}
use nachos_assignment.STable.Invariant.{IsCoherent, find_lem}
use nachos_assignment.STable.Laws.{named, Puts}
use nachos_assignment.Threads.Semaphore.{Semaphore, Round, passes, sleeps, p_round, v}
use nachos_assignment.Threads.Semaphore
use nachos_assignment.Base.{
  ℕ, ◌+◌, ◌^◌, ◌≤◌, ◌<◌, ◌≡◌, refl, ◌∙◌, ◌⊎◌, inl, inr, true, false, Option, none, some, List, [],
  ◌∷◌, ◌++◌, arith, ltb, ◌==◌, Bool-cases, Option-cases, length-set, get_elem?-set_self,
  get_elem?-set_ne, ℤ, pos, pos_part, neg_part, sub_ℕ, minus_one, Name, undefined, Outcome, ok, err,
  Name,
}

-- What Wait comes to: no such semaphore, the value taken, a value that would leave the `int`s, or
-- the thread queued and asleep.
pub data Waits (t : STable) (name : Name) (thread : ℕ) (r : Outcome Waiting) : Type 0 where
  unknown : named t name ≡ none → r ≡ ok (goes_on t minus_one) → Waits t name thread r
  passed :
      (s : Semaphore) (t' : STable)
      → named t name ≡ some s
      → Semaphore.is_zero s.value ≡ false
      → neg_part s.value < 2 ^ 31
      → r ≡ ok (goes_on t' (pos 0))
      → Puts t name (record s { value = sub_ℕ (pos_part s.value) (neg_part s.value + 1) }) t'
      → Waits t name thread r
  underflows :
      (s : Semaphore)
      → named t name ≡ some s
      → 2 ^ 31 ≤ neg_part s.value
      → r ≡ err undefined
      → Waits t name thread r
  slept :
      (s : Semaphore) (t' : STable)
      → named t name ≡ some s
      → Semaphore.is_zero s.value ≡ true
      → r ≡ ok (asleep t')
      → Puts t name (record s { queue = s.queue ++ thread ∷ [] }) t'
      → Waits t name thread r

-- The slot of a semaphore that is there.
found_slot :
    (t : STable) (name : Name) (i : ℕ)
    → IsCoherent t
    → slot_named t.sem_tab name ≡ some i
    → (sem : Semaphore) → (h : Holds t.sem_tab i name) → Puts t name sem (store t i h.held sem)
unfolding store
found_slot t name i c e sem h = record {
  keeps = record {
    bitmap = c.bitmap;
    bits = c.bits;
    slots = length-set t.sem_tab i _ ∙ c.slots;
    in_step = λ j k. elim (Bool-cases (j == i)) [
      | inl hit ↦
          let same : j ≡ i = ground arith in
          rw same (
            ground (
              arith,
              get_elem?-set_self t.sem_tab i (some (record h.held { sem = sem })),
              c.slots,
              c.in_step i,
              h.at_slot,
            ))
      | inr miss ↦ ground (
        arith,
        get_elem?-set_ne t.sem_tab {i = i} {j = j} (some (record h.held { sem = sem }))
            (λ e. ground arith),
        c.in_step j,
      )
    ];
  };
  changed = λ other. ground (
    arith,
    h.has_name,
    sem_named-set_old t.sem_tab i h.held sem other h.at_slot (rw h.has_name e),
  );
}

-- On a coherent table, with the thread in no queue of that name, Wait answers -1 without a change
-- if nothing has the name; else it takes one off a value that is not 0, which is undefined for the
-- least int, or queues the thread behind the others and puts it to sleep. No other name is touched
-- and the table stays coherent.
pub wait-Waits :
    (t : STable) (name : Name) (thread : ℕ)
    → IsCoherent t
    → ((s : Semaphore) → named t name ≡ some s → Semaphore.is_in_list thread s.queue ≡ false)
    → Waits t name thread (wait t name thread)
unfolding wait p_round Semaphore.append
wait-Waits t name thread c awake = elim (Option-cases (slot_named t.sem_tab name)) [
  | inl e ↦ unknown (slot_named-none t.sem_tab name e) (rw (find_lem t name c, e))
  | inr (i, e) ↦
      let h = slot_named-Holds t.sem_tab name i e in
      elim (Bool-cases (Semaphore.is_zero h.held.sem.value)) [
        | inl busy ↦
            slept h.held.sem _ h.stands busy
              (rw (find_lem t name c, e, h.at_slot, busy, awake h.held.sem h.stands))
              (found_slot t name i c e _ h)
        | inr more ↦ elim (Bool-cases (ltb (neg_part h.held.sem.value) (2 ^ 31))) [
          | inl room ↦
              passed h.held.sem _ h.stands more (ground (arith, room))
                (rw (find_lem t name c, e, h.at_slot, more, room)) (found_slot t name i c e _ h)
          | inr least ↦
              underflows h.held.sem h.stands (ground (arith, least))
                (rw (find_lem t name c, e, h.at_slot, more, least))
        ]
      ]
]

-- What Signal comes to: no such semaphore, a value that would leave the `int`s, or one added to it,
-- with the longest sleeper woken if there is one.
pub data Signals (t : STable) (name : Name) (r : Outcome (STable × ℤ × Option ℕ)) : Type 0 where
  unknown : named t name ≡ none → r ≡ ok (t, minus_one, none) → Signals t name r
  overflows :
      (s : Semaphore)
      → named t name ≡ some s
      → 2 ^ 31 ≤ pos_part s.value + 1
      → r ≡ err undefined
      → Signals t name r
  wakes_nobody :
      (s : Semaphore) (t' : STable)
      → named t name ≡ some s
      → pos_part s.value + 1 < 2 ^ 31
      → s.queue ≡ []
      → r ≡ ok (t', pos 0, none)
      → Puts t name
          (record { value = sub_ℕ (pos_part s.value + 1) (neg_part s.value); queue = [] })
          t'
      → Signals t name r
  wakes :
      (s : Semaphore) (t' : STable) (thread : ℕ) (rest : List ℕ)
      → named t name ≡ some s
      → pos_part s.value + 1 < 2 ^ 31
      → s.queue ≡ thread ∷ rest
      → r ≡ ok (t', pos 0, some thread)
      → Puts t name
          (record { value = sub_ℕ (pos_part s.value + 1) (neg_part s.value); queue = rest })
          t'
      → Signals t name r

front_of : (q : List ℕ) → (q ≡ []) ⊎ ((x : ℕ) × (rest : List ℕ) × (q ≡ x ∷ rest))
front_of [] = inl refl
front_of (x ∷ rest) = inr (x, rest, refl)

-- On a coherent table, Signal answers -1 without a change if nothing has the name; else it adds one
-- to the value, which is undefined for the largest int, and hands on the thread that slept longest,
-- taken off the queue, if one sleeps. No other name is touched and the table stays coherent.
pub signal-Signals : (t : STable) (name : Name) → IsCoherent t → Signals t name (signal t name)
unfolding signal v
signal-Signals t name c = elim (Option-cases (slot_named t.sem_tab name)) [
  | inl e ↦ Signals.unknown (slot_named-none t.sem_tab name e) (rw (find_lem t name c, e))
  | inr (i, e) ↦
      let h = slot_named-Holds t.sem_tab name i e in
      elim (Bool-cases (ltb (pos_part h.held.sem.value + 1) (2 ^ 31))) [
        | inl room ↦ elim (front_of h.held.sem.queue) [
          | inl nobody ↦
              wakes_nobody h.held.sem _ h.stands (ground (arith, room)) nobody
                (simp (find_lem t name c, e, h.at_slot, room, nobody)) (found_slot t name i c e _ h)
          | inr (thread, rest, first) ↦
              wakes h.held.sem _ thread rest h.stands (ground (arith, room)) first
                (simp (find_lem t name c, e, h.at_slot, room, first)) (found_slot t name i c e _ h)
        ]
        | inr largest ↦
            overflows h.held.sem h.stands (ground (arith, largest))
              (rw (find_lem t name c, e, h.at_slot, largest))
      ]
]
