-- ===== src/Threads/Wakeups.antt =====
-- No wake-up of a semaphore of threads/synch.cc is lost, whatever order the threads run in.
use nachos_assignment.Threads.Semaphore.{p_round, v, is_in_list, append}
use nachos_assignment.Threads.Schedule.{
  System, p_step, ready_to_run, find_next_to_run, v_step, Step, enters, resumes, signals, Reach,
  start, next,
}
use nachos_assignment.Base.{
  ℕ, zero, suc, ◌+◌, ◌^◌, ◌≤◌, ◌≡◌, refl, sym, ap, ◌∙◌, subst, ◌⊎◌, inl, inr, true, false, some,
  List, [], ◌∷◌, ◌++◌, arith, ltb, ◌==◌, if◌then◌else◌, Bool-cases, length, length-append, ℤ, pos,
  pos_part, neg_part, sub_ℕ, undefined, ok, err,
}

-- How often a thread is in a list.
unfoldable pub count : ℕ → List ℕ → ℕ
count t [] = 0
count t (x ∷ xs) = if t == x then suc (count t xs) else count t xs

pub count-append : (t : ℕ) (xs ys : List ℕ) → count t (xs ++ ys) ≡ count t xs + count t ys
unfolding count
count-append t [] ys = ground arith
count-append t (x ∷ xs) ys = ground (arith, count-append t xs ys)

pub count-absent : (t : ℕ) (xs : List ℕ) → is_in_list t xs ≡ false → count t xs ≡ 0
unfolding count is_in_list
count-absent t [] h = refl
count-absent t (x ∷ xs) h = ground (arith, count-absent t xs)

pub absent-count : (t : ℕ) (xs : List ℕ) → count t xs ≡ 0 → is_in_list t xs ≡ false
unfolding count is_in_list
absent-count t [] h = refl
absent-count t (x ∷ xs) h = ground (arith, absent-count t xs)

pub count-tail : (k t : ℕ) (xs : List ℕ) → count k xs ≤ count k (t ∷ xs)
unfolding count
count-tail k t xs = ground arith

pub count-joins :
    (k t : ℕ) (xs ys : List ℕ)
    → count t xs ≡ 0
    → count t ys ≡ 0
    → count k xs + count k ys ≤ 1
    → count k xs + count k (t ∷ ys) ≤ 1
unfolding count
count-joins k t xs ys none_xs none_ys h = elim (Bool-cases (k == t)) [
  | inl hit ↦ let same : k ≡ t = ground arith in rw same (ground (arith, none_xs, none_ys))
  | inr miss ↦ ground (arith, h)
]

pub ok-injective {ℓ} : {A : Type ℓ} {s u : A} → ok s ≡ ok u → s ≡ u
ok-injective {s} e = ap (λ r. elim r [ ok x ↦ x | err stop ↦ s ]) e

pub count_self : (t : ℕ) (xs : List ℕ) → count t (t ∷ xs) ≡ suc (count t xs)
unfolding count
count_self t xs = ground arith

-- The value is what has been posted and not taken; while a thread sleeps there are as many threads
-- woken as there are values to take; and no thread is at two places.
pub record IsSound (n : ℕ) (s : System) : Type 0 where
  pub value : ℕ
  pub holds : s.sem.value ≡ pos value
  pub balance : n + s.posted ≡ value + s.passed
  pub wakes : (s.sem.queue ≡ []) ⊎ (value ≤ length s.woken)
  pub apart : (t : ℕ) → count t s.sem.queue + count t s.woken ≤ 1

-- One round of P by a thread that is at no other place.
pub data Went (s u : System) (t : ℕ) : Type 0 where
  took :
      (value : ℕ)
      → s.sem.value ≡ pos (suc value)
      → u ≡ record s { sem = record s.sem { value = pos value }; passed = s.passed + 1 }
      → Went s u t
  slept :
      s.sem.value ≡ pos 0
      → u ≡ record s { sem = record s.sem { queue = s.sem.queue ++ t ∷ [] } }
      → Went s u t

pub p_step-Went :
    (s : System) (t value : ℕ)
    → s.sem.value ≡ pos value
    → is_in_list t s.sem.queue ≡ false
    → (u : System) × (p_step s t ≡ ok u) × Went s u t
unfolding p_step p_round append
p_step-Went s t zero h absent = (_, simp (h, absent), slept h refl)
p_step-Went s t (suc value) h absent = (_, simp h (ground arith), took value h refl)

-- A round of P by a thread that was at no place but in front of `rest` keeps the books.
pub Went-IsSound :
    (n : ℕ) (s u : System) (t value : ℕ)
    → s.sem.value ≡ pos value
    → n + s.posted ≡ value + s.passed
    → (s.sem.queue ≡ []) ⊎ (value ≤ suc (length s.woken))
    → ((k : ℕ) → count k s.sem.queue + count k (t ∷ s.woken) ≤ 1)
    → Went s u t
    → IsSound n u
unfolding count
Went-IsSound n s u t value h balance wakes apart (took left e same) =
    let more : value ≡ suc left = ap pos_part (sym h ∙ e) in
    subst (IsSound n) (sym same) (record {
      value = left;
      holds = refl;
      balance = omega (arith, balance, more);
      wakes = elim wakes [ inl free ↦ inl free | inr enough ↦ inr (omega (arith, enough, more)) ];
      apart = λ k. omega (arith, apart k, count-tail k t s.woken);
    })
Went-IsSound n s u t value h balance wakes apart (slept e same) =
    let empty : value ≡ 0 = ap pos_part (sym h ∙ e) in
    subst (IsSound n) (sym same) (record {
      value = 0;
      holds = e;
      balance = omega (arith, balance, empty);
      wakes = inr (omega arith);
      apart = λ k.
          omega
            (arith, apart k, count-append k s.sem.queue (t ∷ []), count-append k (t ∷ []) s.woken);
    })

Went-of :
    (s u : System) (t value : ℕ)
    → s.sem.value ≡ pos value
    → count t s.sem.queue ≡ 0
    → p_step s t ≡ ok u
    → Went s u t
Went-of s u t value h absent went =
    let (u', e, w) = p_step-Went s t value h (absent-count t s.sem.queue absent) in
    subst (λ x. Went s x t) (ok-injective (sym e ∙ went)) w

v_wakes :
    (t : ℕ) (rest woken : List ℕ) (value : ℕ)
    → ((t ∷ rest) ≡ []) ⊎ (value ≤ length woken)
    → (rest ≡ []) ⊎ (value + 1 ≤ length (woken ++ t ∷ []))
v_wakes t rest woken value (inl free) = ground (arith, free)
v_wakes t rest woken value (inr enough) = inr (omega (arith, enough, length-append woken (t ∷ [])))

-- V keeps the books: whoever it takes off the queue is woken for the value that it adds.
v_step-IsSound :
    (n : ℕ) (value : ℤ) (queue woken : List ℕ) (passed posted : ℕ)
    → IsSound n (record {
      sem = record { value = value; queue = queue };
      woken = woken;
      passed = passed;
      posted = posted;
    })
    → ltb (pos_part value + 1) (2 ^ 31) ≡ true
    → (u : System) × (v_step (record {
      sem = record { value = value; queue = queue };
      woken = woken;
      passed = passed;
      posted = posted;
    })
        ≡ ok u)
      × IsSound n u
unfolding v_step v ready_to_run append count
v_step-IsSound n value [] woken passed posted sound room = (
  record {
    sem = record { value = sub_ℕ (pos_part value + 1) (neg_part value); queue = [] };
    woken = woken;
    passed = passed;
    posted = posted + 1;
  },
  simp (room),
  record {
    value = sound.value + 1;
    holds = rw sound.holds (ground arith);
    balance = omega (arith, sound.balance);
    wakes = inl refl;
    apart = sound.apart;
  },
)
v_step-IsSound n value (t ∷ rest) woken passed posted sound room =
    let absent : is_in_list t woken ≡ false =
      absent-count t woken (omega (arith, sound.apart t, count_self t rest)) in
    (
      (record {
        sem = record { value = sub_ℕ (pos_part value + 1) (neg_part value); queue = rest };
        woken = woken ++ t ∷ [];
        passed = passed;
        posted = posted + 1;
      }),
      simp (room, absent),
      record {
        value = sound.value + 1;
        holds = rw sound.holds (ground arith);
        balance = omega (arith, sound.balance);
        wakes = v_wakes t rest woken sound.value sound.wakes;
        apart = λ k.
            omega
              (arith, sound.apart k, count-append k woken (t ∷ []), count-append k (t ∷ []) rest);
      },
    )

v_step_overflows :
    (s : System) → ltb (pos_part s.sem.value + 1) (2 ^ 31) ≡ false → v_step s ≡ err undefined
unfolding v_step v
v_step_overflows s largest = simp (largest)

-- The front of the ready list.
pub found_first :
    (l : List ℕ) (t : ℕ) (rest : List ℕ) → find_next_to_run l ≡ (some t, rest) → l ≡ t ∷ rest
unfolding find_next_to_run
found_first [] t rest h = ground (arith, h)
found_first (x ∷ xs) t rest h = ground (arith, h)

pub Step-IsSound : (n : ℕ) (s u : System) → IsSound n s → Step s u → IsSound n u
Step-IsSound n s u sound (enters t awake absent went) =
    Went-IsSound n s u t sound.value sound.holds sound.balance
      (elim sound.wakes [ inl free ↦ inl free | inr enough ↦ inr (omega (arith, enough)) ])
      (λ k.
        count-joins k t s.sem.queue s.woken (count-absent t s.sem.queue awake)
          (count-absent t s.woken absent) (sound.apart k))
      (Went-of s u t sound.value sound.holds (count-absent t s.sem.queue awake) went)
Step-IsSound n s u sound (resumes t rest found went) =
    let first = found_first s.woken t rest found in
    let apart : (k : ℕ) → count k s.sem.queue + count k (t ∷ rest) ≤ 1 =
      λ k. subst (λ l. count k s.sem.queue + count k l ≤ 1) first (sound.apart k) in
    Went-IsSound n (record s { woken = rest }) u t sound.value sound.holds sound.balance
      (subst (λ l. (s.sem.queue ≡ []) ⊎ (sound.value ≤ length l)) first sound.wakes) apart
      (Went-of (record s { woken = rest }) u t sound.value sound.holds
        (omega (arith, apart t, count_self t rest)) went)
Step-IsSound n s u sound (signals same) =
    elim (Bool-cases (ltb (pos_part s.sem.value + 1) (2 ^ 31))) [
      | inl room ↦
          let (u', e, kept) =
            v_step-IsSound n s.sem.value s.sem.queue s.woken s.passed s.posted sound room in
          subst (IsSound n) (ok-injective (sym e ∙ same)) kept
      | inr largest ↦ absurd (ground (arith, sym (v_step_overflows s largest) ∙ same))
    ]

-- On every way the threads can run.
pub Reach-IsSound : (n : ℕ) (s : System) → Reach n s → IsSound n s
unfolding count
Reach-IsSound n _ start = record {
  value = n;
  holds = refl;
  balance = refl;
  wakes = inl refl;
  apart = λ t. omega arith;
}
Reach-IsSound n u (next {s} r st) = Step-IsSound n s u (Reach-IsSound n s r) st
