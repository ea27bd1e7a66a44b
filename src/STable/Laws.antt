-- ===== src/STable/Laws.antt =====
-- CreateSemaphore, Wait and Signal of threads/stable.cc against the semaphores that names stand for.
use nachos_assignment.STable.{Sem, STable, max_semaphore, max_sem_name, new_sem, place, create}
use nachos_assignment.STable.Slots.{
  slot_named, sem_named, slot_named-Holds, slot_named-none, sem_named-set_new,
}
use nachos_assignment.STable.Invariant.{is_used, IsCoherent, find_lem}
use nachos_assignment.Bitmap.{Bitmap, find_and_set}
use nachos_assignment.Bitmap.View.{Updates}
use nachos_assignment.Bitmap.Loops.{Finds, find_and_set-Finds}
use nachos_assignment.Threads.Semaphore.{Semaphore, Round, passes, sleeps, p_round, v}
use nachos_assignment.Threads.Semaphore
use nachos_assignment.Base.{
  ℕ, zero, suc, ◌≤◌, ◌<◌, ◌≡◌, refl, ◌∙◌, inl, inr, true, false, Option, none, some, List, [], ◌∷◌,
  arith, ◌==◌, if◌then◌else◌, lt→ltb, Bool-cases, Option-cases, length, get_elem?, set, length-set,
  get_elem?-set_self, get_elem?-set_ne, ℤ, pos, minus_one, Name, same_name, undefined, Outcome, ok,
  err, ◌>>=◌, Name, same_name,
}

-- What a table is to the user programs.
abbrev pub named : STable → Name → Option Semaphore
named t name = sem_named t.sem_tab name

-- `t'` has the semaphore `s` under `name`, and all other names as in `t`.
pub record Puts (t : STable) (name : Name) (s : Semaphore) (t' : STable) : Type 0 where
  pub keeps : IsCoherent t'
  pub changed :
      (other : Name) → named t' other ≡ (if same_name other name then some s else named t other)

-- What Create comes to: the name is taken, no slot is free, or it is put in with its initial value.
pub data Creates (t : STable) (name : Name) (v : ℤ) (r : Outcome (STable × ℤ)) : Type 0 where
  taken : (s : Semaphore) → named t name ≡ some s → r ≡ ok (t, minus_one) → Creates t name v r
  full :
      ((i : ℕ) → i < max_semaphore → is_used (get_elem? t.sem_tab i) ≡ true)
      → r ≡ ok (t, minus_one)
      → Creates t name v r
  created :
      (t' : STable)
      → named t name ≡ none
      → r ≡ ok (t', pos 0)
      → Puts t name (Semaphore.new v) t'
      → Creates t name v r

unused_slot :
    (slots : List (Option Sem)) (i : ℕ)
    → i < length slots
    → is_used (get_elem? slots i) ≡ false
    → get_elem? slots i ≡ some none
unused_slot [] i h e = absurd (omega arith)
unused_slot (none ∷ rest) zero h e = refl
unused_slot (some s ∷ rest) zero h e = ground arith
unused_slot (slot ∷ rest) (suc i) h e = unused_slot rest i (omega arith) e

-- A semaphore put in an empty slot, or in place of another, keeps the bitmap in step.
set-IsCoherent :
    (t : STable) (bm : Bitmap) (i : ℕ) (s : Sem)
    → IsCoherent t
    → i < max_semaphore
    → Updates t.bm i true bm
    → IsCoherent (record { bm = bm; sem_tab = set t.sem_tab i (some s) })
set-IsCoherent t bm i s c h u = record {
  bitmap = u.keeps_wf;
  bits = u.same_size ∙ c.bits;
  slots = length-set t.sem_tab i (some s) ∙ c.slots;
  in_step = λ j k. elim (Bool-cases (j == i)) [
    | inl e ↦
        let same : j ≡ i = ground arith in
        rw same (ground (arith, u.changed i, get_elem?-set_self t.sem_tab i (some s), c.slots))
    | inr ne ↦ ground (
      arith,
      u.changed j,
      get_elem?-set_ne t.sem_tab {i = i} {j = j} (some s) (λ e. ground arith),
      c.in_step j,
    )
  ];
}

create_free :
    (t : STable) (name : Name) (v : ℤ)
    → IsCoherent t
    → length name < max_sem_name
    → slot_named t.sem_tab name ≡ none
    → Finds t.bm 0 t.bm.num_bits (find_and_set t.bm)
    → Creates t name v (find_and_set t.bm >>= place t name v)
unfolding place new_sem
create_free t name v c short new (inr f) =
    full (λ i h. ground (arith, f.all_marked i, c.bits, c.in_step i)) (rw f.returns)
create_free t name v c short new (inl f) =
    created t' (slot_named-none t.sem_tab name new)
      (rw (f.returns, lt→ltb (length name) max_sem_name short))
      (record {
        keeps = set-IsCoherent t f.bitmap f.found s c inside f.updates;
        changed = λ other. sem_named-set_new t.sem_tab f.found s other empty new;
      })
  where
    s : Sem
    s = record { name = name; sem = Semaphore.new v }

    t' : STable
    t' = record { bm = f.bitmap; sem_tab = set t.sem_tab f.found (some s) }

    inside : f.found < max_semaphore
    inside = omega (arith, f.below, c.bits)

    empty : get_elem? t.sem_tab f.found ≡ some none
    empty =
        unused_slot t.sem_tab f.found (omega (arith, c.slots))
          (ground (arith, c.in_step f.found, f.was_clear))

-- On a coherent table and a name that fits, CreateSemaphore refuses a name that is taken, and any
-- name in a full table, and changes nothing then; else the name stands for a new semaphore of the
-- value asked for, every other name for what it stood for, and the table stays coherent.
pub create-Creates :
    (t : STable) (name : Name) (v : ℤ)
    → IsCoherent t
    → length name < max_sem_name
    → Creates t name v (create t name v)
unfolding create
create-Creates t name v c short = elim (Option-cases (slot_named t.sem_tab name)) [
  | inl new ↦
      rw (find_lem t name c, new)
        (create_free t name v c short new (find_and_set-Finds t.bm c.bitmap))
  | inr (i, e) ↦
      let h = slot_named-Holds t.sem_tab name i e in
      taken h.held.sem h.stands (rw (find_lem t name c, e))
]

-- On a coherent table with a free slot, CreateSemaphore of a new name of 50 bytes or more writes
-- past the end of Sem::name.
pub create_overflow :
    (t : STable) (name : Name) (v : ℤ)
    → IsCoherent t
    → max_sem_name ≤ length name
    → named t name ≡ none
    → (i : ℕ) → i < max_semaphore
    → is_used (get_elem? t.sem_tab i) ≡ false
    → create t name v ≡ err undefined
unfolding create place new_sem
create_overflow t name v c long new i h empty = elim (Option-cases (slot_named t.sem_tab name)) [
  | inr (k, e) ↦
      let held = slot_named-Holds t.sem_tab name k e in absurd (ground (arith, held.stands, new))
  | inl e ↦ elim (find_and_set-Finds t.bm c.bitmap) [
    | inl f ↦ rw (find_lem t name c, e, f.returns) (ground arith)
    | inr f ↦ absurd (ground (arith, f.all_marked i, c.bits, c.in_step i))
  ]
]
