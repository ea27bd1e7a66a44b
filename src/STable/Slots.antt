-- ===== src/STable/Slots.antt =====
-- The slots of the semaphore table (threads/stable.cc) as a list, searched by name.
use nachos_assignment.STable.{Sem}
use nachos_assignment.Threads.Semaphore.{Semaphore}
use nachos_assignment.Base.{
  ℕ, zero, suc, ◌≡◌, refl, sym, ◌∙◌, subst, inl, inr, Option, none, some, List, [], ◌∷◌, arith,
  if◌then◌else◌, Bool-cases, Option-cases, get_elem?, set, Name, same_name, same_name_eq,
  same_name_refl, Name, same_name, same_name_eq, same_name_refl,
}

-- The slot of the first semaphore of that name.
unfoldable pub slot_named : List (Option Sem) → Name → Option ℕ
slot_named [] name = none
slot_named (none ∷ rest) name = elim (slot_named rest name) [ none ↦ none | some i ↦ some (suc i) ]
slot_named (some s ∷ rest) name =
    if same_name name s.name
    then some 0
    else elim (slot_named rest name) [ none ↦ none | some i ↦ some (suc i) ]

-- The semaphore that a name stands for: what the table is to a user program.
unfoldable pub sem_named : List (Option Sem) → Name → Option Semaphore
sem_named [] name = none
sem_named (none ∷ rest) name = sem_named rest name
sem_named (some s ∷ rest) name = if same_name name s.name then some s.sem else sem_named rest name

-- The slot found holds a semaphore of that name, and it is the one that the name stands for.
pub record Holds (slots : List (Option Sem)) (i : ℕ) (name : Name) : Type 0 where
  pub held : Sem
  pub at_slot : get_elem? slots i ≡ some (some held)
  pub has_name : held.name ≡ name
  pub stands : sem_named slots name ≡ some held.sem

-- One more slot in front, which does not have the name.
Holds-suc :
    {slots : List (Option Sem)} {i : ℕ} {name : Name} (slot : Option Sem)
    → sem_named (slot ∷ slots) name ≡ sem_named slots name
    → Holds slots i name
    → Holds (slot ∷ slots) (suc i) name
Holds-suc slot same h = record {
  held = h.held;
  at_slot = h.at_slot;
  has_name = h.has_name;
  stands = same ∙ h.stands;
}

pub slot_named-Holds :
    (slots : List (Option Sem)) (name : Name) (i : ℕ)
    → slot_named slots name ≡ some i
    → Holds slots i name
unfolding slot_named sem_named
slot_named-Holds [] name i h = ground arith
slot_named-Holds (none ∷ rest) name i h = elim (Option-cases (slot_named rest name)) [
  | inl e ↦ absurd (ground arith)
  | inr (k, e) ↦
      let same : suc k ≡ i = ground arith in
      subst (λ t. Holds (none ∷ rest) t name) same
        (Holds-suc none refl (slot_named-Holds rest name k e))
]
slot_named-Holds (some s ∷ rest) name i h = elim (Bool-cases (same_name name s.name)) [
  | inl hit ↦
      let same : 0 ≡ i = ground arith in
      subst (λ t. Holds (some s ∷ rest) t name) same
        (record {
          held = s;
          at_slot = refl;
          has_name = sym (same_name_eq name s.name hit);
          stands = rw hit;
        })
  | inr miss ↦ elim (Option-cases (slot_named rest name)) [
    | inl e ↦ absurd (ground arith)
    | inr (k, e) ↦
        let same : suc k ≡ i = ground arith in
        subst (λ t. Holds (some s ∷ rest) t name) same
          (Holds-suc (some s) (rw miss) (slot_named-Holds rest name k e))
  ]
]

pub slot_named-none :
    (slots : List (Option Sem)) (name : Name)
    → slot_named slots name ≡ none
    → sem_named slots name ≡ none
unfolding slot_named sem_named
slot_named-none [] name h = refl
slot_named-none (none ∷ rest) name h = ground (arith, slot_named-none rest name)
slot_named-none (some s ∷ rest) name h = ground (arith, slot_named-none rest name)

-- A new name in an empty slot is added to the names, and changes no other.
pub sem_named-set_new :
    (slots : List (Option Sem)) (i : ℕ) (s : Sem) (name : Name)
    → get_elem? slots i ≡ some none
    → slot_named slots s.name ≡ none
    → sem_named (set slots i (some s)) name
      ≡ (if same_name name s.name then some s.sem else sem_named slots name)
unfolding slot_named sem_named
sem_named-set_new [] i s name h e = ground arith
sem_named-set_new (none ∷ rest) zero s name h e = refl
sem_named-set_new (some x ∷ rest) zero s name h e = ground arith
sem_named-set_new (none ∷ rest) (suc i) s name h e = ground (arith, sem_named-set_new rest i s name)
sem_named-set_new (some x ∷ rest) (suc i) s name h e = ground (
  arith,
  sem_named-set_new rest i s name,
  same_name_eq name x.name,
  same_name_eq name s.name,
  same_name_refl s.name,
)

-- A change of the semaphore of a name changes what that name stands for, and no other.
pub sem_named-set_old :
    (slots : List (Option Sem)) (i : ℕ) (s : Sem) (sem : Semaphore) (name : Name)
    → get_elem? slots i ≡ some (some s)
    → slot_named slots s.name ≡ some i
    → sem_named (set slots i (some (record s { sem = sem }))) name
      ≡ (if same_name name s.name then some sem else sem_named slots name)
unfolding slot_named sem_named
sem_named-set_old [] i s sem name h e = ground arith
sem_named-set_old (none ∷ rest) zero s sem name h e = ground arith
sem_named-set_old (some x ∷ rest) zero s sem name h e = ground arith
sem_named-set_old (none ∷ rest) (suc i) s sem name h e =
    ground (arith, sem_named-set_old rest i s sem name)
sem_named-set_old (some x ∷ rest) (suc i) s sem name h e = ground (
  arith,
  sem_named-set_old rest i s sem name,
  same_name_eq name x.name,
  same_name_eq name s.name,
  same_name_refl s.name,
)
