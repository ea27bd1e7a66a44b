-- ===== src/STable/Invariant.antt =====
-- The table of threads/stable.cc keeps its bitmap and its array in step, and its loops find the
-- first semaphore of a name.
use nachos_assignment.STable.{Sem, STable, max_semaphore, new, is_named, find_from, find}
use nachos_assignment.STable.Slots.{slot_named}
use nachos_assignment.Bitmap.View.{marked, IsWf}
use nachos_assignment.Bitmap.Laws.{test-marked}
use nachos_assignment.Bitmap.Loops.{new_lem}
use nachos_assignment.Base.{
  ℕ, zero, suc, ◌+◌, ◌<◌, ◌≡◌, refl, sym, ap, ◌∙◌, inl, inr, Bool, true, false, Option, none, some,
  List, ◌∷◌, arith, Bool-cases, length, get_elem?, drop, replicate, get_elem?-some, drop_all,
  drop_step, Name, same_name, ok, Name, same_name,
}

abbrev pub is_used : Option (Option Sem) → Bool
is_used (some (some s)) = true
is_used (some none) = false
is_used none = false

-- A slot is marked exactly when it holds a semaphore.
pub record IsCoherent (t : STable) : Type 0 where
  pub bitmap : IsWf t.bm
  pub bits : t.bm.num_bits ≡ max_semaphore
  pub slots : length t.sem_tab ≡ max_semaphore
  pub in_step : (i : ℕ) → i < max_semaphore → marked t.bm i ≡ is_used (get_elem? t.sem_tab i)

get_elem?-replicate-none : (n i : ℕ) → is_used (get_elem? (replicate n none) i) ≡ false
get_elem?-replicate-none zero i = refl
get_elem?-replicate-none (suc n) zero = refl
get_elem?-replicate-none (suc n) (suc i) = get_elem?-replicate-none n i

pub new-IsCoherent : (t : STable) × (new ≡ ok t) × IsCoherent t
unfolding new
new-IsCoherent =
    let (b, e, wf, size, off) = new_lem 10 (omega arith) in
    (
      record { bm = b; sem_tab = replicate 10 none },
      rw e,
      record {
        bitmap = wf;
        bits = size;
        slots = refl;
        in_step = λ i h. off i h ∙ sym (get_elem?-replicate-none 10 i);
      },
    )

-- The slots from `i` on.
abbrev shift : ℕ → Option ℕ → Option ℕ
shift i none = none
shift i (some k) = some (k + i)

is_named_lem :
    (t : STable) (i : ℕ) (name : Name) (slot : Option Sem)
    → IsCoherent t
    → i < max_semaphore
    → get_elem? t.sem_tab i ≡ some slot
    → is_named t i name ≡ ok (elim slot [ none ↦ false | some s ↦ same_name name s.name ])
unfolding is_named
is_named_lem t i name none c h e = ground (arith, test-marked t.bm i c.bitmap, c.bits, c.in_step i)
is_named_lem t i name (some s) c h e =
    ground (arith, test-marked t.bm i c.bitmap, c.bits, c.in_step i)

shift-suc :
    (i : ℕ) (o : Option ℕ)
    → shift (i + 1) o ≡ shift i (elim o [ none ↦ none | some k ↦ some (suc k) ])
shift-suc i none = refl
shift-suc i (some k) = ap (λ (t : ℕ). some t) (omega arith)

-- The loop, one slot further on.
find_from_step :
    (left i : ℕ) (t : STable) (name : Name) (slot : Option Sem) (rest : List (Option Sem))
    → is_named t i name ≡ ok (elim slot [ none ↦ false | some s ↦ same_name name s.name ])
    → find_from left (i + 1) t name ≡ ok (shift (i + 1) (slot_named rest name))
    → find_from (suc left) i t name ≡ ok (shift i (slot_named (slot ∷ rest) name))
unfolding find_from slot_named
find_from_step left i t name none rest e ih =
    rw (e, ih) (ap (λ (o : Option ℕ). ok o) (shift-suc i _))
find_from_step left i t name (some s) rest e ih = elim (Bool-cases (same_name name s.name)) [
  | inl hit ↦ rw (e, hit) (ap (λ (k : ℕ). ok (some k)) (omega arith))
  | inr miss ↦ rw (e, miss, ih) (ap (λ (o : Option ℕ). ok o) (shift-suc i _))
]

find_from_lem :
    (left i : ℕ) (t : STable) (name : Name)
    → IsCoherent t
    → i + left ≡ max_semaphore
    → find_from left i t name ≡ ok (shift i (slot_named (drop i t.sem_tab) name))
find_from_lem zero i t name c e =
    rw (drop_all t.sem_tab i (omega (arith, c.slots))) (unfold find_from slot_named in refl)
find_from_lem (suc left) i t name c e =
    let (slot, here) = get_elem?-some t.sem_tab i (omega (arith, c.slots)) in
    rw (drop_step t.sem_tab i slot here) (
      find_from_step left i t name slot (drop (suc i) t.sem_tab)
        (is_named_lem t i name slot c (omega arith) here)
        (find_from_lem left (i + 1) t name c (omega arith) ∙ next_slot))
  where
    next_slot :
        ok (shift (i + 1) (slot_named (drop (i + 1) t.sem_tab) name))
        ≡ ok (shift (i + 1) (slot_named (drop (suc i) t.sem_tab) name))
    next_slot =
        ap (λ (k : ℕ). ok (shift (i + 1) (slot_named (drop k t.sem_tab) name))) {y = suc i}
          (omega arith)

-- Create, Wait and Signal all look for the first semaphore of the name.
pub find_lem :
    (t : STable) (name : Name) → IsCoherent t → find t name ≡ ok (slot_named t.sem_tab name)
unfolding find
find_lem t name c =
    find_from_lem 10 0 t name c refl
    ∙ ap (λ (o : Option ℕ). ok o) (unshifted (slot_named t.sem_tab name))
  where
    unshifted : (o : Option ℕ) → shift 0 o ≡ o
    unshifted none = refl
    unshifted (some k) = ap (λ (n : ℕ). some n) (omega arith)
