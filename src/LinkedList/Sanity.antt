-- ===== src/LinkedList/Sanity.antt =====
-- IsInList and SanityCheck of lib/list.cc, and all operations of List on one list.
use nachos_assignment.LinkedList.{
  Element, Heap, LinkedList, element_at, append, prepend, remove, count_to, sanity_check,
  same_pointer, walk,
}
use nachos_assignment.LinkedList.Chain.{IsChain, addresses, items, last_of, Represents}
use nachos_assignment.LinkedList.Ends.{append_refuses, append_extends, with_last, looked}
use nachos_assignment.LinkedList.Front.{prepend_puts, last_in}
use nachos_assignment.LinkedList.Middle.{without}
use nachos_assignment.LinkedList.Removal.{remove_refuses, remove_takes}
use nachos_assignment.Base.{
  ℕ, zero, suc, ◌+◌, ◌≤◌, ◌<◌, ◌≡◌, refl, sym, ap, ◌∙◌, inl, inr, true, false, Option, none, some,
  List, [], ◌∷◌, arith, leb, ◌==◌, Bool-cases, length, among, IsDistinct, aborted, ok, err,
}

same_pointer_self : (a : ℕ) → same_pointer (some a) (some a) ≡ true
same_pointer_self a = ground arith

-- An element that stands before others is not the last.
not_last :
    (c c' : ℕ × ℕ) (cs : List (ℕ × ℕ))
    → among c.0 (addresses (c' ∷ cs)) ≡ false
    → same_pointer (some c.0) (last_of (c' ∷ cs)) ≡ false
not_last c c' cs apart =
    let (z, at_end, inside) = last_in c' cs in
    rw at_end (elim (Bool-cases (c.0 == z)) [
      | inl same ↦
          let eq : c.0 ≡ z = ground (arith, same) in
          absurd (ground (arith, sym (ap (λ t. among t (addresses (c' ∷ cs))) eq) ∙ apart, inside))
      | inr differ ↦ differ
    ])

count_to_lem :
    (rounds : ℕ) (heap : Heap) (l : LinkedList) (p : Option ℕ) (c : ℕ × ℕ) (cs : List (ℕ × ℕ))
    (found : ℕ)
    → IsChain heap p (c ∷ cs)
    → IsDistinct (addresses (c ∷ cs))
    → l.last ≡ last_of (c ∷ cs)
    → length cs < rounds
    → found + length cs ≤ l.num_in_list
    → count_to rounds heap l p found ≡ ok (found + length cs)
unfolding count_to
count_to_lem zero heap l p c cs found chain d at_end few fits = absurd (omega arith)
count_to_lem (suc rounds) heap l p c [] found (start, more) d at_end few fits =
    let none_more : found ≡ found + 0 = omega arith in
    simp (start, at_end, same_pointer_self c.0) (ap (λ t. ok t) none_more)
count_to_lem (suc rounds) heap l p c (c' ∷ cs) found (start, (q, here, rest)) d at_end few fits =
    let other = not_last c c' cs d.0 in
    let room : leb (suc found) l.num_in_list ≡ true = ground (arith, fits) in
    let again =
      count_to_lem rounds heap l q c' cs (suc found) rest d.1 at_end (omega arith)
        (omega (arith, fits)) in
    let same : suc found + length cs ≡ found + suc (length cs) = omega arith in
    simp (start, at_end, other, here, room, again) (ap (λ t. ok t) same)

last_cell :
    (heap : Heap) (p : Option ℕ) (c : ℕ × ℕ) (cs : List (ℕ × ℕ))
    → IsChain heap p (c ∷ cs)
    → (e : Element) × (element_at heap (last_of (c ∷ cs)) ≡ ok e) × (e.next ≡ none)
last_cell heap p c [] (start, (q, here, rest)) =
    (record { item = c.1; next = q }, rw here refl, rest)
last_cell heap p c (c' ∷ cs) (start, (q, here, rest)) = last_cell heap q c' cs rest

-- SanityCheck finds nothing wrong with a list whose elements stand for a sequence: its walk reaches
-- last and counts numInList elements.
pub sanity_check_passes :
    (heap : Heap) (l : LinkedList) (cs : List (ℕ × ℕ))
    → Represents heap l cs
    → sanity_check heap l ≡ ok tt
unfolding sanity_check
sanity_check_passes heap l [] r =
    let zero_there : (l.num_in_list == 0) ≡ true = ground (arith, r.counted) in
    simp (r.chain, r.ends, zero_there) refl
sanity_check_passes heap l (c ∷ []) r =
    let (start, (q, here, rest)) = r.chain in
    let one_there : (l.num_in_list == 1) ≡ true = ground (arith, r.counted) in
    simp (start, r.ends, same_pointer_self c.0, here, rest, one_there) refl
sanity_check_passes heap l (c ∷ c' ∷ cs) r =
    let (start, (q, here, rest)) = r.chain in
    let other = not_last c c' cs r.distinct.0 in
    let counting : count_to (walk heap) heap l (some c.0) 1 ≡ ok (1 + suc (length cs)) =
      count_to_lem (walk heap) heap l (some c.0) c (c' ∷ cs) 1 (refl, (q, here, rest)) r.distinct
        r.ends (omega (arith, r.room)) (omega (arith, r.counted)) in
    let all : (1 + suc (length cs) == l.num_in_list) ≡ true = ground (arith, r.counted) in
    let (e, cell, final) = last_cell heap q c' cs rest in
    simp (start, r.ends, other, counting, all, cell, final) refl

-- Append, Prepend and Remove as the list has the item or not.
pub data Updates (heap : Heap) (l : LinkedList) (cs : List (ℕ × ℕ)) (item : ℕ) : Type 0 where
  present :
      among item (items cs) ≡ true
      → append heap l item ≡ err aborted
      → prepend heap l item ≡ err aborted
      → (h2 : Heap) × (l2 : LinkedList) × (remove heap l item ≡ ok (h2, l2))
        × Represents h2 l2 (without item cs)
      → Updates heap l cs item
  absent :
      among item (items cs) ≡ false
      → (h2 : Heap) × (l2 : LinkedList) × (append heap l item ≡ ok (h2, l2))
        × Represents h2 l2 (with_last cs (length heap) item)
      → (h2 : Heap) × (l2 : LinkedList) × (prepend heap l item ≡ ok (h2, l2))
        × Represents h2 l2 ((length heap, item) ∷ cs)
      → remove heap l item ≡ err aborted
      → Updates heap l cs item

prepend_refuses :
    (heap : Heap) (l : LinkedList) (cs : List (ℕ × ℕ)) (item : ℕ)
    → Represents heap l cs
    → among item (items cs) ≡ true
    → prepend heap l item ≡ err aborted
unfolding prepend
prepend_refuses heap l cs item r there = rw (looked heap l cs item r, there) refl

-- On a list whose elements stand for a sequence of distinct items: Append puts a new item at the
-- end of the sequence and Prepend at the front, Remove takes an item out of it, each with the
-- others in their order and with first, last and numInList right; Append and Prepend of an item
-- that is there and Remove of one that is not fail an assertion.
pub list-Updates :
    (heap : Heap) (l : LinkedList) (cs : List (ℕ × ℕ)) (item : ℕ)
    → Represents heap l cs
    → IsDistinct (items cs)
    → Updates heap l cs item
list-Updates heap l cs item r d = elim (Bool-cases (among item (items cs))) [
  | inl there ↦
      present there (append_refuses heap l cs item r there) (prepend_refuses heap l cs item r there)
        (remove_takes heap l cs item r d there)
  | inr fresh ↦
      absent fresh (append_extends heap l cs item r fresh) (prepend_puts heap l cs item r fresh)
        (remove_refuses heap l cs item r fresh)
]
