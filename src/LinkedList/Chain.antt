-- ===== src/LinkedList/Chain.antt =====
-- What a heap of list elements (lib/list.h) says of a sequence of items, and how it changes.
use nachos_assignment.LinkedList.{Element, Heap, LinkedList, with_element, in_list_from}
use nachos_assignment.Base.{
  ℕ, zero, suc, ◌≤◌, ◌<◌, ◌≡◌, refl, ◌∙◌, ◌≢◌, inl, inr, false, Option, none, some, List, [], ◌∷◌,
  ◌++◌, arith, ◌==◌, Bool-cases, length, get_elem?, set, get_elem?-set_ne, get_elem?_inside, among,
  IsDistinct, ok,
}

-- The elements from `p` on are those, each an address with its item, and the last one ends the list.
abbrev pub IsChain : Heap → Option ℕ → List (ℕ × ℕ) → Type 0
IsChain heap p [] = p ≡ none
IsChain heap p (c ∷ cs) =
    (p ≡ some c.0)
    × ((q : Option ℕ) × (get_elem? heap c.0 ≡ some (some (record { item = c.1; next = q })))
        × IsChain heap q cs)

abbrev pub addresses : List (ℕ × ℕ) → List ℕ
addresses [] = []
addresses (c ∷ cs) = c.0 ∷ addresses cs

abbrev pub items : List (ℕ × ℕ) → List ℕ
items [] = []
items (c ∷ cs) = c.1 ∷ items cs

-- The address of the last element, if there is one.
abbrev pub last_of : List (ℕ × ℕ) → Option ℕ
last_of [] = none
last_of (c ∷ []) = some c.0
last_of (c ∷ d ∷ cs) = last_of (d ∷ cs)

-- The list stands for that sequence: the elements are there, each once, `last` is the last of them
-- and `numInList` counts them.
pub record Represents (heap : Heap) (l : LinkedList) (cs : List (ℕ × ℕ)) : Type 0 where
  pub chain : IsChain heap l.first cs
  pub distinct : IsDistinct (addresses cs)
  pub ends : l.last ≡ last_of cs
  pub counted : l.num_in_list ≡ length cs
  pub room : length cs ≤ length heap

pub among_ne : (a b : ℕ) (xs : List ℕ) → among a (b ∷ xs) ≡ false → (a ≢ b) × (among a xs ≡ false)
unfolding among
among_ne a b xs h = (ground (arith, h), ground (arith, h))

-- A write to another place leaves a chain alone.
pub IsChain-set :
    (heap : Heap) (p : Option ℕ) (cs : List (ℕ × ℕ)) (a : ℕ) (v : Option Element)
    → among a (addresses cs) ≡ false
    → IsChain heap p cs
    → IsChain (set heap a v) p cs
IsChain-set heap p [] a v other h = h
IsChain-set heap p (c ∷ cs) a v other (start, (q, here, rest)) =
    let (ne, others) = among_ne a c.0 (addresses cs) other in
    (
      start,
      (
        q,
        get_elem?-set_ne heap {i = a} {j = c.0} v ne ∙ here,
        IsChain-set heap q cs a v others rest,
      ),
    )

get_elem?-append :
    (heap more : Heap) (a : ℕ) (v : Option Element)
    → get_elem? heap a ≡ some v
    → get_elem? (heap ++ more) a ≡ some v
get_elem?-append [] more a v h = absurd (ground (arith, h))
get_elem?-append (x ∷ heap) more zero v h = h
get_elem?-append (x ∷ heap) more (suc a) v h = get_elem?-append heap more a v h

-- So does a new element.
pub IsChain-new :
    (heap : Heap) (p : Option ℕ) (cs : List (ℕ × ℕ)) (item : ℕ)
    → IsChain heap p cs
    → IsChain (with_element heap item) p cs
IsChain-new heap p [] item h = h
IsChain-new heap p (c ∷ cs) item (start, (q, here, rest)) =
    (start, (q, get_elem?-append heap _ c.0 _ here, IsChain-new heap q cs item rest))

pub new_at :
    (heap : Heap) (item : ℕ)
    → get_elem? (with_element heap item) (length heap)
      ≡ some (some (record { item = item; next = none }))
new_at [] item = refl
new_at (x ∷ heap) item = new_at heap item

-- The new place is none of the chain.
pub new-fresh :
    (heap : Heap) (p : Option ℕ) (cs : List (ℕ × ℕ))
    → IsChain heap p cs
    → among (length heap) (addresses cs) ≡ false
unfolding among
new-fresh heap p [] h = refl
new-fresh heap p (c ∷ cs) (start, (q, here, rest)) =
    let inside = get_elem?_inside heap c.0 _ here in
    ground (arith, inside, new-fresh heap q cs rest)

-- The walk of IsInList finds exactly the items of the chain.
pub in_list_from_lem :
    (rounds : ℕ) (heap : Heap) (p : Option ℕ) (cs : List (ℕ × ℕ)) (item : ℕ)
    → IsChain heap p cs
    → length cs < rounds
    → in_list_from rounds heap p item ≡ ok (among item (items cs))
unfolding in_list_from among
in_list_from_lem zero heap p cs item h few = absurd (omega arith)
in_list_from_lem (suc rounds) heap p [] item h few = rw h refl
in_list_from_lem (suc rounds) heap p (c ∷ cs) item (start, (q, here, rest)) few =
    let again = in_list_from_lem rounds heap q cs item rest (omega arith) in
    rw (start, here, again)
      (elim (Bool-cases (item == c.1)) [ inl same ↦ rw same refl | inr other ↦ rw other refl ])
