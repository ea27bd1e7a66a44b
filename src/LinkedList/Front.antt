-- ===== src/LinkedList/Front.antt =====
-- Prepend and RemoveFront of lib/list.cc, as operations on a sequence of items.
use nachos_assignment.LinkedList.{
  Element, Heap, LinkedList, with_element, set_next, is_empty, free, prepend, remove_front,
}
use nachos_assignment.LinkedList.Chain.{
  IsChain, addresses, items, last_of, Represents, IsChain-set, IsChain-new, new_at, new-fresh,
}
use nachos_assignment.LinkedList.Ends.{is_in_list_lem, looked, length-new, among_self, among_later}
use nachos_assignment.Base.{
  ℕ, suc, ◌-◌, ◌≡◌, refl, sym, ap, ◌∙◌, inl, inr, true, false, Option, none, some, List, [], ◌∷◌,
  arith, ◌==◌, Bool-cases, length, get_elem?, set, length-set, get_elem?-set_self, get_elem?_inside,
  among, ok,
}

pub prepended :
    (heap h2 : Heap) (l l2 : LinkedList) (cs : List (ℕ × ℕ)) (a item : ℕ)
    → Represents heap l cs
    → among a (addresses cs) ≡ false
    → IsChain h2 l2.first ((a, item) ∷ cs)
    → l2.last ≡ last_of ((a, item) ∷ cs)
    → l2.num_in_list ≡ suc l.num_in_list
    → length h2 ≡ suc (length heap)
    → Represents h2 l2 ((a, item) ∷ cs)
prepended heap h2 l l2 cs a item r fresh chain at_end count size = record {
  chain = chain;
  distinct = (fresh, r.distinct);
  ends = at_end;
  counted = count ∙ ap suc r.counted;
  room = omega (arith, size, r.room);
}

-- Prepend of an item that is not in the list puts it before the others.
pub prepend_puts :
    (heap : Heap) (l : LinkedList) (cs : List (ℕ × ℕ)) (item : ℕ)
    → Represents heap l cs
    → among item (items cs) ≡ false
    → (h2 : Heap) × (l2 : LinkedList) × (prepend heap l item ≡ ok (h2, l2))
      × Represents h2 l2 ((length heap, item) ∷ cs)
unfolding prepend
prepend_puts heap l [] item r fresh =
    let a : ℕ = length heap in
    let h1 : Heap = with_element heap item in
    let emptied : is_empty l ≡ true = ground (arith, r.counted) in
    let l2 : LinkedList = record {
      first = some a;
      last = some a;
      num_in_list = suc l.num_in_list;
    } in
    let r2 : Represents h1 l2 ((a, item) ∷ []) =
      prepended heap h1 l l2 [] a item r (new-fresh heap l.first [] r.chain)
        (refl, (none, new_at heap item, refl)) refl refl (length-new heap item) in
    (
      h1,
      l2,
      rw
          (
            looked heap l [] item r,
            fresh,
            emptied,
            is_in_list_lem h1 l2 _ item r2,
            among_self item [],
          )
          refl,
      r2,
    )
prepend_puts heap l (c ∷ cs) item r fresh =
    let a : ℕ = length heap in
    let h1 : Heap = with_element heap item in
    let some_there : is_empty l ≡ false = ground (arith, r.counted) in
    let unused = new-fresh heap l.first (c ∷ cs) r.chain in
    let v : Option Element = some (record { item = item; next = l.first }) in
    let h2 : Heap = set h1 a v in
    let l2 : LinkedList = record {
      first = some a;
      last = l.last;
      num_in_list = suc l.num_in_list;
    } in
    let linked : set_next h1 (some a) l.first ≡ ok h2 =
      unfold set_next in rw (new_at heap item) refl in
    let r2 : Represents h2 l2 ((a, item) ∷ c ∷ cs) =
      prepended heap h2 l l2 (c ∷ cs) a item r unused
        (
          refl,
          (
            l.first,
            get_elem?-set_self h1 a v (get_elem?_inside h1 a _ (new_at heap item)),
            IsChain-set h1 l.first (c ∷ cs) a v unused
                (IsChain-new heap l.first (c ∷ cs) item r.chain),
          ),
        )
        r.ends refl (length-set h1 a v ∙ length-new heap item) in
    (
      h2,
      l2,
      rw
          (
            looked heap l (c ∷ cs) item r,
            fresh,
            some_there,
            linked,
            is_in_list_lem h2 l2 _ item r2,
            among_self item (items (c ∷ cs)),
          )
          refl,
      r2,
    )

pub last_in :
    (c : ℕ × ℕ) (cs : List (ℕ × ℕ))
    → (z : ℕ) × (last_of (c ∷ cs) ≡ some z) × (among z (addresses (c ∷ cs)) ≡ true)
last_in c [] = (c.0, refl, among_self c.0 [])
last_in c (c' ∷ cs) =
    let (z, at_end, inside) = last_in c' cs in
    (z, at_end, among_later z c.0 (addresses (c' ∷ cs)) inside)

freed :
    (heap : Heap) (a : ℕ) (e : Element)
    → get_elem? heap a ≡ some (some e)
    → free heap (some a) ≡ ok (set heap a none)
unfolding free
freed heap a e h = rw h refl

-- RemoveFront of a list that is not empty answers its first item and leaves the others.
pub remove_front_takes :
    (heap : Heap) (l : LinkedList) (c : ℕ × ℕ) (cs : List (ℕ × ℕ))
    → Represents heap l (c ∷ cs)
    → (l2 : LinkedList) × (remove_front heap l ≡ ok (set heap c.0 none, l2, c.1))
      × Represents (set heap c.0 none) l2 cs
unfolding remove_front
remove_front_takes heap l c [] r =
    let some_there : is_empty l ≡ false = ground (arith, r.counted) in
    let (start, (q, here, rest)) = r.chain in
    (
      record { first = none; last = none; num_in_list = l.num_in_list - 1 },
      rw (some_there, start, r.ends, here, freed heap c.0 _ here) (ground arith),
      record {
        chain = refl;
        distinct = tt;
        ends = refl;
        counted = omega (arith, r.counted);
        room = omega arith;
      },
    )
remove_front_takes heap l c (c' ∷ cs) r =
    let some_there : is_empty l ≡ false = ground (arith, r.counted) in
    let (start, (q, here, rest)) = r.chain in
    let (z, at_end, inside) = last_in c' cs in
    let apart : among c.0 (addresses (c' ∷ cs)) ≡ false = r.distinct.0 in
    let other : (c.0 == z) ≡ false = elim (Bool-cases (c.0 == z)) [
      | inl same ↦
          let eq : c.0 ≡ z = ground (arith, same) in
          absurd (ground (arith, sym (ap (λ t. among t (addresses (c' ∷ cs))) eq) ∙ apart, inside))
      | inr differ ↦ differ
    ] in
    (
      record { first = q; last = l.last; num_in_list = l.num_in_list - 1 },
      rw (some_there, start, r.ends, at_end, here, freed heap c.0 _ here, other) refl,
      record {
        chain = IsChain-set heap q (c' ∷ cs) c.0 none apart rest;
        distinct = r.distinct.1;
        ends = r.ends;
        counted = omega (arith, r.counted);
        room = omega (arith, r.room, length-set heap c.0 none);
      },
    )
