-- ===== src/LinkedList/Sorted/Insertion.antt =====
-- SortedList::Insert of lib/list.cc, as an operation on a sorted sequence of items.
use nachos_assignment.LinkedList.Chain.{
  IsChain-set, IsChain-new, new_at, new-fresh, last_of, IsChain, Represents, addresses, items,
  among_ne,
}
use nachos_assignment.LinkedList.Ends.{looked, length-new, is_in_list_lem, among_self, among_later}
use nachos_assignment.LinkedList.Removal.{among_cons}
use nachos_assignment.LinkedList.Sorted.{
  walk, link_in, set_next, Element, finished, is_empty, with_element, is_in_list, LinkedList,
  insert, Heap, comes_before, inserted, inserted_here, inserted_later,
}
use nachos_assignment.Base.{
  ℕ, suc, ◌≡◌, refl, sym, ap, ◌∙◌, subst, ◌≢◌, inl, inr, Bool, true, false, Option, none, some,
  List, [], ◌∷◌, arith, Bool-cases, length, set, length-set, get_elem?-set_self, get_elem?_inside,
  among, IsDistinct, ℤ, ok,
}

-- No item comes before the one that stands in front of it.
abbrev pub IsSorted : (ℕ → ℕ → ℤ) → List ℕ → Type 0
IsSorted compare [] = Unit {0}
IsSorted compare (x ∷ []) = Unit {0}
IsSorted compare (x ∷ y ∷ xs) = (comes_before compare y x ≡ false) × IsSorted compare (y ∷ xs)

module _ (compare : ℕ → ℕ → ℤ) (a item : ℕ) where
  addresses-inserted :
      (cs : List (ℕ × ℕ)) (k : ℕ)
      → k ≢ a
      → among k (addresses cs) ≡ false
      → among k (addresses (inserted compare a item cs)) ≡ false
  addresses-inserted [] k ne h = unfold inserted in among_cons k a [] ne h
  addresses-inserted (c ∷ cs) k ne h =
      let (other, others) = among_ne k c.0 (addresses cs) h in
      elim (Bool-cases (comes_before compare item c.1)) [
        | inl before ↦
            rw (inserted_here compare a item c cs before) (among_cons k a (addresses (c ∷ cs)) ne h)
        | inr after ↦
            rw (inserted_later compare a item c cs after)
              (among_cons k c.0 _ other (addresses-inserted cs k ne others))
      ]

  IsDistinct-inserted :
      (cs : List (ℕ × ℕ))
      → IsDistinct (addresses cs)
      → among a (addresses cs) ≡ false
      → IsDistinct (addresses (inserted compare a item cs))
  IsDistinct-inserted [] d fresh = unfold inserted in (fresh, tt)
  IsDistinct-inserted (c ∷ cs) (apart, d) fresh =
      let (ne, others) = among_ne a c.0 (addresses cs) fresh in
      elim (Bool-cases (comes_before compare item c.1)) [
        | inl before ↦ rw (inserted_here compare a item c cs before) (fresh, (apart, d))
        | inr after ↦
            rw (inserted_later compare a item c cs after)
              (addresses-inserted cs c.0 (λ e. ne (sym e)) apart, IsDistinct-inserted cs d others)
      ]

  length-inserted : (cs : List (ℕ × ℕ)) → length (inserted compare a item cs) ≡ suc (length cs)
  length-inserted [] = unfold inserted in refl
  length-inserted (c ∷ cs) = elim (Bool-cases (comes_before compare item c.1)) [
    | inl before ↦ rw (inserted_here compare a item c cs before) refl
    | inr after ↦ rw (inserted_later compare a item c cs after) (ap suc (length-inserted cs))
  ]

  item-inserted : (cs : List (ℕ × ℕ)) → among item (items (inserted compare a item cs)) ≡ true
  item-inserted [] = unfold inserted in among_self item []
  item-inserted (c ∷ cs) = elim (Bool-cases (comes_before compare item c.1)) [
    | inl before ↦ rw (inserted_here compare a item c cs before) (among_self item (items (c ∷ cs)))
    | inr after ↦
        rw (inserted_later compare a item c cs after) (among_later item c.1 _ (item-inserted cs))
  ]

  module _
      (asymmetric : (x y : ℕ)
        → comes_before compare x y ≡ true
        → comes_before compare y x ≡ false) where
    -- The sequence behind an item that the new one does not come before.
    IsSorted-behind :
        (x : ℕ) (cs : List (ℕ × ℕ))
        → comes_before compare item x ≡ false
        → IsSorted compare (x ∷ items cs)
        → IsSorted compare (x ∷ items (inserted compare a item cs))
    IsSorted-behind x [] after s = unfold inserted in (after, tt)
    IsSorted-behind x (c ∷ cs) after (first, s) =
        elim (Bool-cases (comes_before compare item c.1)) [
          | inl before ↦
              rw (inserted_here compare a item c cs before) (after, (asymmetric item c.1 before, s))
          | inr later ↦
              rw (inserted_later compare a item c cs later) (first, IsSorted-behind c.1 cs later s)
        ]

    IsSorted-inserted :
        (cs : List (ℕ × ℕ))
        → IsSorted compare (items cs)
        → IsSorted compare (items (inserted compare a item cs))
    IsSorted-inserted [] s = unfold inserted in tt
    IsSorted-inserted (c ∷ cs) s = elim (Bool-cases (comes_before compare item c.1)) [
      | inl before ↦ rw (inserted_here compare a item c cs before) (asymmetric item c.1 before, s)
      | inr after ↦ rw (inserted_later compare a item c cs after) (IsSorted-behind c.1 cs after s)
    ]

-- The end of Insert, with its last assertion or without it.
ended :
    (asserting : Bool) (heap : Heap) (l : LinkedList) (item : ℕ)
    → is_in_list heap l item ≡ ok true
    → finished asserting heap l item ≡ ok (heap, l)
unfolding finished
ended true heap l item h = rw h refl
ended false heap l item h = refl

module _ (compare : ℕ → ℕ → ℤ) where
  placed :
      (heap h2 : Heap) (l l2 : LinkedList) (cs : List (ℕ × ℕ)) (item : ℕ)
      → Represents heap l cs
      → IsChain h2 l2.first (inserted compare (length heap) item cs)
      → l2.last ≡ last_of (inserted compare (length heap) item cs)
      → l2.num_in_list ≡ suc l.num_in_list
      → length h2 ≡ suc (length heap)
      → Represents h2 l2 (inserted compare (length heap) item cs)
  placed heap h2 l l2 cs item r chain at_end count size = record {
    chain = chain;
    distinct =
        IsDistinct-inserted compare (length heap) item cs r.distinct
          (new-fresh heap l.first cs r.chain);
    ends = at_end;
    counted = count ∙ (ap suc r.counted ∙ sym (length-inserted compare (length heap) item cs));
    room = omega (arith, size, length-inserted compare (length heap) item cs, r.room);
  }

  found_there :
      (h2 : Heap) (l2 : LinkedList) (a item : ℕ) (cs : List (ℕ × ℕ))
      → Represents h2 l2 (inserted compare a item cs)
      → is_in_list h2 l2 item ≡ ok true
  found_there h2 l2 a item cs r =
      is_in_list_lem h2 l2 _ item r ∙ ap (λ t. ok t) (item-inserted compare a item cs)

  insert_lem :
      (heap : Heap) (l : LinkedList) (cs : List (ℕ × ℕ)) (item : ℕ)
      → Represents heap l cs
      → among item (items cs) ≡ false
      → (h2 : Heap) × (l2 : LinkedList) × (insert compare heap l item ≡ ok (h2, l2))
        × Represents h2 l2 (inserted compare (length heap) item cs)
  unfolding insert
  insert_lem heap l [] item r fresh =
      let a : ℕ = length heap in
      let h1 : Heap = with_element heap item in
      let emptied : is_empty l ≡ true = ground (arith, r.counted) in
      let l2 : LinkedList = record {
        first = some a;
        last = some a;
        num_in_list = suc l.num_in_list;
      } in
      let r2 : Represents h1 l2 (inserted compare a item []) =
        placed heap h1 l l2 [] item r (unfold inserted in (refl, (none, new_at heap item, refl)))
          (unfold inserted in refl) refl (length-new heap item) in
      (
        h1,
        l2,
        simp (looked heap l [] item r, fresh, emptied)
            (ended true h1 l2 item (found_there h1 l2 a item [] r2)),
        r2,
      )
  insert_lem heap l (c ∷ cs) item r fresh =
      let a : ℕ = length heap in
      let h1 : Heap = with_element heap item in
      let some_there : is_empty l ≡ false = ground (arith, r.counted) in
      let unused = new-fresh heap l.first (c ∷ cs) r.chain in
      let chain1 = IsChain-new heap l.first (c ∷ cs) item r.chain in
      let (start, (q, here, rest)) = chain1 in
      elim (Bool-cases (comes_before compare item c.1)) [
        | inl before ↦
            let v : Option Element = some (record { item = item; next = some c.0 }) in
            let h2 : Heap = set h1 a v in
            let l2 : LinkedList = record l { first = some a; num_in_list = suc l.num_in_list } in
            let linked : set_next h1 (some a) (some c.0) ≡ ok h2 =
              unfold set_next in rw (new_at heap item) refl in
            let order = inserted_here compare a item c cs before in
            let r2 : Represents h2 l2 (inserted compare a item (c ∷ cs)) =
              placed heap h2 l l2 (c ∷ cs) item r
                (subst (λ t. IsChain h2 (some a) t) (sym order)
                  (
                    refl,
                    (
                      some c.0,
                      get_elem?-set_self h1 a v (get_elem?_inside h1 a _ (new_at heap item)),
                      IsChain-set h1 (some c.0) (c ∷ cs) a v unused (refl, (q, here, rest)),
                    ),
                  ))
                (r.ends ∙ ap last_of (sym order)) refl (length-set h1 a v ∙ length-new heap item) in
            (
              h2,
              l2,
              simp (looked heap l (c ∷ cs) item r, fresh, some_there, start, here, before, linked)
                  (ended true h2 l2 item (found_there h2 l2 a item (c ∷ cs) r2)),
              r2,
            )
        | inr after ↦
            let (h2, l2, at_end, e, u) =
              link_in compare a item (walk h1) h1 l c.0 c.1 q cs here rest r.distinct
                (new_at heap item) unused (omega (arith, r.room, length-new heap item)) r.ends in
            let order = inserted_later compare a item c cs after in
            let r2 : Represents h2 l2 (inserted compare a item (c ∷ cs)) =
              placed heap h2 l l2 (c ∷ cs) item r
                (subst (λ t. IsChain h2 l2.first t) (sym order)
                  (subst (λ t. IsChain h2 t (c ∷ inserted compare a item cs)) (sym (u.head ∙ start))
                    u.chain))
                (u.ends ∙ ap last_of (sym order)) u.count (u.size ∙ length-new heap item) in
            (
              h2,
              l2,
              simp (looked heap l (c ∷ cs) item r, fresh, some_there, start, here, after, e)
                  (ended at_end h2 l2 item (found_there h2 l2 a item (c ∷ cs) r2)),
              r2,
            )
      ]

-- Insert of an item that is not there, into a sorted list and by a comparison under which no two
-- items come before each other: the list is sorted after it and has the item in front of the first
-- one that it comes before, the others in their order.
pub insert_sorts :
    (compare : ℕ → ℕ → ℤ) (heap : Heap) (l : LinkedList) (cs : List (ℕ × ℕ)) (item : ℕ)
    → ((x y : ℕ) → comes_before compare x y ≡ true → comes_before compare y x ≡ false)
    → Represents heap l cs
    → IsSorted compare (items cs)
    → among item (items cs) ≡ false
    → (h2 : Heap) × (l2 : LinkedList) × (more : List (ℕ × ℕ)) × (insert compare heap l item
        ≡ ok (h2, l2))
      × Represents h2 l2 more
      × IsSorted compare (items more)
      × (more ≡ inserted compare (length heap) item cs)
insert_sorts compare heap l cs item asymmetric r s fresh =
    let (h2, l2, e, r2) = insert_lem compare heap l cs item r fresh in
    (
      h2,
      l2,
      inserted compare (length heap) item cs,
      e,
      r2,
      IsSorted-inserted compare (length heap) item asymmetric cs s,
      refl,
    )
