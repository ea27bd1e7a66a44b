-- ===== src/LinkedList/Ends.antt =====
-- Append, Prepend and RemoveFront of lib/list.cc, as operations on a sequence of items.
use nachos_assignment.LinkedList.{
  Element, Heap, LinkedList, with_element, set_next, is_in_list, is_empty, walk, append,
}
use nachos_assignment.LinkedList.Chain.{
  IsChain, addresses, items, last_of, Represents, IsChain-new, new_at, new-fresh, in_list_from_lem,
  among_ne,
}
use nachos_assignment.Base.{
  ℕ, suc, ◌≡◌, refl, sym, ap, ◌∙◌, ◌≢◌, true, false, Option, none, some, List, [], ◌∷◌, ◌++◌, arith,
  length, get_elem?, set, length-append, length-set, get_elem?-set_self, get_elem?-set_ne,
  get_elem?_inside, among, IsDistinct, aborted, ok, err,
}

-- On a list whose elements stand for a sequence the walk of IsInList ends, and it answers whether
-- the item is in the sequence.
pub is_in_list_lem :
    (heap : Heap) (l : LinkedList) (cs : List (ℕ × ℕ)) (item : ℕ)
    → Represents heap l cs
    → is_in_list heap l item ≡ ok (among item (items cs))
unfolding is_in_list
is_in_list_lem heap l cs item r =
    in_list_from_lem (walk heap) heap l.first cs item r.chain (omega (arith, r.room))

pub among_self : (x : ℕ) (xs : List ℕ) → among x (x ∷ xs) ≡ true
unfolding among
among_self x xs = ground arith

pub among_later : (x y : ℕ) (xs : List ℕ) → among x xs ≡ true → among x (y ∷ xs) ≡ true
unfolding among
among_later x y xs h = ground (arith, h)

-- The walk over an element that was put at the end of a chain.
IsChain-extended :
    (heap : Heap) (p : Option ℕ) (c : ℕ × ℕ) (cs : List (ℕ × ℕ)) (b y : ℕ)
    → IsChain heap p (c ∷ cs)
    → IsDistinct (addresses (c ∷ cs))
    → get_elem? heap b ≡ some (some (record { item = y; next = none }))
    → among b (addresses (c ∷ cs)) ≡ false
    → (z : ℕ) × (e : Element) × (last_of (c ∷ cs) ≡ some z)
      × (get_elem? heap z ≡ some (some e))
      × (among z (addresses (c ∷ cs)) ≡ true)
      × IsChain (set heap z (some (record e { next = some b }))) p ((c ∷ cs) ++ ((b, y) ∷ []))
IsChain-extended heap p c [] b y (start, (q, here, rest)) d new fresh =
    let (ne, others) = among_ne b c.0 [] fresh in
    (
      c.0,
      record { item = c.1; next = q },
      refl,
      here,
      among_self c.0 [],
      (
        start,
        (
          some b,
          get_elem?-set_self heap c.0 _ (get_elem?_inside heap c.0 _ here),
          (refl, (none, get_elem?-set_ne heap {i = c.0} {j = b} _ (λ e. ne (sym e)) ∙ new, refl)),
        ),
      ),
    )
IsChain-extended heap p c (c' ∷ cs) b y (start, (q, here, rest)) (apart, d) new fresh =
    let (ne, others) = among_ne b c.0 (addresses (c' ∷ cs)) fresh in
    let (z, e, at_end, there, inside, longer) =
      IsChain-extended heap q c' cs b y rest d new others in
    let other : z ≢ c.0 =
      λ same. ground (arith, apart, sym (ap (λ t. among t (addresses (c' ∷ cs))) same) ∙ inside) in
    (
      z,
      e,
      at_end,
      there,
      among_later z c.0 (addresses (c' ∷ cs)) inside,
      (start, (q, get_elem?-set_ne heap {i = z} {j = c.0} _ other ∙ here, longer)),
    )

among_snoc :
    (x : ℕ) (cs : List (ℕ × ℕ)) (b y : ℕ)
    → among x (addresses cs) ≡ false
    → x ≢ b
    → among x (addresses (cs ++ ((b, y) ∷ []))) ≡ false
unfolding among
among_snoc x [] b y h ne = ground (arith, ne)
among_snoc x (c ∷ cs) b y h ne =
    let (first, others) = among_ne x c.0 (addresses cs) h in
    ground (arith, first, among_snoc x cs b y others ne)

addresses-append :
    (cs : List (ℕ × ℕ)) (b y : ℕ)
    → IsDistinct (addresses cs)
    → among b (addresses cs) ≡ false
    → IsDistinct (addresses (cs ++ ((b, y) ∷ [])))
addresses-append [] b y d fresh = (fresh, tt)
addresses-append (c ∷ cs) b y (apart, d) fresh =
    let (ne, others) = among_ne b c.0 (addresses cs) fresh in
    (among_snoc c.0 cs b y apart (λ e. ne (sym e)), addresses-append cs b y d others)

last_of-append : (cs : List (ℕ × ℕ)) (b y : ℕ) → last_of (cs ++ ((b, y) ∷ [])) ≡ some b
last_of-append [] b y = refl
last_of-append (c ∷ []) b y = refl
last_of-append (c ∷ c' ∷ cs) b y = last_of-append (c' ∷ cs) b y

items-append : (cs : List (ℕ × ℕ)) (b y : ℕ) → among y (items (cs ++ ((b, y) ∷ []))) ≡ true
items-append [] b y = among_self y []
items-append (c ∷ cs) b y = among_later y c.1 _ (items-append cs b y)

pub length-new : (heap : Heap) (item : ℕ) → length (with_element heap item) ≡ suc (length heap)
length-new heap item =
    length-append heap (some (record { item = item; next = none }) ∷ []) ∙ omega arith

-- The list with `item` at its end, in the element at `a`.
abbrev pub with_last : List (ℕ × ℕ) → ℕ → ℕ → List (ℕ × ℕ)
with_last cs a item = cs ++ ((a, item) ∷ [])

Represents-more :
    (heap h2 : Heap) (l l2 : LinkedList) (cs : List (ℕ × ℕ)) (a item : ℕ)
    → Represents heap l cs
    → among a (addresses cs) ≡ false
    → IsChain h2 l2.first (with_last cs a item)
    → l2.last ≡ some a
    → l2.num_in_list ≡ suc l.num_in_list
    → length h2 ≡ suc (length heap)
    → Represents h2 l2 (with_last cs a item)
Represents-more heap h2 l l2 cs a item r fresh chain at_end count size = record {
  chain = chain;
  distinct = addresses-append cs a item r.distinct fresh;
  ends = at_end ∙ sym (last_of-append cs a item);
  counted = count ∙ (ap suc r.counted ∙ sym (longer cs));
  room = omega (arith, size, longer cs, r.room);
}
  where
    longer : (cs : List (ℕ × ℕ)) → length (with_last cs a item) ≡ suc (length cs)
    longer cs = length-append cs ((a, item) ∷ []) ∙ omega arith

-- IsInList on the heap with a new element.
pub looked :
    (heap : Heap) (l : LinkedList) (cs : List (ℕ × ℕ)) (item : ℕ)
    → Represents heap l cs
    → is_in_list (with_element heap item) l item ≡ ok (among item (items cs))
unfolding is_in_list
looked heap l cs item r =
    in_list_from_lem (walk (with_element heap item)) (with_element heap item) l.first cs item
      (IsChain-new heap l.first cs item r.chain) (omega (arith, length-new heap item, r.room))

pub append_refuses :
    (heap : Heap) (l : LinkedList) (cs : List (ℕ × ℕ)) (item : ℕ)
    → Represents heap l cs
    → among item (items cs) ≡ true
    → append heap l item ≡ err aborted
unfolding append
append_refuses heap l cs item r there = rw (looked heap l cs item r, there) refl

pub append_extends :
    (heap : Heap) (l : LinkedList) (cs : List (ℕ × ℕ)) (item : ℕ)
    → Represents heap l cs
    → among item (items cs) ≡ false
    → (h2 : Heap) × (l2 : LinkedList) × (append heap l item ≡ ok (h2, l2))
      × Represents h2 l2 (with_last cs (length heap) item)
unfolding append
append_extends heap l [] item r fresh =
    let a : ℕ = length heap in
    let h1 : Heap = with_element heap item in
    let emptied : is_empty l ≡ true = ground (arith, r.counted) in
    let l2 : LinkedList = record {
      first = some a;
      last = some a;
      num_in_list = suc l.num_in_list;
    } in
    let r2 : Represents h1 l2 (with_last [] a item) =
      Represents-more heap h1 l l2 [] a item r (new-fresh heap l.first [] r.chain)
        (refl, (none, new_at heap item, refl)) refl refl (length-new heap item) in
    (
      h1,
      l2,
      rw
          (
            looked heap l [] item r,
            fresh,
            emptied,
            is_in_list_lem h1 l2 _ item r2,
            items-append [] a item,
          )
          refl,
      r2,
    )
append_extends heap l (c ∷ cs) item r fresh =
    let a : ℕ = length heap in
    let h1 : Heap = with_element heap item in
    let some_there : is_empty l ≡ false = ground (arith, r.counted) in
    let unused = new-fresh heap l.first (c ∷ cs) r.chain in
    let (z, e, at_end, there, inside, longer) =
      IsChain-extended h1 l.first c cs a item (IsChain-new heap l.first (c ∷ cs) item r.chain)
        r.distinct (new_at heap item) unused in
    let h2 : Heap = set h1 z (some (record e { next = some a })) in
    let l2 : LinkedList = record {
      first = l.first;
      last = some a;
      num_in_list = suc l.num_in_list;
    } in
    let linked : set_next h1 l.last (some a) ≡ ok h2 =
      unfold set_next in rw (r.ends, at_end, there) refl in
    let r2 : Represents h2 l2 (with_last (c ∷ cs) a item) =
      Represents-more heap h2 l l2 (c ∷ cs) a item r unused longer refl refl
        (length-set h1 z (some (record e { next = some a })) ∙ length-new heap item) in
    (
      h2,
      l2,
      rw
          (
            looked heap l (c ∷ cs) item r,
            fresh,
            some_there,
            linked,
            is_in_list_lem h2 l2 _ item r2,
            items-append (c ∷ cs) a item,
          )
          refl,
      r2,
    )
