-- ===== src/LinkedList/Sorted.antt =====
-- SortedList::Insert of lib/list.cc: the walk to the place of the new item.
pub mod Insertion
use nachos_assignment.LinkedList.{
  Element, Heap, LinkedList, element_at, with_element, set_next, is_in_list, is_empty, walk,
}
use nachos_assignment.LinkedList.Chain.{IsChain, addresses, items, last_of, IsChain-set, among_ne}
use nachos_assignment.LinkedList.Ends.{among_self, among_later}
use nachos_assignment.Base.{
  ◌&&◌, ◌||◌, not, ℕ, zero, suc, ◌+◌, ◌-◌, ◌*◌, ◌/◌, ◌%◌, ◌^◌, ◌≤◌, ◌<◌, min, max, bit_and, bit_or,
  bit_xor, ◌≡◌, refl, sym, ap, ap₂, ◌∙◌, subst, fun_ext, ◌≢◌, ◌↔◌, ◌⊎◌, inl, inr, Bool, true, false,
  Option, none, some, List, [], ◌∷◌, ◌++◌, map, arith, ltb, leb, ◌==◌, if◌then◌else◌, ltb→lt,
  lt→ltb, leb→le, ==_iff, tests, Bool-cases, Option-cases, every, every-test, agree, agree_eq,
  length, get_elem?, set, get_or, take, drop, replicate, length-append, length-set,
  get_elem?-set_self, get_elem?-set_ne, take-append-drop, length-take, length-drop,
  length-replicate, length-map, get_elem?-eq-get_or, get_or-set_self, get_or-set_ne,
  get_or-replicate, get_elem?-none, get_elem?-some, get_elem?_beyond, get_elem?_inside, drop_all,
  drop_step, set-set_self, set-set_ne, set-get_elem?, among, IsDistinct, ℤ, pos, negsuc, pos_part,
  neg_part, sub_ℕ, neg_ℤ, ltb_ℤ, to_unsigned, to_int, IsInt, to_int-to_unsigned, ◌+ℤ◌, ◌-ℤ◌,
  same_int, minus_one, Name, same_name, same_name_eq, same_name_refl, Stop, aborted, halted,
  undefined, looping, Outcome, ok, err, Outcome-cases, check_int, ◌>>=◌, ◌>>◌, assert, deref, at,
  Name, same_name, same_name_eq, same_name_refl,
}

-- numInList is counted up; at the end of the function stands an assertion.
unfoldable pub finished : Bool → Heap → LinkedList → ℕ → Outcome (Heap × LinkedList)
finished asserting heap l item = do
  let checked = do now ← is_in_list heap l item; assert now; ok (heap, l)
  if asserting then checked else ok (heap, l)

-- The function that the list was made with.
module _ (compare : ℕ → ℕ → ℤ) where
  abbrev pub comes_before : ℕ → ℕ → Bool
  comes_before x y = ltb_ℤ (compare x y) (pos 0)

  -- The loop from `ptr` on and what follows it; the answer is whether the item went to the end, where
  -- the code goes on to its last assertion.
  unfoldable pub insert_from :
      ℕ → Heap → LinkedList → Option ℕ → Option ℕ → ℕ → Outcome (Heap × LinkedList × Bool)
  insert_from zero heap l ptr element item = err looping
  insert_from (suc rounds) heap l ptr element item = do
    e ← element_at heap ptr
    let rest = insert_from rounds heap l e.next element item
    let behind = do
      h1 ← set_next heap l.last element
      ok (h1, record l { last = element; num_in_list = suc l.num_in_list }, true)
    let between = do
      h1 ← set_next heap element e.next
      h2 ← set_next h1 ptr element
      ok (h2, record l { num_in_list = suc l.num_in_list }, false)
    let beside = do f ← element_at heap e.next; if comes_before item f.item then between else rest
    elim e.next [ none ↦ behind | some n ↦ beside ]

  unfoldable pub insert : Heap → LinkedList → ℕ → Outcome (Heap × LinkedList)
  insert heap l item = do
    let a = length heap
    let h1 = with_element heap item
    there ← is_in_list h1 l item
    assert (not there)
    let only : LinkedList = record {
      first = some a;
      last = some a;
      num_in_list = suc l.num_in_list;
    }
    let in_front : Element → Outcome (Heap × LinkedList × Bool) = λ e.
        set_next h1 (some a) l.first >>= λ h2.
        ok (h2, record l { first = some a; num_in_list = suc l.num_in_list }, true)
    r ← if is_empty l then ok (h1, only, true) else (do
      e ← element_at h1 l.first
      if comes_before item e.item
          then in_front e
          else insert_from (walk h1) h1 l l.first (some a) item)
    finished r.2 r.0 r.1 item

  -- The sequence with the item before the first one that it comes before.
  unfoldable pub inserted : ℕ → ℕ → List (ℕ × ℕ) → List (ℕ × ℕ)
  inserted a item [] = (a, item) ∷ []
  inserted a item (c ∷ cs) =
      let rest = inserted a item cs in
      if comes_before item c.1 then (a, item) ∷ c ∷ cs else c ∷ rest

  pub inserted_here :
      (a item : ℕ) (c : ℕ × ℕ) (cs : List (ℕ × ℕ))
      → comes_before item c.1 ≡ true
      → inserted a item (c ∷ cs) ≡ (a, item) ∷ c ∷ cs
  unfolding inserted
  inserted_here a item c cs h = rw h refl

  pub inserted_later :
      (a item : ℕ) (c : ℕ × ℕ) (cs : List (ℕ × ℕ))
      → comes_before item c.1 ≡ false
      → inserted a item (c ∷ cs) ≡ c ∷ inserted a item cs
  unfolding inserted
  inserted_later a item c cs h = rw h refl

-- The heap and the list after the loop of Insert linked the element at `b` in behind the one at `a`.
pub record Linked (heap h2 : Heap) (l l2 : LinkedList) (a x b : ℕ) (cs more : List (ℕ × ℕ))
    : Type 0 where
  pub chain : IsChain h2 (some a) ((a, x) ∷ more)
  pub frame :
      (k : ℕ) → among k (a ∷ addresses cs) ≡ false → k ≢ b → get_elem? h2 k ≡ get_elem? heap k
  pub size : length h2 ≡ length heap
  pub ends : l2.last ≡ last_of ((a, x) ∷ more)
  pub head : l2.first ≡ l.first
  pub count : l2.num_in_list ≡ suc l.num_in_list

module _ (compare : ℕ → ℕ → ℤ) (b item : ℕ) where
  pub link_in :
      (rounds : ℕ) (heap : Heap) (l : LinkedList) (a x : ℕ) (ptr : Option ℕ) (cs : List (ℕ × ℕ))
      → get_elem? heap a ≡ some (some (record { item = x; next = ptr }))
      → IsChain heap ptr cs
      → IsDistinct (a ∷ addresses cs)
      → get_elem? heap b ≡ some (some (record { item = item; next = none }))
      → among b (a ∷ addresses cs) ≡ false
      → length cs < rounds
      → l.last ≡ last_of ((a, x) ∷ cs)
      → (h2 : Heap) × (l2 : LinkedList) × (at_end : Bool) × (insert_from compare rounds heap l
            (some a)
            (some b)
            item
          ≡ ok (h2, l2, at_end))
        × Linked heap h2 l l2 a x b cs (inserted compare b item cs)
  unfolding insert_from
  link_in zero heap l a x ptr cs here chain d new fresh few last = absurd (omega arith)
  link_in (suc rounds) heap l a x ptr [] here chain d new fresh few last =
      let (ne, apart) = among_ne b a [] fresh in
      let v : Option Element = some (record { item = x; next = some b }) in
      let linked : set_next heap l.last (some b) ≡ ok (set heap a v) =
        unfold set_next in rw (last, here) refl in
      (
        set heap a v,
        record l { last = some b; num_in_list = suc l.num_in_list },
        true,
        rw (here, chain, linked) refl,
        record {
          chain =
              unfold inserted in
              (
                refl,
                (
                  some b,
                  get_elem?-set_self heap a v (get_elem?_inside heap a _ here),
                  (
                    refl,
                    (none, get_elem?-set_ne heap {i = a} {j = b} v (λ e. ne (sym e)) ∙ new, refl),
                  ),
                ),
              );
          frame = λ k others kb.
              get_elem?-set_ne heap {i = a} {j = k} v (λ e. (among_ne k a [] others).0 (sym e));
          size = length-set heap a v;
          ends = unfold inserted in refl;
          head = refl;
          count = refl;
        },
      )
  link_in (suc rounds) heap l a x ptr (c ∷ cs) here (start, (q, next_here, rest)) d new fresh few
        last =
      let (ne, apart) = among_ne b a (c.0 ∷ addresses cs) fresh in
      let whole : IsChain heap (some c.0) (c ∷ cs) = (refl, (q, next_here, rest)) in
      elim (Bool-cases (comes_before compare item c.1)) [
        | inl before ↦
            let v : Option Element = some (record { item = item; next = some c.0 }) in
            let w : Option Element = some (record { item = x; next = some b }) in
            let h1 : Heap = set heap b v in
            let still : get_elem? h1 a ≡ some (some (record { item = x; next = ptr })) =
              get_elem?-set_ne heap {i = b} {j = a} v ne ∙ here in
            let first : set_next heap (some b) (some c.0) ≡ ok h1 =
              unfold set_next in rw new refl in
            let second : set_next h1 (some a) (some b) ≡ ok (set h1 a w) =
              unfold set_next in rw still refl in
            (
              set h1 a w,
              record l { num_in_list = suc l.num_in_list },
              false,
              rw (here, start, start, next_here, before, first, second) refl,
              record {
                chain =
                    subst (λ t. IsChain (set h1 a w) (some a) ((a, x) ∷ t))
                      (sym (inserted_here compare b item c cs before))
                      (
                        refl,
                        (
                          some b,
                          get_elem?-set_self h1 a w (get_elem?_inside h1 a _ still),
                          (
                            refl,
                            (
                              some c.0,
                              get_elem?-set_ne h1 {i = a} {j = b} w (λ e. ne (sym e))
                                  ∙ get_elem?-set_self heap b v (get_elem?_inside heap b _ new),
                              IsChain-set h1 (some c.0) (c ∷ cs) a w d.0
                                  (IsChain-set heap (some c.0) (c ∷ cs) b v apart whole),
                            ),
                          ),
                        ),
                      );
                frame = λ k others kb.
                    get_elem?-set_ne h1 {i = a} {j = k} w
                      (λ e. (among_ne k a (c.0 ∷ addresses cs) others).0 (sym e))
                    ∙ get_elem?-set_ne heap {i = b} {j = k} v (λ e. kb (sym e));
                size = length-set h1 a w ∙ length-set heap b v;
                ends =
                    last
                    ∙ ap (λ t. last_of ((a, x) ∷ t))
                        (sym (inserted_here compare b item c cs before));
                head = refl;
                count = refl;
              },
            )
        | inr after ↦
            let (h2, l2, at_end, e, u) =
              link_in rounds heap l c.0 c.1 q cs next_here rest d.1 new apart (omega arith) last in
            (
              h2,
              l2,
              at_end,
              rw (here, start, start, next_here, after) e,
              record {
                chain =
                    subst (λ t. IsChain h2 (some a) ((a, x) ∷ t))
                      (sym (inserted_later compare b item c cs after))
                      (
                        refl,
                        (
                          ptr,
                          u.frame a d.0 (λ e. ne (sym e)) ∙ here,
                          subst (λ t. IsChain h2 t (c ∷ inserted compare b item cs)) (sym start)
                              u.chain,
                        ),
                      );
                frame = λ k others kb. u.frame k (among_ne k a (c.0 ∷ addresses cs) others).1 kb;
                size = u.size;
                ends =
                    u.ends
                    ∙ ap (λ t. last_of ((a, x) ∷ t))
                        (sym (inserted_later compare b item c cs after));
                head = u.head;
                count = u.count;
              },
            )
      ]
