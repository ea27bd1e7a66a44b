-- ===== src/LinkedList/Middle.antt =====
-- Remove of lib/list.cc, as an operation on a sequence of items.
use nachos_assignment.LinkedList.{
  Element, Heap, LinkedList, set_next, free, remove_from, same_pointer,
}
use nachos_assignment.LinkedList.Chain.{IsChain, addresses, items, last_of, IsChain-set, among_ne}
use nachos_assignment.Base.{
  ℕ, zero, suc, ◌-◌, ◌<◌, ◌≡◌, refl, sym, ap, ◌∙◌, subst, inl, inr, true, false, Option, none, some,
  List, [], ◌∷◌, arith, ◌==◌, if◌then◌else◌, Bool-cases, length, get_elem?, set, length-set,
  get_elem?-set_self, get_elem?-set_ne, get_elem?_inside, among, IsDistinct, ok,
}

-- The sequence without the first element that has the item.
unfoldable pub without : ℕ → List (ℕ × ℕ) → List (ℕ × ℕ)
without item [] = []
without item (c ∷ cs) = let rest = without item cs in if item == c.1 then cs else c ∷ rest

-- The heap and the list after the loop of Remove took `item` out behind the element at `a`.
pub record Unlinked (heap h2 : Heap) (l l2 : LinkedList) (a x : ℕ) (cs : List (ℕ × ℕ)) (item : ℕ)
    : Type 0 where
  pub chain : IsChain h2 (some a) ((a, x) ∷ without item cs)
  pub frame : (k : ℕ) → among k (a ∷ addresses cs) ≡ false → get_elem? h2 k ≡ get_elem? heap k
  pub size : length h2 ≡ length heap
  pub ends : l2.last ≡ last_of ((a, x) ∷ without item cs)
  pub head : l2.first ≡ l.first
  pub count : l2.num_in_list ≡ l.num_in_list - 1

new_last :
    (heap : Heap) (l : LinkedList) (a x b y : ℕ) (q : Option ℕ) (cs : List (ℕ × ℕ))
    → IsChain heap q cs
    → l.last ≡ last_of ((a, x) ∷ (b, y) ∷ cs)
    → (if same_pointer q none then some a else l.last) ≡ last_of ((a, x) ∷ cs)
new_last heap l a x b y q [] e h = rw e refl
new_last heap l a x b y q (c ∷ cs) (start, more) h = rw start h

pub hit :
    (c : ℕ × ℕ) (cs : List (ℕ × ℕ)) (item : ℕ) → (item == c.1) ≡ true → without item (c ∷ cs) ≡ cs
unfolding without
hit c cs item h = rw h refl

pub miss :
    (c : ℕ × ℕ) (cs : List (ℕ × ℕ)) (item : ℕ)
    → (item == c.1) ≡ false
    → without item (c ∷ cs) ≡ c ∷ without item cs
unfolding without
miss c cs item h = rw h refl

pub take_out :
    (rounds : ℕ) (heap : Heap) (l : LinkedList) (a x : ℕ) (ptr : Option ℕ) (cs : List (ℕ × ℕ))
    (item : ℕ)
    → get_elem? heap a ≡ some (some (record { item = x; next = ptr }))
    → IsChain heap ptr cs
    → IsDistinct (a ∷ addresses cs)
    → among item (items cs) ≡ true
    → length cs < rounds
    → l.last ≡ last_of ((a, x) ∷ cs)
    → (h2 : Heap) × (l2 : LinkedList) × (remove_from rounds heap l (some a) ptr item ≡ ok (h2, l2))
      × Unlinked heap h2 l l2 a x cs item
unfolding remove_from among
take_out zero heap l a x ptr cs item here chain d there few at_end = absurd (omega arith)
take_out (suc rounds) heap l a x ptr [] item here chain d there few at_end =
    absurd (ground (arith, there))
take_out (suc rounds) heap l a x ptr (c ∷ cs) item here (start, (q, next_here, rest)) d there few
      at_end =
    let (ne, apart) = among_ne a c.0 (addresses cs) d.0 in
    elim (Bool-cases (item == c.1)) [
      | inl same ↦
          let v : Option Element = some (record { item = x; next = q }) in
          let h1 : Heap = set heap a v in
          let h2 : Heap = set h1 c.0 none in
          let still : get_elem? h1 c.0 ≡ some (some (record { item = c.1; next = q })) =
            get_elem?-set_ne heap {i = a} {j = c.0} v ne ∙ next_here in
          let linked : set_next heap (some a) q ≡ ok h1 = unfold set_next in rw here refl in
          let released : free h1 (some c.0) ≡ ok h2 = unfold free in rw still refl in
          (
            h2,
            record l {
              last = if same_pointer q none then some a else l.last;
              num_in_list = l.num_in_list - 1;
            },
            rw (start, next_here, same, linked, released) refl,
            record {
              chain =
                  subst (λ t. IsChain h2 (some a) ((a, x) ∷ t)) (sym (hit c cs item same))
                    (
                      refl,
                      (
                        q,
                        get_elem?-set_ne h1 {i = c.0} {j = a} none (λ e. ne (sym e))
                            ∙ get_elem?-set_self heap a v (get_elem?_inside heap a _ here),
                        IsChain-set h1 q cs c.0 none d.1.0 (IsChain-set heap q cs a v apart rest),
                      ),
                    );
              frame = λ k others.
                  let (ka, more) = among_ne k a (c.0 ∷ addresses cs) others in
                  let (kc, rest') = among_ne k c.0 (addresses cs) more in
                  get_elem?-set_ne h1 {i = c.0} {j = k} none (λ e. kc (sym e))
                  ∙ get_elem?-set_ne heap {i = a} {j = k} v (λ e. ka (sym e));
              size = length-set h1 c.0 none ∙ length-set heap a v;
              ends =
                  new_last heap l a x c.0 c.1 q cs rest at_end
                  ∙ ap (λ t. last_of ((a, x) ∷ t)) (sym (hit c cs item same));
              head = refl;
              count = refl;
            },
          )
      | inr other ↦
          let (h2, l2, e, u) =
            take_out rounds heap l c.0 c.1 q cs item next_here rest d.1
              (ground (arith, there, other)) (omega arith) at_end in
          (
            h2,
            l2,
            rw (start, next_here, other) e,
            record {
              chain =
                  subst (λ t. IsChain h2 (some a) ((a, x) ∷ t)) (sym (miss c cs item other))
                    (
                      refl,
                      (
                        ptr,
                        u.frame a d.0 ∙ here,
                        subst (λ t. IsChain h2 t (c ∷ without item cs)) (sym start) u.chain,
                      ),
                    );
              frame = λ k others. u.frame k (among_ne k a (c.0 ∷ addresses cs) others).1;
              size = u.size;
              ends = u.ends ∙ ap (λ t. last_of ((a, x) ∷ t)) (sym (miss c cs item other));
              head = u.head;
              count = u.count;
            },
          )
    ]
