-- ===== src/LinkedList/Removal.antt =====
-- Remove of lib/list.cc: the item is taken out of the sequence, at the front or further on.
use nachos_assignment.LinkedList.{Heap, LinkedList, remove, walk}
use nachos_assignment.LinkedList.Chain.{IsChain, addresses, items, last_of, Represents, among_ne}
use nachos_assignment.LinkedList.Ends.{is_in_list_lem}
use nachos_assignment.LinkedList.Front.{remove_front_takes}
use nachos_assignment.LinkedList.Middle.{without, hit, miss, take_out}
use nachos_assignment.Base.{
  ℕ, suc, ◌≡◌, refl, sym, ap, ◌∙◌, subst, ◌≢◌, inl, inr, true, false, none, List, [], ◌∷◌, arith,
  ◌==◌, Bool-cases, length, set, among, IsDistinct, aborted, ok, err,
}

-- A number that is not the first and not among the others is not in the list.
pub among_cons : (k x : ℕ) (xs : List ℕ) → k ≢ x → among k xs ≡ false → among k (x ∷ xs) ≡ false
unfolding among
among_cons k x xs ne h = ground (arith, ne, h)

module _ (item : ℕ) where
  addresses-without :
      (cs : List (ℕ × ℕ)) (k : ℕ)
      → among k (addresses cs) ≡ false
      → among k (addresses (without item cs)) ≡ false
  addresses-without [] k h = unfold without in h
  addresses-without (c ∷ cs) k h =
      let (ne, others) = among_ne k c.0 (addresses cs) h in
      elim (Bool-cases (item == c.1)) [
        | inl same ↦ rw (hit c cs item same) others
        | inr other ↦
            rw (miss c cs item other)
              (among_cons k c.0 (addresses (without item cs)) ne (addresses-without cs k others))
      ]

  IsDistinct-without :
      (cs : List (ℕ × ℕ)) → IsDistinct (addresses cs) → IsDistinct (addresses (without item cs))
  IsDistinct-without [] d = unfold without in tt
  IsDistinct-without (c ∷ cs) (apart, d) = elim (Bool-cases (item == c.1)) [
    | inl same ↦ rw (hit c cs item same) d
    | inr other ↦
        rw (miss c cs item other) (addresses-without cs c.0 apart, IsDistinct-without cs d)
  ]

  among_tail :
      (c : ℕ × ℕ) (cs : List (ℕ × ℕ))
      → (item == c.1) ≡ false
      → among item (items (c ∷ cs)) ≡ true
      → among item (items cs) ≡ true
  unfolding among
  among_tail c cs other h = ground (arith, other, h)

  length-without :
      (cs : List (ℕ × ℕ))
      → among item (items cs) ≡ true
      → suc (length (without item cs)) ≡ length cs
  length-without [] h = absurd (unfold among in ground (arith, h))
  length-without (c ∷ cs) h = elim (Bool-cases (item == c.1)) [
    | inl same ↦ rw (hit c cs item same) refl
    | inr other ↦ rw (miss c cs item other) (ap suc (length-without cs (among_tail c cs other h)))
  ]

  gone : (cs : List (ℕ × ℕ)) → IsDistinct (items cs) → among item (items (without item cs)) ≡ false
  gone [] d = unfold without among in refl
  gone (c ∷ cs) (apart, d) = elim (Bool-cases (item == c.1)) [
    | inl same ↦
        let eq : item ≡ c.1 = ground (arith, same) in
        rw (hit c cs item same) (ap (λ t. among t (items cs)) eq ∙ apart)
    | inr other ↦
        let ne : item ≢ c.1 = ground (arith, other) in
        rw (miss c cs item other) (among_cons item c.1 (items (without item cs)) ne (gone cs d))
  ]

pub remove_refuses :
    (heap : Heap) (l : LinkedList) (cs : List (ℕ × ℕ)) (item : ℕ)
    → Represents heap l cs
    → among item (items cs) ≡ false
    → remove heap l item ≡ err aborted
unfolding remove
remove_refuses heap l cs item r h = rw (is_in_list_lem heap l cs item r, h) refl

-- Remove of an item that is in the list, in which no item is twice, takes it out and leaves the
-- others in their order.
pub remove_takes :
    (heap : Heap) (l : LinkedList) (cs : List (ℕ × ℕ)) (item : ℕ)
    → Represents heap l cs
    → IsDistinct (items cs)
    → among item (items cs) ≡ true
    → (h2 : Heap) × (l2 : LinkedList) × (remove heap l item ≡ ok (h2, l2))
      × Represents h2 l2 (without item cs)
unfolding remove
remove_takes heap l [] item r d there = absurd (unfold among in ground (arith, there))
remove_takes heap l (c ∷ cs) item r d there =
    let (start, (q, here, rest)) = r.chain in
    elim (Bool-cases (item == c.1)) [
      | inl same ↦
          let (l2, e, r2) = remove_front_takes heap l c cs r in
          let r3 : Represents (set heap c.0 none) l2 (without item (c ∷ cs)) =
            rw (hit c cs item same) r2 in
          (
            set heap c.0 none,
            l2,
            simp
                (
                  is_in_list_lem heap l (c ∷ cs) item r,
                  there,
                  start,
                  here,
                  same,
                  e,
                  is_in_list_lem (set heap c.0 none) l2 _ item r3,
                  gone item (c ∷ cs) d,
                )
                refl,
            r3,
          )
      | inr other ↦
          let (h2, l2, e, u) =
            take_out (walk heap) heap l c.0 c.1 q cs item here rest r.distinct
              (among_tail item c cs other there) (omega (arith, r.room)) r.ends in
          let left : without item (c ∷ cs) ≡ c ∷ without item cs = miss c cs item other in
          let shorter = length-without item (c ∷ cs) there in
          let r3 : Represents h2 l2 (without item (c ∷ cs)) = record {
            chain =
                subst (λ t. IsChain h2 l2.first t) (sym left)
                  (subst (λ t. IsChain h2 t (c ∷ without item cs)) (sym (u.head ∙ start)) u.chain);
            distinct = IsDistinct-without item (c ∷ cs) r.distinct;
            ends = u.ends ∙ ap last_of (sym left);
            counted = omega (arith, u.count, r.counted, shorter);
            room = omega (arith, u.size, r.room, shorter);
          } in
          (
            h2,
            l2,
            simp
                (
                  is_in_list_lem heap l (c ∷ cs) item r,
                  there,
                  start,
                  here,
                  other,
                  e,
                  is_in_list_lem h2 l2 _ item r3,
                  gone item (c ∷ cs) d,
                )
                refl,
            r3,
          )
    ]
