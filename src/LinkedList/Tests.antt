-- ===== src/LinkedList/Tests.antt =====
-- Lists of two numbers, for the theorems on lib/list.cc.
use nachos_assignment.LinkedList.{Heap, LinkedList, empty_list, in_list_from, is_in_list, append}
use nachos_assignment.LinkedList.Chain.{Represents, items}
use nachos_assignment.LinkedList.Ends.{is_in_list_lem}
use nachos_assignment.LinkedList.Sorted.{comes_before, insert, inserted}
use nachos_assignment.LinkedList.Sorted.Insertion.{IsSorted, insert_sorts}
use nachos_assignment.LinkedList.Sanity.{Updates, list-Updates}
use nachos_assignment.Base.{
  ℕ, ◌≡◌, refl, true, false, none, some, List, [], ◌∷◌, arith, among, ℤ, sub_ℕ, ok,
}

-- 10 in the element at 1, then 30 in the element at 0.
abbrev two_elements : Heap
two_elements =
    some (record { item = 30; next = none }) ∷ some (record { item = 10; next = some 0 }) ∷ []

abbrev two_list : LinkedList
two_list = record { first = some 1; last = some 0; num_in_list = 2 }

abbrev two_cells : List (ℕ × ℕ)
two_cells = (1, 10) ∷ (0, 30) ∷ []

two-Represents : Represents two_elements two_list two_cells
unfolding among
two-Represents = record {
  chain = (refl, (some 0, refl, (refl, (none, refl, refl))));
  distinct = (refl, (refl, tt));
  ends = refl;
  counted = refl;
  room = omega arith;
}

appended :
    append [] empty_list 30
    ≡ ok (
      some (record { item = 30; next = none }) ∷ [],
      record { first = some 0; last = some 0; num_in_list = 1 },
    )
unfolding append is_in_list in_list_from
appended = refl

list-Updates_example : Updates two_elements two_list two_cells 20
unfolding among
list-Updates_example =
    list-Updates two_elements two_list two_cells 20 two-Represents (refl, (refl, tt))

is_in_list_lem_example : is_in_list two_elements two_list 30 ≡ ok (among 30 (items two_cells))
is_in_list_lem_example = is_in_list_lem two_elements two_list two_cells 30 two-Represents

-- The smaller number first.
abbrev by_size : ℕ → ℕ → ℤ
by_size x y = sub_ℕ x y

by_size_asymmetric : (x y : ℕ) → comes_before by_size x y ≡ true → comes_before by_size y x ≡ false
by_size_asymmetric x y h = ground (arith, h)

insert_sorts_example :
    (h2 : Heap) × (l2 : LinkedList) × (more : List (ℕ × ℕ)) × (insert by_size two_elements two_list
        20
      ≡ ok (h2, l2))
    × Represents h2 l2 more
    × IsSorted by_size (items more)
    × (more ≡ inserted by_size 2 20 two_cells)
unfolding among
insert_sorts_example =
    insert_sorts by_size two_elements two_list two_cells 20 by_size_asymmetric two-Represents
      (refl, tt) refl

-- 20 goes between them, in a new element.
twenty : inserted by_size 2 20 two_cells ≡ (1, 10) ∷ (2, 20) ∷ (0, 30) ∷ []
unfolding inserted
twenty = refl
