-- ===== src/LinkedList.antt =====
-- The classes List and SortedList of lib/list.h and lib/list.cc over a heap of list elements. An
-- item is a pointer or an int, that is, a number; an address is a place in the heap, and a deleted
-- element leaves an empty place. A walk takes one round for each element it meets; one that meets
-- more of them than the heap has is caught in a cycle.
mod Chain
pub mod Ends
pub mod Front
pub mod Middle
pub mod Removal
pub mod Sorted
pub mod Sanity
pub mod Tests
use nachos_assignment.Base.{
  ◌&&◌, ◌||◌, not, ℕ, zero, suc, ◌+◌, ◌-◌, ◌*◌, ◌/◌, ◌%◌, ◌^◌, ◌≤◌, ◌<◌, min, max, bit_and, bit_or,
  bit_xor, ◌≡◌, refl, sym, ap, ap₂, ◌∙◌, subst, fun_ext, ◌≢◌, ◌↔◌, ◌⊎◌, inl, inr, Bool, true, false,
  Option, none, some, List, [], ◌∷◌, ◌++◌, map, arith, ltb, leb, ◌==◌, if◌then◌else◌, ltb→lt,
  lt→ltb, leb→le, ==_iff, tests, Bool-cases, Option-cases, every, every-test, agree, agree_eq,
  length, get_elem?, set, get_or, take, drop, replicate, length-append, length-set,
  get_elem?-set_self, get_elem?-set_ne, take-append-drop, length-take, length-drop,
  length-replicate, length-map, get_elem?-eq-get_or, get_or-set_self, get_or-set_ne,
  get_or-replicate, get_elem?-none, get_elem?-some, get_elem?_beyond, get_elem?_inside, drop_all,
  drop_step, set-set_self, set-set_ne, set-get_elem?, among, IsDistinct, ℤ, pos, negsuc, pos_part,
  neg_part, sub_ℕ, neg_ℤ, ltb_ℤ, to_unsigned, to_int, IsInt, to_int-to_unsigned, ◌+ℤ◌, ◌-ℤ◌,
  same_int, minus_one, Name, same_name, same_name_eq, same_name_refl, Stop, aborted, halted,
  undefined, looping, Outcome, ok, err, Outcome-cases, check_int, ◌>>=◌, ◌>>◌, assert, deref, at,
  Name, same_name, same_name_eq, same_name_refl,
}

pub record Element : Type 0 where
  pub item : ℕ
  pub next : Option ℕ

abbrev pub Heap : Type 0
Heap = List (Option Element)

pub record LinkedList : Type 0 where
  pub first : Option ℕ
  pub last : Option ℕ
  pub num_in_list : ℕ

abbrev pub empty_list : LinkedList
empty_list = record { first = none; last = none; num_in_list = 0 }

abbrev pub is_empty : LinkedList → Bool
is_empty l = l.num_in_list == 0

-- *p
abbrev pub element_at : Heap → Option ℕ → Outcome Element
element_at heap p = deref p >>= λ a. at heap a >>= deref

-- new ListElement<T>(item), which goes to the place behind the heap.
abbrev pub with_element : Heap → ℕ → Heap
with_element heap item = heap ++ (some (record { item = item; next = none }) ∷ [])

-- p->next = q
unfoldable pub set_next : Heap → Option ℕ → Option ℕ → Outcome Heap
set_next heap p q = do
  a ← deref p
  e ← element_at heap p
  ok (set heap a (some (record e { next = q })))

-- Whether two pointers are the same.
abbrev pub same_pointer : Option ℕ → Option ℕ → Bool
same_pointer none none = true
same_pointer (some a) (some b) = a == b
same_pointer _ _ = false

-- The loop of IsInList from the element at `p` on.
unfoldable pub in_list_from : ℕ → Heap → Option ℕ → ℕ → Outcome Bool
in_list_from zero heap p item = err looping
in_list_from (suc rounds) heap none item = ok false
in_list_from (suc rounds) heap (some a) item = do
  e ← element_at heap (some a)
  let rest = in_list_from rounds heap e.next item
  if item == e.item then ok true else rest

abbrev pub walk : Heap → ℕ
walk heap = suc (length heap)

unfoldable pub is_in_list : Heap → LinkedList → ℕ → Outcome Bool
is_in_list heap l item = in_list_from (walk heap) heap l.first item

unfoldable pub append : Heap → LinkedList → ℕ → Outcome (Heap × LinkedList)
append heap l item = do
  let a = length heap
  let h1 = with_element heap item
  there ← is_in_list h1 l item
  assert (not there)
  h2 ← if is_empty l then ok h1 else set_next h1 l.last (some a)
  let l2 : LinkedList = record {
    first = if is_empty l then some a else l.first;
    last = some a;
    num_in_list = suc l.num_in_list;
  }
  now ← is_in_list h2 l2 item
  assert now
  ok (h2, l2)

unfoldable pub prepend : Heap → LinkedList → ℕ → Outcome (Heap × LinkedList)
prepend heap l item = do
  let a = length heap
  let h1 = with_element heap item
  there ← is_in_list h1 l item
  assert (not there)
  h2 ← if is_empty l then ok h1 else set_next h1 (some a) l.first
  let l2 : LinkedList = record {
    first = some a;
    last = if is_empty l then some a else l.last;
    num_in_list = suc l.num_in_list;
  }
  now ← is_in_list h2 l2 item
  assert now
  ok (h2, l2)

-- delete p
unfoldable pub free : Heap → Option ℕ → Outcome Heap
free heap p = do a ← deref p; _ ← element_at heap p; ok (set heap a none)

unfoldable pub remove_front : Heap → LinkedList → Outcome (Heap × LinkedList × ℕ)
remove_front heap l = do
  assert (not (is_empty l))
  e ← element_at heap l.first
  let only = same_pointer l.first l.last
  h2 ← free heap l.first
  ok (
    h2,
    record {
      first = if only then none else e.next;
      last = if only then none else l.last;
      num_in_list = l.num_in_list - 1;
    },
    e.item,
  )

-- The loop of Remove, with `prev` before `ptr`; the end of the list fails the assertion behind it.
unfoldable pub remove_from :
    ℕ → Heap → LinkedList → Option ℕ → Option ℕ → ℕ → Outcome (Heap × LinkedList)
remove_from zero heap l prev ptr item = err looping
remove_from (suc rounds) heap l prev none item = err aborted
remove_from (suc rounds) heap l prev (some a) item = do
  e ← element_at heap (some a)
  let rest = remove_from rounds heap l (some a) e.next item
  let unlinked = do
    h1 ← set_next heap prev e.next
    h2 ← free h1 (some a)
    ok (
      h2,
      record l {
        last = if same_pointer e.next none then prev else l.last;
        num_in_list = l.num_in_list - 1;
      },
    )
  if item == e.item then unlinked else rest

unfoldable pub remove : Heap → LinkedList → ℕ → Outcome (Heap × LinkedList)
remove heap l item = do
  there ← is_in_list heap l item
  assert there
  e ← element_at heap l.first
  let front = do r ← remove_front heap l; assert (item == r.2); ok (r.0, r.1)
  r ← if item == e.item then front else remove_from (walk heap) heap l l.first e.next item
  still ← is_in_list r.0 r.1 item
  assert (not still)
  ok r

-- The loop of SanityCheck, from `ptr` on with `found` elements counted.
unfoldable pub count_to : ℕ → Heap → LinkedList → Option ℕ → ℕ → Outcome ℕ
count_to zero heap l ptr found = err looping
count_to (suc rounds) heap l ptr found = do
  let rest = do
    assert (leb (suc found) l.num_in_list)
    e ← element_at heap ptr
    count_to rounds heap l e.next (suc found)
  if same_pointer ptr l.last then ok found else rest

unfoldable pub sanity_check : Heap → LinkedList → Outcome (Unit {0})
sanity_check heap l = do
  let several = do
    found ← count_to (walk heap) heap l l.first 1
    assert (found == l.num_in_list)
    e ← element_at heap l.last
    assert (same_pointer e.next none)
  let single = do
    e ← element_at heap l.last
    assert (l.num_in_list == 1 && same_pointer e.next none)
  if same_pointer l.first none
      then assert (l.num_in_list == 0 && same_pointer l.last none)
      else if same_pointer l.first l.last
      then single
      else several
