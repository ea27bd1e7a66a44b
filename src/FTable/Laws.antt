-- ===== src/FTable/Laws.antt =====
-- FileTable::Open and FileTable::Close of threads/ftable.cc, and the file number behind the last.
use nachos_assignment.FTable.{
  Unix, OpenFile, FileTable, open_file, n_file, find_free_from, find_free_slot, open_name,
  close_slot, close,
}
use nachos_assignment.FTable.Transfer.{read, write, append}
use nachos_assignment.Syscall.Console.{Console}
use nachos_assignment.Base.{
  ◌&&◌, ℕ, zero, suc, ◌+◌, ◌≤◌, ◌<◌, ◌≡◌, refl, sym, ap, ◌∙◌, subst, inl, inr, Bool, true, false,
  Option, none, some, List, [], arith, ltb, leb, ◌==◌, Bool-cases, Option-cases, length, get_elem?,
  set, get_elem?-set_self, get_elem?-none, get_elem?-some, set-set_self, set-get_elem?, ℤ, pos,
  pos_part, same_int, minus_one, Name, undefined, Outcome, ok, err, Name,
}

abbrev pub is_open : Option (Option OpenFile) → Bool
is_open (some (some f)) = true
is_open _ = false

-- What a search for a free slot from `lo` on comes to.
pub data FindsSlot (core : FileTable) (lo : ℕ) (r : Outcome ℤ) : Type 0 where
  no_slot :
      ((j : ℕ) → lo ≤ j → j < n_file → is_open (get_elem? core j) ≡ true)
      → r ≡ ok minus_one
      → FindsSlot core lo r
  slot :
      (i : ℕ)
      → lo ≤ i
      → i < n_file
      → get_elem? core i ≡ some none
      → ((j : ℕ) → lo ≤ j → j < i → is_open (get_elem? core j) ≡ true)
      → r ≡ ok (pos i)
      → FindsSlot core lo r

open_there :
    (core : FileTable) (lo j : ℕ) (f : OpenFile)
    → get_elem? core lo ≡ some (some f)
    → lo ≤ j
    → ((lo + 1 ≤ j) → is_open (get_elem? core j) ≡ true)
    → is_open (get_elem? core j) ≡ true
open_there core lo j f e h later = elim (Bool-cases (j == lo)) [
  | inl same ↦ let s : j ≡ lo = ground arith in rw (s, e) refl
  | inr other ↦ later (ground arith)
]

find_free_from-FindsSlot :
    (left lo : ℕ) (core : FileTable)
    → length core ≡ n_file
    → lo + left ≡ n_file
    → FindsSlot core lo (find_free_from left lo core)
unfolding find_free_from
find_free_from-FindsSlot zero lo core n h = no_slot (λ j a b. absurd (omega arith)) refl
find_free_from-FindsSlot (suc left) lo core n h =
    let (cell, e) = get_elem?-some core lo (omega arith) in
    elim (Option-cases cell) [
      | inl empty ↦
          slot lo (omega arith) (omega arith) (rw e (ap (λ t. some t) empty))
            (λ j a b. absurd (omega arith)) (rw (e, empty) refl)
      | inr (f, used) ↦
          let here : get_elem? core lo ≡ some (some f) = e ∙ ap (λ t. some t) used in
          elim (find_free_from-FindsSlot left (lo + 1) core n (omega arith)) [
            | no_slot all r ↦
                no_slot (λ j a b. open_there core lo j f here a (λ c. all j c b)) (rw (e, used) r)
            | slot i a b free before r ↦
                slot i (omega arith) b free
                  (λ j c d. open_there core lo j f here c (λ c'. before j c' d)) (rw (e, used) r)
          ]
    ]

module _ {U : Type 0} (unix : Unix U) where
  -- The table and the answer that a call gives.
  abbrev table_after : Outcome (FileTable × U × ℤ) → FileTable
  table_after (ok (core, u, n)) = core
  table_after (err e) = []

  abbrev answer_after : Outcome (FileTable × U × ℤ) → ℤ
  answer_after (ok (core, u, n)) = n
  answer_after (err e) = minus_one

  -- What Open comes to: no slot is free and the host is not called, the host does not open the file,
  -- or the file is in the lowest free slot.
  pub data Opens (core : FileTable) (name : Name) (type : ℕ) (u : U)
      (r : Outcome (FileTable × U × ℤ)) : Type 0 where
    full :
        ((j : ℕ) → 2 ≤ j → j < n_file → is_open (get_elem? core j) ≡ true)
        → r ≡ ok (core, u, minus_one)
        → Opens core name type u r
    failed :
        same_int (unix.open_for_read_write name u).1 minus_one ≡ true
        → r ≡ ok (core, (unix.open_for_read_write name u).0, minus_one)
        → Opens core name type u r
    opened :
        (i : ℕ)
        → 2 ≤ i
        → i < n_file
        → get_elem? core i ≡ some none
        → ((j : ℕ) → 2 ≤ j → j < i → is_open (get_elem? core j) ≡ true)
        → same_int (unix.open_for_read_write name u).1 minus_one ≡ false
        → r
          ≡ ok (
            set core i (some (open_file (unix.open_for_read_write name u).1 type)),
            (unix.open_for_read_write name u).0,
            pos i,
          )
        → Opens core name type u r

  -- Open on a table of ten slots: with all slots from 2 on in use it answers -1 and changes
  -- nothing; if the host does not open the file it answers -1 and the table stays as it is; else
  -- the file is in the lowest free slot from 2 on, which is the answer, and no other slot changes.
  pub open_name-Opens :
      (core : FileTable) (name : Name) (type : ℕ) (u : U)
      → length core ≡ n_file
      → Opens core name type u (open_name unix core name type u)
  unfolding open_name find_free_slot
  open_name-Opens core name type u n = elim (find_free_from-FindsSlot 8 2 core n refl) [
    | no_slot all r ↦ full all (rw r refl)
    | slot i a b free before r ↦
        elim (Bool-cases (same_int (unix.open_for_read_write name u).1 minus_one)) [
          | inl bad ↦ failed bad (rw (r, bad) refl)
          | inr good ↦ opened i a b free before good (rw (r, good) refl)
        ]
  ]

  -- Close of a file that Open has just opened, where the host closes its descriptor, leaves the
  -- table as it was before Open, and answers -1.
  pub close-open_name :
      (core : FileTable) (name : Name) (type i : ℕ) (u u' u'' : U) (core' : FileTable)
      → length core ≡ n_file
      → open_name unix core name type u ≡ ok (core', u', pos i)
      → unix.close (unix.open_for_read_write name u).1 u' ≡ ok u''
      → close unix core' (pos i) u' ≡ ok (core, u'', minus_one)
  unfolding close close_slot
  close-open_name core name type i u u' u'' core' n e closed =
      elim (open_name-Opens core name type u n) [
        | full all r ↦ absurd (ground (arith, e, r))
        | failed bad r ↦ absurd (ground (arith, e, r))
        | opened k a b free before good r ↦
            let same = sym r ∙ e in
            let number : pos k ≡ pos i = ap answer_after same in
            let k_is : k ≡ i = ap pos_part number in
            let files = open_file (unix.open_for_read_write name u).1 type in
            let table : set core k (some files) ≡ core' = ap table_after same in
            let table_i : set core i (some files) ≡ core' =
              subst (λ t. set core t (some files) ≡ core') k_is table in
            let small : i < n_file = subst (λ t. t < n_file) k_is b in
            let big : 2 ≤ i = subst (λ t. 2 ≤ t) k_is a in
            let empty : get_elem? core i ≡ some none =
              subst (λ t. get_elem? core t ≡ some none) k_is free in
            let here = get_elem?-set_self core i (some files) (omega (arith, small, n)) in
            let in_range : leb 2 i && ltb i n_file ≡ true = ground (arith, small, big) in
            subst (λ t. close unix t (pos i) u' ≡ ok (core, u'', minus_one)) table_i
              (rw (in_range, here, closed)
                (ap (λ t. ok (t, u'', minus_one))
                  (set-set_self core i (some files) none ∙ set-get_elem? core i none empty)))
      ]

  -- A file number of 10 is let through by Read, Write and Append, which then leave the array of ten
  -- files.
  pub past_the_end :
      (core : FileTable) (u : U) (c : Console) (buffer : List ℕ) (charcount : ℕ)
      → length core ≡ n_file
      → (read unix core u c buffer charcount (pos n_file) ≡ err undefined)
        × (write unix core u c buffer charcount (pos n_file) ≡ err undefined)
        × (append unix core u c buffer charcount (pos n_file) ≡ err undefined)
  unfolding read write append
  past_the_end core u c buffer charcount n =
      let nothing = get_elem?-none core n_file (omega (arith, n)) in
      (rw nothing refl, rw nothing refl, rw nothing refl)
