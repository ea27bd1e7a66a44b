-- ===== src/FTable/Tests.antt =====
-- A small host for the theorems on threads/ftable.cc: its state is the position in its one file, which
-- holds the byte 7 over and over, and it reads a byte at a time.
use nachos_assignment.FTable.{
  Unix, FileTable, open_file, new, open_name, close, find_free_slot, find_free_from,
}
use nachos_assignment.FTable.Transfer.{filled, read, write, append}
use nachos_assignment.FTable.Reading.{IsPositioned, read_counts}
use nachos_assignment.FTable.Laws.{Opens, open_name-Opens, close-open_name, past_the_end}
use nachos_assignment.Syscall.Console.{Console}
use nachos_assignment.Base.{
  ℕ, zero, suc, ◌+◌, ◌≤◌, ◌≡◌, refl, Option, some, List, [], ◌∷◌, arith, length, set, pos, pos_part,
  minus_one, undefined, ok, err,
}

read_sevens : ℕ → ℕ → ℕ × Option (List ℕ)
read_sevens zero u = (u, some [])
read_sevens (suc n) u = (u + 1, some (7 ∷ []))

abbrev sevens : Unix ℕ
sevens = record {
  open_for_read_write = λ name u. (u, pos 5);
  close = λ f u. ok u;
  lseek = λ f p whence u. ok (pos_part p);
  tell = λ f u. pos u;
  read_partial = λ f n u. read_sevens n u;
  write_file = λ f bytes u. ok (u + length bytes);
}

sevens-moves :
    (n u u' : ℕ) (bs : List ℕ)
    → read_sevens n u ≡ (u', some bs)
    → (u' ≡ u + length bs) × (length bs ≤ n)
unfolding read_sevens
sevens-moves zero u u' bs e = ground (arith, e)
sevens-moves (suc n) u u' bs e = ground (arith, e)

sevens-IsPositioned : IsPositioned sevens
sevens-IsPositioned = record {
  seeks = λ f p u u' e. ground (arith, e);
  moves = λ f p n u u' bs here e. ground (arith, here, sevens-moves n u u' bs e);
  bounded = λ f n u u' bs e. (sevens-moves n u u' bs e).1;
}

abbrev quiet : Console
quiet = record { input = []; output = [] }

-- File 3 is open, after four bytes of it have been read.
abbrev core : FileTable
core = set new 3 (some (record (open_file (pos 5) 0) { current_offset = pos 4 }))

ten_slots : length core ≡ 10
ten_slots = unfold new in refl

read_counts_example :
    read sevens core 4 quiet (1 ∷ 2 ∷ []) 2 (pos 3)
    ≡ ok (record {
      core = set core 3 (some (record (open_file (pos 5) 0) { current_offset = pos 5 }));
      host = 5;
      console = quiet;
      buffer = filled (7 ∷ 2 ∷ []);
      answer = pos 1;
    })
read_counts_example =
    read_counts sevens core 4 4 5 quiet (1 ∷ 2 ∷ []) 2 3 4
      (record (open_file (pos 5) 0) { current_offset = pos 4 }) (7 ∷ []) sevens-IsPositioned
      (unfold new in refl) (omega arith) (omega arith) (omega arith) refl refl
      (unfold read_sevens in refl) (omega arith)

open_name-Opens_example : Opens sevens core (b'f' ∷ []) 0 4 (open_name sevens core (b'f' ∷ []) 0 4)
open_name-Opens_example = open_name-Opens sevens core (b'f' ∷ []) 0 4 ten_slots

opens_slot_2 :
    open_name sevens core (b'f' ∷ []) 0 4 ≡ ok (set core 2 (some (open_file (pos 5) 0)), 4, pos 2)
unfolding open_name find_free_slot find_free_from new
opens_slot_2 = refl

close-open_name_example :
    close sevens (set core 2 (some (open_file (pos 5) 0))) (pos 2) 4 ≡ ok (core, 4, minus_one)
close-open_name_example =
    close-open_name sevens core (b'f' ∷ []) 0 2 4 4 4 (set core 2 (some (open_file (pos 5) 0)))
      ten_slots opens_slot_2 refl

past_the_end_example :
    (read sevens core 4 quiet (1 ∷ []) 1 (pos 10) ≡ err undefined)
    × (write sevens core 4 quiet (1 ∷ []) 1 (pos 10) ≡ err undefined)
    × (append sevens core 4 quiet (1 ∷ []) 1 (pos 10) ≡ err undefined)
past_the_end_example = past_the_end sevens core 4 quiet (1 ∷ []) 1 ten_slots
