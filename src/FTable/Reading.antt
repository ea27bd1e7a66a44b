-- ===== src/FTable/Reading.antt =====
-- FileTable::Read of threads/ftable.cc on a file of the host.
use nachos_assignment.FTable.{Unix, OpenFile, FileTable, n_file, read_at, read_file}
use nachos_assignment.FTable.Transfer.{filled, read_open, read}
use nachos_assignment.Syscall.Console.{Console}
use nachos_assignment.Base.{
  ℕ, ◌+◌, ◌≤◌, ◌<◌, ◌≡◌, refl, true, false, some, List, ◌++◌, arith, ltb, leb, ◌==◌, length,
  get_elem?, set, drop, ℤ, pos, ltb_ℤ, ◌+ℤ◌, ◌-ℤ◌, ok,
}

-- What the host documents of its file positions: Lseek sets the position, and reading moves it by
-- what was read, which is at most what was asked for.
pub record IsPositioned {U : Type 0} (unix : Unix U) : Type 0 where
  pub seeks : (f : ℤ) (p : ℕ) (u u' : U) → unix.lseek f (pos p) 0 u ≡ ok u' → unix.tell f u' ≡ pos p
  pub moves :
      (f : ℤ) (p n : ℕ) (u u' : U) (bs : List ℕ)
      → unix.tell f u ≡ pos p
      → unix.read_partial f n u ≡ (u', some bs)
      → unix.tell f u' ≡ pos (p + length bs)
  pub bounded :
      (f : ℤ) (n : ℕ) (u u' : U) (bs : List ℕ)
      → unix.read_partial f n u ≡ (u', some bs)
      → length bs ≤ n

add_back : (p k : ℕ) → pos (p + k) -ℤ pos p ≡ pos k
add_back p k = ground arith

add_on : (p k : ℕ) → pos p +ℤ pos k ≡ pos (p + k)
add_on p k = ground arith

-- Read on an open file from number 2 on, whose host documents its positions and delivers some bytes
-- from the current one: they stand at the start of the buffer, the rest of the buffer is kept, the
-- answer is their count, and the current position moves by it.
pub read_counts :
    {U : Type 0} (unix : Unix U) (core : FileTable) (u u' u'' : U) (c : Console) (buffer : List ℕ)
    (charcount i p : ℕ) (f : OpenFile) (bs : List ℕ)
    → IsPositioned unix
    → get_elem? core i ≡ some (some f)
    → 2 ≤ i
    → i ≤ n_file
    → charcount ≤ length buffer
    → unix.tell f.file u ≡ pos p
    → unix.lseek f.file (pos p) 0 u ≡ ok u'
    → unix.read_partial f.file charcount u' ≡ (u'', some bs)
    → 0 < length bs
    → read unix core u c buffer charcount (pos i)
      ≡ ok (record {
        core = set core i (some (record f { current_offset = pos (p + length bs) }));
        host = u'';
        console = c;
        buffer = filled (bs ++ drop (length bs) buffer);
        answer = pos (length bs);
      })
unfolding read read_open read_file read_at
read_counts unix core u u' u'' c buffer charcount i p f bs host there low high room here sought got
      some_bytes =
    let at_p = host.seeks f.file p u u' sought in
    let moved = host.moves f.file p charcount u' u'' bs at_p got in
    let short = host.bounded f.file charcount u' u'' bs got in
    let inside : ltb n_file i ≡ false = ground (arith, high) in
    let not_stdout : (i == 1) ≡ false = ground (arith, low) in
    let not_stdin : (i == 0) ≡ false = ground (arith, low) in
    let fits : leb (length bs) (length buffer) ≡ true = ground (arith, short, room) in
    let hit : ltb_ℤ (pos 0) (pos (length bs)) ≡ true = ground (arith, some_bytes) in
    rw
      (inside, not_stdout, not_stdin, there, here, sought, got, moved, fits, add_back p (length bs))
      (rw hit refl)
