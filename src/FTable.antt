-- ===== src/FTable.antt =====
-- threads/ftable.h and threads/ftable.cc, and filesys/openfile.cc as it is compiled (FILESYS_STUB is
-- defined): the files of a process. The calls of lib/sysdep.cc are those of the host system and stand
-- as a parameter; `U` is the state of the host.
pub mod Transfer
pub mod Reading
pub mod Laws
pub mod Tests
use nachos_assignment.Syscall.Console.{Console, get_char, put_char}
use nachos_assignment.Base.{
  ◌&&◌, ◌||◌, not, ℕ, zero, suc, ◌+◌, ◌-◌, ◌*◌, ◌/◌, ◌%◌, ◌^◌, ◌≤◌, ◌<◌, min, max, bit_and, bit_or,
  ◌≡◌, refl, sym, ap, ap₂, ◌∙◌, subst, fun_ext, ◌≢◌, ◌↔◌, ◌⊎◌, inl, inr, Bool, true, false, Option,
  none, some, List, [], ◌∷◌, ◌++◌, map, arith, ltb, leb, ◌==◌, if◌then◌else◌, ltb→lt, lt→ltb,
  leb→le, ==_iff, tests, Bool-cases, Option-cases, every, every-test, agree, agree_eq, length,
  get_elem?, set, get_or, take, drop, replicate, length-append, length-set, get_elem?-set_self,
  get_elem?-set_ne, take-append-drop, length-take, length-drop, length-replicate, length-map,
  get_elem?-eq-get_or, get_or-set_self, get_or-set_ne, get_or-replicate, get_elem?-none,
  get_elem?-some, get_elem?_beyond, get_elem?_inside, drop_all, drop_step, set-set_self, set-set_ne,
  set-get_elem?, among, IsDistinct, ℤ, pos, negsuc, pos_part, neg_part, sub_ℕ, neg_ℤ, ltb_ℤ,
  to_unsigned, to_int, IsInt, to_int-to_unsigned, ◌+ℤ◌, ◌-ℤ◌, same_int, minus_one, Name, same_name,
  same_name_eq, same_name_refl, Stop, aborted, halted, undefined, Outcome, ok, err, check_int,
  ◌>>=◌, ◌>>◌, assert, deref, at, Name, same_name, same_name_eq, same_name_refl,
}

-- OpenForReadWrite, Close, Lseek, Tell, ReadPartial and WriteFile. An answer of -1 of ReadPartial is
-- `none`.
pub record Unix (U : Type 0) : Type 0 where
  pub open_for_read_write : Name → U → U × ℤ
  pub close : ℤ → U → Outcome U
  pub lseek : ℤ → ℤ → ℕ → U → Outcome U
  pub tell : ℤ → U → ℤ
  pub read_partial : ℤ → ℕ → U → U × Option (List ℕ)
  pub write_file : ℤ → List ℕ → U → Outcome U

pub record OpenFile : Type 0 where
  pub type : ℕ
  pub file : ℤ
  pub current_offset : ℤ

-- OpenFile::OpenFile(f, t)
abbrev pub open_file : ℤ → ℕ → OpenFile
open_file f t = record { type = t; file = f; current_offset = pos 0 }

abbrev pub n_file : ℕ
n_file = 10

abbrev pub stdin : ℕ
stdin = 0

abbrev pub stdout : ℕ
stdout = 1

-- FileTable::core
abbrev pub FileTable : Type 0
FileTable = List (Option OpenFile)

-- FileTable::FileTable() sets the type of the first file twice.
pub new : FileTable
new = some (open_file (pos 0) 0) ∷ some (open_file (pos 0) 0) ∷ replicate 8 none

-- The loop of FindFreeSlot from slot `i` on, with `left` slots to go.
unfoldable pub find_free_from : ℕ → ℕ → FileTable → Outcome ℤ
find_free_from zero i core = ok minus_one
find_free_from (suc left) i core = do
  cell ← at core i
  elim cell [ none ↦ ok (pos i) | some f ↦ find_free_from left (i + 1) core ]

unfoldable pub find_free_slot : FileTable → Outcome ℤ
find_free_slot core = find_free_from 8 2 core

-- fid < 0 || fid > N_FILE
abbrev pub is_refused : ℤ → Bool
is_refused (pos i) = ltb n_file i
is_refused (negsuc i) = true

-- The bytes that a call passes on from its buffer.
abbrev pub bytes_of : List ℕ → ℕ → Outcome (List ℕ)
bytes_of buffer n = if leb n (length buffer) then ok (take n buffer) else err undefined

-- for (i = 0; i < charcount && buffer[i] != 0; ++i) PutChar(buffer[i])
unfoldable pub put_text : ℕ → List ℕ → Console → Outcome Console
put_text zero buffer c = ok c
put_text (suc charcount) [] c = err undefined
put_text (suc charcount) (b ∷ buffer) c =
    let rest = put_text charcount buffer (put_char b c) in if b == 0 then ok c else rest

-- for (i = 0; i < charcount; i++) buffer[i] = GetChar()
unfoldable pub get_text : ℕ → Console → Outcome (List ℕ × Console)
get_text zero c = ok ([], c)
get_text (suc charcount) c = do
  (b, c') ← get_char c
  (rest, c'') ← get_text charcount c'
  ok (b ∷ rest, c'')

module _ {U : Type 0} (unix : Unix U) where
  unfoldable pub read_at : OpenFile → ℕ → ℤ → U → Outcome (U × Option (List ℕ))
  read_at f num_bytes position u = do
    u' ← unix.lseek f.file position 0 u
    ok (unix.read_partial f.file num_bytes u')

  unfoldable pub write_at : OpenFile → List ℕ → ℤ → U → Outcome U
  write_at f bytes position u = do
    u' ← unix.lseek f.file position 0 u
    unix.write_file f.file bytes u'

  -- The answer of a read as an `int`.
  abbrev pub count_of : Option (List ℕ) → ℤ
  count_of none = minus_one
  count_of (some bytes) = pos (length bytes)

  -- OpenFile::Read
  unfoldable pub read_file : OpenFile → ℕ → U → Outcome (OpenFile × U × Option (List ℕ))
  read_file f num_bytes u = do
    (u', bytes) ← read_at f num_bytes f.current_offset u
    ok (record f { current_offset = f.current_offset +ℤ count_of bytes }, u', bytes)

  -- OpenFile::Write
  unfoldable pub write_file : OpenFile → List ℕ → U → Outcome (OpenFile × U)
  write_file f bytes u = do
    u' ← write_at f bytes f.current_offset u
    ok (record f { current_offset = f.current_offset +ℤ pos (length bytes) }, u')

  -- OpenFile::Length
  unfoldable pub file_length : OpenFile → U → Outcome (U × ℤ)
  file_length f u = do
    u' ← unix.lseek f.file (pos 0) 2 u
    u'' ← unix.lseek f.file f.current_offset 0 u'
    ok (u'', unix.tell f.file u')

  -- OpenFile::Append
  unfoldable pub append_file : OpenFile → List ℕ → U → Outcome (OpenFile × U)
  append_file f bytes u = do
    (u', filesize) ← file_length f u
    u'' ← write_at f bytes filesize u'
    ok (record f { current_offset = filesize +ℤ pos (length bytes) }, u'')

  -- OpenFile::GetCurrentPos
  abbrev pub get_current_pos : OpenFile → U → OpenFile
  get_current_pos f u = record f { current_offset = unix.tell f.file u }

  -- FileTable::Open
  unfoldable pub open_name : FileTable → Name → ℕ → U → Outcome (FileTable × U × ℤ)
  open_name core name type u = do
    free ← find_free_slot core
    let opened = unix.open_for_read_write name u
    elim free [
      | negsuc i ↦ ok (core, u, minus_one)
      | pos i ↦
          if same_int opened.1 minus_one
          then ok (core, opened.0, minus_one)
          else ok (set core i (some (open_file opened.1 type)), opened.0, pos i)
    ]

  -- The part of Close for a slot from 2 on.
  unfoldable pub close_slot : FileTable → ℕ → U → Outcome (FileTable × U × ℤ)
  close_slot core i u = do
    cell ← at core i
    elim cell [
      | none ↦ ok (core, u, minus_one)
      | some f ↦ unix.close f.file u >>= λ u'. ok (set core i none, u', minus_one)
    ]

  -- FileTable::Close
  unfoldable pub close : FileTable → ℤ → U → Outcome (FileTable × U × ℤ)
  close core (negsuc i) u = ok (core, u, minus_one)
  close core (pos i) u =
      let closed = close_slot core i u in
      if leb 2 i && ltb i n_file then closed else ok (core, u, minus_one)
